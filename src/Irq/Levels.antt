-- ===== src/Irq/Levels.antt =====
-- The levels of the lines of crates/systemrs-tlm-utils/src/irq.rs.
use systemrs.Base.{
  ℕ, ◌<◌, List, [], ◌∷◌, ◌++◌, Bool, true, false, Option, none, some, some, ◌==◌, ◌≡◌, refl, arith,
  ◌⊎◌, ==→eq, subst, sym, Any, ap, ◌∙◌, if◌then◌else◌, length, length-set, get_elem?,
  get_elem?-some, get_elem?-set, set, Bool-cases, inl, inr,
}
use mathlib.Core.Option.{some-injective}
use systemrs.Kernel.Ctx.{Op}
use systemrs.Irq.{IrqController, IrqLine, set_level, same_level}

-- A line of the table.
abbrev pub InTable : IrqController → IrqLine → Type 0
InTable c line = line.index < length c.levels

-- The settings of a program, one after the other, with all their calls of the kernel.
unfoldable pub set_all : List (IrqLine × Bool) → IrqController → Option (List Op × IrqController)
unfolding set_level
set_all [] c = some ([], c)
set_all ((line, level) ∷ rest) c = elim (set_level line level c) [
  | none ↦ none
  | some (ops, c') ↦ elim (set_all rest c') [
    | none ↦ none
    | some (more, c'') ↦ some (ops ++ more, c'')
  ]
]

-- The level that the settings leave on a line: that of the last one of it.
abbrev pub last_level : List (IrqLine × Bool) → ℕ → Bool → Bool
last_level [] index level = level
last_level ((line, new_level) ∷ rest) index level =
    last_level rest index (if line.index == index then new_level else level)

abbrev pub AllInTable : IrqController → List (IrqLine × Bool) → Type 0
AllInTable c [] = Unit {0}
AllInTable c ((line, level) ∷ rest) = InTable c line × AllInTable c rest

-- One setting of a line of the table.
record IsLevelSet (c : IrqController) (line : IrqLine) (level : Bool)
    (out : Option (List Op × IrqController)) : Type 0 where
  ops : List Op
  next : IrqController
  done : out ≡ some (ops, next)
  count : length next.levels ≡ length c.levels
  same_wake : next.wake ≡ c.wake
  reads :
      (j : ℕ)
      → get_elem? next.levels j ≡ (if line.index == j then some level else get_elem? c.levels j)
  calls : ((ops ≡ Op.notify line.changed ∷ Op.notify c.wake ∷ [])) ⊎ ((ops ≡ []) × (next ≡ c))

same_level-eq : (a b : Bool) → same_level a b ≡ true → a ≡ b
same_level-eq true true e = refl
same_level-eq true false e = cc
same_level-eq false true e = cc
same_level-eq false false e = refl

index-eq :
    {A : Type 0} (xs : List A) (i j : ℕ) (v : A)
    → get_elem? xs i ≡ some v
    → get_elem? xs j ≡ (if i == j then some v else get_elem? xs j)
index-eq xs i j v e = elim (Bool-cases (i == j)) [
  | inl same ↦ rw same (subst (λ k. get_elem? xs k ≡ some v) (==→eq i j same) e)
  | inr apart ↦ rw apart refl
]

set_level-IsLevelSet :
    (c : IrqController) (line : IrqLine) (level : Bool)
    → InTable c line
    → IsLevelSet c line level (set_level line level c)
unfolding set_level
set_level-IsLevelSet c line level lt =
    let (old, e) = get_elem?-some c.levels line.index lt in
    elim (Bool-cases (same_level old level)) [
      | inl same ↦
          rw (e, same, set_level)
            (record {
              ops = [];
              next = c;
              done = refl;
              count = refl;
              same_wake = refl;
              reads = λ j.
                  index-eq c.levels line.index j level (e ∙ ap some (same_level-eq old level same));
              calls = inr (refl, refl);
            })
      | inr differs ↦
          rw (e, differs, set_level)
            (record {
              ops = Op.notify line.changed ∷ Op.notify c.wake ∷ [];
              next = record c { levels = set c.levels line.index level };
              done = refl;
              count = length-set c.levels line.index level;
              same_wake = refl;
              reads = λ j. get_elem?-set c.levels line.index j level lt;
              calls = inl refl;
            })
    ]

-- What a run of settings leaves and calls, of the table `c` and a line `j` of it at level `a`.
pub record Run (c : IrqController) (settings : List (IrqLine × Bool)) (j : ℕ) (a : Bool)
    (out : Option (List Op × IrqController)) : Type 0 where
  pub ops : List Op
  pub final : IrqController
  pub done : out ≡ some (ops, final)
  pub count : length final.levels ≡ length c.levels
  pub level : get_elem? final.levels j ≡ some (last_level settings j a)
  pub woken : (last_level settings j a ≡ a) ⊎ Any (λ op. op ≡ Op.notify c.wake) ops

AllInTable-same :
    (c c' : IrqController) (settings : List (IrqLine × Bool))
    → length c'.levels ≡ length c.levels
    → AllInTable c settings
    → AllInTable c' settings
AllInTable-same c c' [] e h = tt
AllInTable-same c c' ((line, level) ∷ rest) e (p, h) = (omega arith, AllInTable-same c c' rest e h)

Any-append_left : (P : Op → Type 0) (xs ys : List Op) → Any P xs → Any P (xs ++ ys)
Any-append_left P [] ys h = absurd h
Any-append_left P (x ∷ xs) ys (inl p) = inl p
Any-append_left P (x ∷ xs) ys (inr h) = inr (Any-append_left P xs ys h)

Any-append_right : (P : Op → Type 0) (xs ys : List Op) → Any P ys → Any P (xs ++ ys)
Any-append_right P [] ys h = h
Any-append_right P (x ∷ xs) ys h = inr (Any-append_right P xs ys h)

-- A change wakes by its own calls or by later ones.
woken-append :
    (c : IrqController) (line : IrqLine) (level : Bool) (j : ℕ) (a : Bool)
    → get_elem? c.levels j ≡ some a
    → {out : Option (List Op × IrqController)} (one : IsLevelSet c line level out) (more : List Op)
      (last : Bool)
    → get_elem? one.next.levels j ≡ some (if line.index == j then level else a)
    → (last ≡ (if line.index == j then level else a)) ⊎ Any (λ op. op ≡ Op.notify c.wake) more
    → (last ≡ a) ⊎ Any (λ op. op ≡ Op.notify c.wake) (one.ops ++ more)
woken-append c line level j a e one more last now woken = elim one.calls [
  | inl called ↦ rw called (inr (inr (inl refl)))
  | inr (silent, same) ↦ elim woken [
    | inr later ↦ inr (Any-append_right (λ op. op ≡ Op.notify c.wake) one.ops more later)
    | inl kept ↦
        let here : get_elem? one.next.levels j ≡ some a = rw same e in
        inl (kept ∙ some-injective _ a (sym now ∙ here))
  ]
]

set_all-cons :
    (line : IrqLine) (level : Bool) (rest : List (IrqLine × Bool)) (c : IrqController)
    → {ops more : List Op} {c' c'' : IrqController} → set_level line level c ≡ some (ops, c')
    → set_all rest c' ≡ some (more, c'')
    → set_all ((line, level) ∷ rest) c ≡ some (ops ++ more, c'')
unfolding set_all
set_all-cons line level rest c e g = rw (e, g, set_all) refl

-- If every setting is of a line of the table, the run of them succeeds; each line is left at the level
-- of the last setting of it, or as it was if there is none; and unless that is the level it had, the
-- wake event has been notified, so that a hart which waits for a line to change is woken.
pub set_all-Run :
    (settings : List (IrqLine × Bool)) (c : IrqController) (j : ℕ) (a : Bool)
    → AllInTable c settings
    → get_elem? c.levels j ≡ some a
    → Run c settings j a (set_all settings c)
unfolding set_all
set_all-Run [] c j a h e = record {
  ops = [];
  final = c;
  done = refl;
  count = refl;
  level = e;
  woken = inl refl;
}
set_all-Run ((line, level) ∷ rest) c j a (lt, h) e =
    let one = set_level-IsLevelSet c line level lt in
    let now : get_elem? one.next.levels j ≡ some (if line.index == j then level else a) =
      one.reads j ∙ level_if line.index j level a e in
    let more =
      set_all-Run rest one.next j (if line.index == j then level else a)
        (AllInTable-same c one.next rest one.count h) now in
    record {
      ops = one.ops ++ more.ops;
      final = more.final;
      done = set_all-cons line level rest c one.done more.done;
      count = more.count ∙ one.count;
      level = more.level;
      woken = woken-append c line level j a e one more.ops _ now (
          subst
            (λ w.
              (last_level rest j (if line.index == j then level else a)
                ≡ (if line.index == j then level else a))
              ⊎ Any (λ op. op ≡ Op.notify w) more.ops)
            one.same_wake more.woken);
    }
  where
    level_if :
        (i j : ℕ) (level a : Bool)
        → get_elem? c.levels j ≡ some a
        → (if i == j then some level else get_elem? c.levels j) ≡ some (if i == j then level else a)
    level_if i j level a e = elim (Bool-cases (i == j)) [
      | inl same ↦ rw same refl
      | inr apart ↦ rw apart e
    ]
