-- ===== src/Channels/Binding/Ends.antt =====
-- The recursion of `complete` of crates/systemrs-channels/src/binding.rs ends, cycles included.
use systemrs.Base.{
  ℕ, zero, suc, ◌+◌, ◌≤◌, ◌<◌, List, [], ◌∷◌, Bool, true, false, Option, none, some, if◌then◌else◌,
  ◌==◌, ◌≡◌, refl, subst, arith, ap, ◌∙◌, sym, Bool-cases, inl, inr, length, ==→eq, ==_refl,
}
use systemrs.Channels.Binding.{
  BindElem, PortPolicy, BindState, PortMeta, PortRegistry, Completed, insert, set_bind_of, finish,
  start, complete_state, complete_meta, complete, check, ids_of,
}
use systemrs.Channels.Binding.Completion.{
  Ensures, Ensures-weaken, resolve_elems-Ensures, Again, complete-Again,
}

-- An endpoint that is not resolved.
abbrev pub is_pending : Option PortMeta → Bool
is_pending none = false
is_pending (some m) = elim m.bind [ BindState.bound _ ↦ false | _ ↦ true ]

abbrev pub pending_count : PortRegistry → List ℕ → ℕ
pending_count reg [] = 0
pending_count reg (id ∷ ids) = (if is_pending (reg.metas id) then 1 else 0) + pending_count reg ids

abbrev pub is_elem : ℕ → List ℕ → Bool
is_elem j [] = false
is_elem j (id ∷ ids) = if j == id then true else is_elem j ids

-- No endpoint becomes pending.
abbrev pub Resolves : PortRegistry → PortRegistry → Type 0
Resolves reg reg2 = (j : ℕ) → is_pending (reg2.metas j) ≡ true → is_pending (reg.metas j) ≡ true

bit_le : (a b : Bool) → (b ≡ true → a ≡ true) → (if b then 1 else 0) ≤ (if a then 1 else 0)
bit_le true true h = omega arith
bit_le true false h = omega arith
bit_le false true h = absurd (cc (h refl))
bit_le false false h = omega arith

pending_count-Resolves :
    (reg reg2 : PortRegistry) (ids : List ℕ)
    → Resolves reg reg2
    → pending_count reg2 ids ≤ pending_count reg ids
pending_count-Resolves reg reg2 [] h = omega arith
pending_count-Resolves reg reg2 (id ∷ ids) h = omega (
  arith,
  bit_le (is_pending (reg.metas id)) (is_pending (reg2.metas id)) (h id),
  pending_count-Resolves reg reg2 ids h,
)

-- An endpoint of the list that is resolved makes the count smaller.
pending_count-less :
    (reg reg2 : PortRegistry) (ids : List ℕ) (id : ℕ)
    → Resolves reg reg2
    → is_elem id ids ≡ true
    → is_pending (reg.metas id) ≡ true
    → is_pending (reg2.metas id) ≡ false
    → pending_count reg2 ids < pending_count reg ids
pending_count-less reg reg2 [] id h e p q = absurd (cc e)
pending_count-less reg reg2 (i ∷ ids) id h e p q = elim (Bool-cases (id == i)) [
  | inl same ↦ here (==→eq id i same)
  | inr other ↦ omega (
    arith,
    bit_le (is_pending (reg.metas i)) (is_pending (reg2.metas i)) (h i),
    pending_count-less reg reg2 ids id h (there other) p q,
  )
]
  where
    there : (id == i) ≡ false → is_elem id ids ≡ true
    there other = subst (λ b. (if b then true else is_elem id ids) ≡ true) other e

    here : id ≡ i → pending_count reg2 (i ∷ ids) < pending_count reg (i ∷ ids)
    here same =
        let before : is_pending (reg.metas i) ≡ true =
          ap (λ t. is_pending (reg.metas t)) (sym same) ∙ p in
        let after : is_pending (reg2.metas i) ≡ false =
          ap (λ t. is_pending (reg2.metas t)) (sym same) ∙ q in
        rw before (rw after (omega (arith, pending_count-Resolves reg reg2 ids h)))

is_pending-if :
    (b : Bool) (m n : Option PortMeta)
    → is_pending (if b then m else n) ≡ (if b then is_pending m else is_pending n)
is_pending-if true m n = refl
is_pending-if false m n = refl

-- Every registry with a resolved endpoint more.
insert-Resolves :
    (reg reg2 : PortRegistry) (id : ℕ) (m : PortMeta)
    → is_pending (some m) ≡ false
    → Resolves reg reg2
    → Resolves reg (insert reg2 id m)
insert-Resolves reg reg2 id m q h j e =
    let branch = sym (is_pending-if (j == id) (some m) (reg2.metas j)) ∙ e in
    elim (Bool-cases (j == id)) [
      | inl same ↦ absurd (
          cc (
            q,
            subst (λ b. (if b then is_pending (some m) else is_pending (reg2.metas j)) ≡ true) same
                branch,
          ))
      | inr other ↦ h j (
          subst (λ b. (if b then is_pending (some m) else is_pending (reg2.metas j)) ≡ true) other
            branch)
    ]

set_bind_of-Resolves :
    (reg reg2 : PortRegistry) (id : ℕ) (ids : List ℕ) (m : Option PortMeta)
    → Resolves reg reg2
    → Resolves reg (set_bind_of reg2 id (BindState.bound ids) m)
set_bind_of-Resolves reg reg2 id ids none h = h
set_bind_of-Resolves reg reg2 id ids (some m) h =
    insert-Resolves reg reg2 id (record m { bind = BindState.bound ids }) refl h

finish-Resolves :
    (reg : PortRegistry) (id : ℕ) (policy : PortPolicy) (c : Completed)
    → Ensures ⊥ (Resolves reg) c
    → Ensures ⊥ (Resolves reg) (finish id policy c)
unfolding finish
finish-Resolves reg id policy (Completed.resolves ids r) h =
    elim (Bool-cases (check policy (length ids))) [
      | inl ok ↦ rw ok (set_bind_of-Resolves reg r id ids (r.metas id) h)
      | inr bad ↦ rw bad h
    ]
finish-Resolves reg id policy (Completed.violates r) h = h
finish-Resolves reg id policy Completed.out_of_fuel h = h

-- Every pending endpoint is in the list.
abbrev pub Covers : List ℕ → PortRegistry → Type 0
Covers ids reg = (j : ℕ) → is_pending (reg.metas j) ≡ true → is_elem j ids ≡ true

placeholder : PortRegistry → ℕ → PortMeta → PortRegistry
placeholder reg id m = insert reg id (record m { bind = BindState.bound [] })

placeholder-less :
    (ids : List ℕ) (reg : PortRegistry) (id : ℕ) (m : PortMeta)
    → Covers ids reg
    → is_pending (reg.metas id) ≡ true
    → Resolves reg (placeholder reg id m)
      × (pending_count (placeholder reg id m) ids < pending_count reg ids)
unfolding placeholder
placeholder-less ids reg id m cover p =
    let h = insert-Resolves reg reg id (record m { bind = BindState.bound [] }) refl (λ j e. e) in
    (
      h,
      pending_count-less reg (placeholder reg id m) ids id h (cover id p) p (
          is_pending-if (id == id) (some (record m { bind = BindState.bound [] })) (reg.metas id)
          ∙ rw (==_refl id) refl),
    )

-- A completion whose parents are completed with less fuel.
module _ (ids : List ℕ) (f : ℕ) (rec : PortRegistry → ℕ → Completed)
    (h : (r : PortRegistry) (i : ℕ)
      → Covers ids r
      → pending_count r ids < f
      → Ensures ⊥ (Resolves r) (rec r i)) where
  start-Ends :
      (reg : PortRegistry) (id : ℕ) (m : PortMeta) (elems : List BindElem)
      → Covers ids reg
      → pending_count reg ids < suc f
      → is_pending (reg.metas id) ≡ true
      → Ensures ⊥ (Resolves reg) (start rec reg id m elems)
  unfolding placeholder
  start-Ends reg id m elems cover enough p =
      let (down, less) = placeholder-less ids reg id m cover p in
      let parents : (r : PortRegistry) (i : ℕ)
          → Resolves (placeholder reg id m) r
          → Ensures ⊥ (Resolves (placeholder reg id m)) (rec r i) =
        λ r i k.
          Ensures-weaken ⊥ (Resolves r) (Resolves (placeholder reg id m))
            (λ r2 k2 j e. k j (k2 j e)) (rec r i)
            (h r i (λ j e. cover j (down j (k j e)))
              (omega
                (arith, less, enough, pending_count-Resolves (placeholder reg id m) r ids k))) in
      finish-Resolves reg id m.policy _ (
        Ensures-weaken ⊥ (Resolves (placeholder reg id m)) (Resolves reg)
          (λ r k j e. down j (k j e)) _
          (resolve_elems-Ensures ⊥ (Resolves (placeholder reg id m)) rec parents elems
            (placeholder reg id m) (λ j e. e)))

  complete_state-Ends :
      (reg : PortRegistry) (id : ℕ) (m : PortMeta) (b : BindState)
      → Covers ids reg
      → pending_count reg ids < suc f
      → (elim b [ BindState.bound _ ↦ false | _ ↦ true ]) ≡ is_pending (reg.metas id)
      → Ensures ⊥ (Resolves reg) (complete_state rec reg id m b)
  complete_state-Ends reg id m (BindState.bound xs) cover enough e = λ j k. k
  complete_state-Ends reg id m (BindState.recorded elems) cover enough e =
      start-Ends reg id m elems cover enough (sym e)
  complete_state-Ends reg id m BindState.unbound cover enough e =
      start-Ends reg id m [] cover enough (sym e)

  complete_meta-Ends :
      (reg : PortRegistry) (id : ℕ) (m : Option PortMeta)
      → Covers ids reg
      → pending_count reg ids < suc f
      → reg.metas id ≡ m
      → Ensures ⊥ (Resolves reg) (complete_meta rec reg id m)
  complete_meta-Ends reg id none cover enough e = λ j k. k
  complete_meta-Ends reg id (some m) cover enough e =
      complete_state-Ends reg id m m.bind cover enough (ap is_pending (sym e))

-- A completion ends, in any registry, with cycles or without: it takes no more fuel than one for each
-- pending endpoint and one. It makes no endpoint pending that was not.
pub complete-Ends :
    (ids : List ℕ) (f : ℕ) (reg : PortRegistry) (id : ℕ)
    → Covers ids reg
    → pending_count reg ids < f
    → Ensures ⊥ (Resolves reg) (complete f reg id)
unfolding complete
complete-Ends ids zero reg id cover enough = absurd (omega arith)
complete-Ends ids (suc f) reg id cover enough =
    complete_meta-Ends ids f (complete f) (λ r i c e. complete-Ends ids f r i c e) reg id
      (reg.metas id) cover enough refl

-- A completion ends, in any registry, with cycles or without, when the fuel is one more than the number
-- of the pending endpoints, and makes no endpoint pending that was not. If the endpoint was pending,
-- its result is a number of ids that its policy allows, which every other completion of it returns
-- and which are its resolved ids; or an error, after which it has no resolved ids and every other
-- completion succeeds with none, whatever its policy is.
pub complete-Settles :
    (ids : List ℕ) (f g : ℕ) (reg : PortRegistry) (id : ℕ) (m : PortMeta)
    → Covers ids reg
    → pending_count reg ids < f
    → reg.metas id ≡ some m
    → ids_of m.bind ≡ none
    → Ensures ⊥ (Resolves reg) (complete f reg id) × Again g m.policy id (complete f reg id)
complete-Settles ids f g reg id m cover enough e free =
    (complete-Ends ids f reg id cover enough, complete-Again f g reg id m e free)
