-- ===== src/Base/Lists.antt =====
-- Lists measured and indexed by native numbers, under the library's names, with the `Vec` operations
-- that the program uses: `push`, `swap`, `pop` and the swap-remove idiom made of them.
use Prim.Native.Nat.{ℕ, zero, suc, ◌+◌, ◌-◌, ◌<◌, ◌≤◌}
use mathlib.Core.Path.{◌≡◌, refl, sym, ap, subst}
use mathlib.Core.Logic.{◌≢◌, ◌⊎◌, inl, inr}
use mathlib.Core.List.{List, [], ◌∷◌, ◌++◌, reverse, reverse-cons}
use mathlib.Core.Option.{Option, none, some, some-injective}
use native.Mathlib.Omega.{arith}
use systemrs.Base.Tests.{◌==◌, if◌then◌else◌}

module _ {ℓ} {A : Type ℓ} where
  abbrev pub length : List A → ℕ
  length [] = 0
  length (x ∷ xs) = suc (length xs)

  abbrev pub get_elem? : List A → ℕ → Option A
  get_elem? [] i = none
  get_elem? (x ∷ xs) zero = some x
  get_elem? (x ∷ xs) (suc i) = get_elem? xs i

  -- A write out of bounds changes nothing.
  abbrev pub set : List A → ℕ → A → List A
  set [] i v = []
  set (x ∷ xs) zero v = v ∷ xs
  set (x ∷ xs) (suc i) v = x ∷ set xs i v

  -- `Vec::pop` without its result.
  abbrev pub drop_last : List A → List A
  drop_last [] = []
  drop_last (x ∷ []) = []
  drop_last (x ∷ y ∷ ys) = x ∷ drop_last (y ∷ ys)

  abbrev put_elem : List A → ℕ → Option A → List A
  put_elem xs i none = xs
  put_elem xs i (some v) = set xs i v

  -- `Vec::swap`, at indices in bounds.
  abbrev pub swap : List A → ℕ → ℕ → List A
  swap xs i j = put_elem (put_elem xs i (get_elem? xs j)) j (get_elem? xs i)

  -- `let last = v.len() - 1; v.swap(i, last); v.pop();`
  abbrev pub swap_remove : List A → ℕ → List A
  swap_remove xs i = drop_last (swap xs i (length xs - 1))

  pub List-cases : (xs : List A) → (xs ≡ []) ⊎ ((x : A) × (ys : List A) × (xs ≡ x ∷ ys))
  List-cases [] = inl refl
  List-cases (x ∷ xs) = inr (x, xs, refl)

  pub length-append : (xs ys : List A) → length (xs ++ ys) ≡ length xs + length ys
  length-append [] ys = omega arith
  length-append (x ∷ xs) ys = omega (arith, length-append xs ys)

  pub length-set : (xs : List A) (i : ℕ) (v : A) → length (set xs i v) ≡ length xs
  length-set [] i v = refl
  length-set (x ∷ xs) zero v = refl
  length-set (x ∷ xs) (suc i) v = ap suc (length-set xs i v)

  pub get_elem?-set :
      (xs : List A) (i j : ℕ) (v : A)
      → i < length xs
      → get_elem? (set xs i v) j ≡ (if i == j then some v else get_elem? xs j)
  get_elem?-set [] i j v h = absurd (omega arith)
  get_elem?-set (x ∷ xs) zero zero v h = refl
  get_elem?-set (x ∷ xs) zero (suc j) v h = ground arith
  get_elem?-set (x ∷ xs) (suc i) zero v h = ground arith
  get_elem?-set (x ∷ xs) (suc i) (suc j) v h = ground (arith, get_elem?-set xs i j v)

  -- An index past the end reads nothing, and one below it reads something.
  pub get_elem?_none : (xs : List A) (i : ℕ) → length xs ≤ i → get_elem? xs i ≡ none
  get_elem?_none [] i h = refl
  get_elem?_none (x ∷ xs) zero h = absurd (omega arith)
  get_elem?_none (x ∷ xs) (suc i) h = get_elem?_none xs i (omega arith)

  pub get_elem?-some : (xs : List A) (i : ℕ) → i < length xs → (v : A) × (get_elem? xs i ≡ some v)
  get_elem?-some [] i h = absurd (omega arith)
  get_elem?-some (x ∷ xs) zero h = (x, refl)
  get_elem?-some (x ∷ xs) (suc i) h = get_elem?-some xs i (omega arith)

  pub get_elem?-lt : (xs : List A) (i : ℕ) {v : A} → get_elem? xs i ≡ some v → i < length xs
  get_elem?-lt [] i h = absurd (ground arith)
  get_elem?-lt (x ∷ xs) zero h = omega arith
  get_elem?-lt (x ∷ xs) (suc i) h = omega (arith, get_elem?-lt xs i h)

  pub get_elem?-push :
      (xs : List A) (v : A) (j : ℕ)
      → get_elem? (xs ++ v ∷ []) j ≡ (if length xs == j then some v else get_elem? xs j)
  get_elem?-push [] v zero = refl
  get_elem?-push [] v (suc j) = ground arith
  get_elem?-push (x ∷ xs) v zero = ground arith
  get_elem?-push (x ∷ xs) v (suc j) = ground (arith, get_elem?-push xs v j)

  get_elem?-drop_last :
      (xs : List A) (j : ℕ)
      → get_elem? (drop_last xs) j ≡ (if suc j == length xs then none else get_elem? xs j)
  get_elem?-drop_last [] j = ground arith
  get_elem?-drop_last (x ∷ []) zero = refl
  get_elem?-drop_last (x ∷ []) (suc j) = ground arith
  get_elem?-drop_last (x ∷ y ∷ ys) zero = ground arith
  get_elem?-drop_last (x ∷ y ∷ ys) (suc j) = ground (arith, get_elem?-drop_last (y ∷ ys) j)

  length-drop_last : (xs : List A) → length (drop_last xs) ≡ length xs - 1
  length-drop_last [] = refl
  length-drop_last (x ∷ []) = omega arith
  length-drop_last (x ∷ y ∷ ys) = omega (arith, length-drop_last (y ∷ ys))

  pub length-swap_remove :
      (xs : List A) (i : ℕ) → i < length xs → length (swap_remove xs i) ≡ length xs - 1
  length-swap_remove xs i h =
      let (x, ex) = get_elem?-some xs i h in
      let (y, ey) = get_elem?-some xs (length xs - 1) (omega arith) in
      rw (ex, ey)
        (omega (
          arith,
          length-drop_last (set (set xs i y) (length xs - 1) x),
          length-set (set xs i y) (length xs - 1) x,
          length-set xs i y,
        ))

module _ {A : Type 0} where
  get_elem?-swapped :
      (xs : List A) (i j : ℕ) (x y : A)
      → i < length xs
      → get_elem? xs (length xs - 1) ≡ some y
      → get_elem? (drop_last (set (set xs i y) (length xs - 1) x)) j
        ≡ (if suc j == length xs then none else if i == j then some y else get_elem? xs j)
  get_elem?-swapped xs i j x y h e = ground (
    arith,
    get_elem?-drop_last (set (set xs i y) (length xs - 1) x) j,
    length-set (set xs i y) (length xs - 1) x,
    length-set xs i y,
    get_elem?-set (set xs i y) (length xs - 1) j x,
    get_elem?-set xs i j y,
    get_elem?_none xs j,
  )

  -- The swap-remove idiom: the last element moves into the freed slot, and no other moves.
  pub get_elem?-swap_remove :
      (xs : List A) (i j : ℕ)
      → i < length xs
      → get_elem? (swap_remove xs i) j ≡ (
          if suc j == length xs
          then none
          else if i == j
          then get_elem? xs (length xs - 1)
          else get_elem? xs j)
  get_elem?-swap_remove xs i j h =
      let (x, ex) = get_elem?-some xs i h in
      let (y, ey) = get_elem?-some xs (length xs - 1) (omega arith) in
      rw (ex, ey) (get_elem?-swapped xs i j x y h ey)

-- A predicate at each element, and elements that differ from one another.
abbrev pub All {ℓ} : {A : Type ℓ} → (A → Type 0) → List A → Type 0
All P [] = Unit {0}
All P (x ∷ xs) = P x × All P xs

pub All-join {ℓ} :
    {A : Type ℓ} (P : A → Type 0) (xs ys : List A) → All P xs → All P ys → All P (xs ++ ys)
All-join P [] ys h g = g
All-join P (x ∷ xs) ys (p, h) g = (p, All-join P xs ys h g)

-- A predicate that follows from another, element by element.
pub All-weaken {ℓ} :
    {A : Type ℓ} (P Q : A → Type 0) → ((x : A) → P x → Q x) → (xs : List A) → All P xs → All Q xs
All-weaken P Q f [] h = tt
All-weaken P Q f (x ∷ xs) (p, h) = (f x p, All-weaken P Q f xs h)

abbrev pub Any {ℓ} : {A : Type ℓ} → (A → Type 0) → List A → Type 0
Any P [] = ⊥
Any P (x ∷ xs) = P x ⊎ Any P xs

abbrev pub Absent : ℕ → List ℕ → Type 0
Absent x xs = All (λ y. x ≢ y) xs

abbrev pub Distinct : List ℕ → Type 0
Distinct [] = Unit {0}
Distinct (x ∷ xs) = Absent x xs × Distinct xs

module _ {ℓ} {A : Type ℓ} (P : A → Type 0) where
  pub All-append : (xs ys : List A) → All P (xs ++ ys) → All P xs × All P ys
  All-append [] ys h = (tt, h)
  All-append (x ∷ xs) ys (p, h) = let (a, b) = All-append xs ys h in ((p, a), b)

Absent-cons :
    (x : ℕ) (xs ys : List ℕ)
    → Absent x ys
    → All (λ y. Absent y xs) ys
    → All (λ y. Absent y (x ∷ xs)) ys
Absent-cons x xs [] a h = tt
Absent-cons x xs (y ∷ ys) (n, a) (p, h) = (((λ e. n (sym e)), p), Absent-cons x xs ys a h)

Absent-nil : (ys : List ℕ) → All (λ y. Absent y []) ys
Absent-nil [] = tt
Absent-nil (y ∷ ys) = (tt, Absent-nil ys)

-- The parts of a list without repetition have none, and do not meet.
pub Distinct-append :
    (xs ys : List ℕ) → Distinct (xs ++ ys) → Distinct xs × Distinct ys × All (λ y. Absent y xs) ys
Distinct-append [] ys d = (tt, d, Absent-nil ys)
Distinct-append (x ∷ xs) ys (a, d) =
    let (d₁, d₂, apart) = Distinct-append xs ys d in
    let (a₁, a₂) = All-append (λ y. x ≢ y) xs ys a in ((a₁, d₁), d₂, Absent-cons x xs ys a₂ apart)

module _ {ℓ} {A : Type ℓ} (P : A → Type 0) where
  All-snoc : (xs : List A) (y : A) → All P xs → P y → All P (xs ++ y ∷ [])
  All-snoc [] y h p = (p, tt)
  All-snoc (x ∷ xs) y (q, h) p = (q, All-snoc xs y h p)

  pub All-reverse : (xs : List A) → All P xs → All P (reverse xs)
  All-reverse [] h = tt
  All-reverse (x ∷ xs) (p, h) =
      rw (reverse-cons x xs) (All-snoc (reverse xs) x (All-reverse xs h) p)

  pub All-get_elem? : (xs : List A) (i : ℕ) {v : A} → All P xs → get_elem? xs i ≡ some v → P v
  All-get_elem? [] i h e = absurd (cc)
  All-get_elem? (x ∷ xs) zero (p, h) e = subst P (some-injective x _ e) p
  All-get_elem? (x ∷ xs) (suc i) (p, h) e = All-get_elem? xs i h e

module _ {ℓ} {A : Type ℓ} {P Q : A → Type 0} (f : (a : A) → P a → Q a) where
  pub All-map : (xs : List A) → All P xs → All Q xs
  All-map [] h = tt
  All-map (x ∷ xs) (p, h) = (f x p, All-map xs h)
