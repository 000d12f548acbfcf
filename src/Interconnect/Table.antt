-- ===== src/Interconnect/Table.antt =====
-- The table of crates/systemrs-tlm-utils/src/interconnect.rs, whose regions do not overlap and are in
-- the order of their bases.
use systemrs.Base.{
  ℕ, suc, ◌+◌, ◌-◌, ◌≤◌, ◌<◌, List, [], ◌∷◌, true, false, none, some, ◌≡◌, refl, sym, ap, subst,
  inl, inr, get_elem?, if◌then◌else◌, ltb, leb, ◌==◌, arith, All, Any, Bool-cases, ==→eq, All-map,
}
use mathlib.Core.Option.{some-injective}
use systemrs.Interconnect.{Region, partition_point, hit, decode, no_overlap}

-- The region is one of the list.
abbrev pub Mapped : Region → List Region → Type 0
Mapped r regions = Any (λ x. x ≡ r) regions

abbrev pub Contains : Region → ℕ → Type 0
Contains r addr = (r.base ≤ addr) × (addr < r.base + r.size)

decode-cons :
    (r : Region) (rest : List Region) (addr : ℕ)
    → decode (r ∷ rest) addr ≡ (
        if leb r.base addr
        then if partition_point addr rest == 0 then hit addr (some r) else decode rest addr
        else none)
unfolding decode
decode-cons r rest addr =
    let n = partition_point addr rest in
    let back : suc n - 1 ≡ n = omega arith in
    let not_zero : (suc n == 0) ≡ false = ground arith in
    elim (Bool-cases (leb r.base addr)) [
      | inr high ↦ rw (high) refl
      | inl low ↦ elim (Bool-cases (n == 0)) [
        | inl last ↦ rw (low, not_zero, back, last, ==→eq n 0 last) refl
        | inr more ↦
            let e : n ≡ suc (n - 1) = ground arith in
            let next : get_elem? (r ∷ rest) n ≡ get_elem? rest (n - 1) =
              ap (get_elem? (r ∷ rest)) e in
            rw (low, not_zero, back, more, next) refl
      ]
    ]

hit-Contains :
    (r r' : Region) (addr : ℕ)
    → leb r.base addr ≡ true
    → hit addr (some r) ≡ some r'
    → (r ≡ r') × Contains r addr
hit-Contains r r' addr low h = elim (Bool-cases (ltb (addr - r.base) r.size)) [
  | inl inside ↦ (some-injective r r' (rw (inside) at h), (ground arith, ground arith))
  | inr outside ↦ absurd (cc (rw (outside) at h))
]

decode-nil : (addr : ℕ) → decode [] addr ≡ none
unfolding decode
decode-nil addr = ground arith

-- What is decoded is a region of the table that contains the address.
pub decode-Mapped :
    (regions : List Region) (addr : ℕ) (r : Region)
    → decode regions addr ≡ some r
    → Mapped r regions × Contains r addr
decode-Mapped [] addr r h = absurd (cc (h, decode-nil addr))
decode-Mapped (x ∷ rest) addr r h =
    let h' = rw (decode-cons x rest addr) at h in
    elim (Bool-cases (leb x.base addr)) [
      | inr high ↦ absurd (cc (rw (high) at h'))
      | inl low ↦ elim (Bool-cases (partition_point addr rest == 0)) [
        | inl last ↦
            let (e, c) = hit-Contains x r addr low (rw (low, last) at h') in
            (inl e, subst (λ y. Contains y addr) e c)
        | inr more ↦ let (m, c) = decode-Mapped rest addr r (rw (low, more) at h') in (inr m, c)
      ]
    ]

-- In a table without overlaps the regions behind the first one start where it ends, or later.
no_overlap-After :
    (a : Region) (rest : List Region)
    → no_overlap (a ∷ rest) ≡ true
    → All (λ x. a.base + a.size ≤ x.base) rest
no_overlap-After a [] h = tt
no_overlap-After a (b ∷ rest) h =
    let ab : leb (a.base + a.size) b.base ≡ true = ground (arith, h) in
    let below : no_overlap (b ∷ rest) ≡ true = ground (arith, h) in
    (
      ground (arith, ab),
      All-map (λ x le. ground (arith, ab, le)) rest (no_overlap-After b rest below),
    )

no_overlap-tail :
    (a : Region) (rest : List Region) → no_overlap (a ∷ rest) ≡ true → no_overlap rest ≡ true
no_overlap-tail a [] h = refl
no_overlap-tail a (b ∷ rest) h = ground (arith, h)

-- Past the last region that starts at an address or before, none does.
partition_point-zero :
    (regions : List Region) (addr : ℕ)
    → All (λ x. addr < x.base) regions
    → (partition_point addr regions == 0) ≡ true
partition_point-zero [] addr h = ground arith
partition_point-zero (x ∷ rest) addr (lt, h) =
    let high : leb x.base addr ≡ false = ground (arith, lt) in rw (high) (ground arith)

All-Any :
    (P : Region → Type 0) (r : Region) (regions : List Region)
    → All P regions
    → Mapped r regions
    → P r
All-Any P r [] h m = absurd m
All-Any P r (x ∷ rest) (p, h) (inl e) = subst P e p
All-Any P r (x ∷ rest) (p, h) (inr m) = All-Any P r rest h m

first-le :
    (x r : Region) (rest : List Region)
    → no_overlap (x ∷ rest) ≡ true
    → Mapped r (x ∷ rest)
    → x.base ≤ r.base
first-le x r rest h (inl e) = omega (arith, ap (λ y. y.base) e)
first-le x r rest h (inr m) =
    omega (arith, All-Any (λ y. x.base + x.size ≤ y.base) r rest (no_overlap-After x rest h) m)

partition_point-positive :
    (regions : List Region) (addr : ℕ) (r : Region)
    → no_overlap regions ≡ true
    → Mapped r regions
    → r.base ≤ addr
    → (partition_point addr regions == 0) ≡ false
partition_point-positive [] addr r h m le = absurd m
partition_point-positive (x ∷ rest) addr r h m le =
    let low : leb x.base addr ≡ true = ground (arith, first-le x r rest h m, le) in
    rw (low) (ground arith)

-- A region of the table that contains the address is what is decoded.
pub Mapped-decode :
    (regions : List Region) (addr : ℕ) (r : Region)
    → no_overlap regions ≡ true
    → Mapped r regions
    → Contains r addr
    → decode regions addr ≡ some r
Mapped-decode [] addr r h m c = absurd m
Mapped-decode (x ∷ rest) addr r h (inl e) (le, lt) =
    let le' : x.base ≤ addr = omega (arith, ap (λ y. y.base) e) in
    let lt' : addr < x.base + x.size = subst (λ y. addr < y.base + y.size) (sym e) lt in
    let low : leb x.base addr ≡ true = ground arith in
    let inside : ltb (addr - x.base) x.size ≡ true = ground arith in
    let last =
      partition_point-zero rest addr
        (All-map (λ y after. omega (arith, after, lt')) rest (no_overlap-After x rest h)) in
    rw (decode-cons x rest addr, low, last, inside) (ap some e)
Mapped-decode (x ∷ rest) addr r h (inr m) (le, lt) =
    let low : leb x.base addr ≡ true = ground (arith, first-le x r rest h (inr m), le) in
    let tail = no_overlap-tail x rest h in
    rw (decode-cons x rest addr, low, partition_point-positive rest addr r tail m le)
      (Mapped-decode rest addr r tail m (le, lt))
