-- ===== src/Interconnect/Decode.antt =====
-- What the table of crates/systemrs-tlm-utils/src/interconnect.rs decodes.
use systemrs.Base.{
  ℕ, ◌-◌, List, [], ◌∷◌, true, some, ◌≡◌, refl, sym, ap, subst, ◌↔◌, inl, inr, if◌then◌else◌, leb,
  Bool-cases, Option-cases,
}
use mathlib.Core.Option.{some-injective}
use systemrs.Tlm.Payload.{GenericPayload, ResponseStatus}
use systemrs.Tlm.Memory.{respond}
use systemrs.Interconnect.{
  Region, Interconnect, decode, insert_by_base, sort_by_base, all_fit, no_overlap, connect,
  b_transport,
}
use systemrs.Interconnect.Table.{Mapped, Contains, decode-Mapped, Mapped-decode}

-- Sorting keeps the regions.
keep_first :
    (r x : Region) (xs ys : List Region)
    → (Mapped r xs → Mapped r ys)
    → Mapped r (x ∷ xs)
    → Mapped r (x ∷ ys)
keep_first r x xs ys f (inl e) = inl e
keep_first r x xs ys f (inr m) = inr (f m)

exchange : (r x y : Region) (ys : List Region) → Mapped r (x ∷ y ∷ ys) → Mapped r (y ∷ x ∷ ys)
exchange r x y ys (inl e) = inr (inl e)
exchange r x y ys (inr (inl e)) = inl e
exchange r x y ys (inr (inr m)) = inr (inr m)

swap_first :
    (r x y : Region) (ys : List Region)
    → Mapped r (insert_by_base x ys) ↔ Mapped r (x ∷ ys)
    → Mapped r (y ∷ insert_by_base x ys) ↔ Mapped r (x ∷ y ∷ ys)
swap_first r x y ys (to, from) = (
  λ m. exchange r y x ys (keep_first r y (insert_by_base x ys) (x ∷ ys) to m),
  λ m. keep_first r y (x ∷ ys) (insert_by_base x ys) from (exchange r x y ys m),
)

Mapped-insert_by_base :
    (r x : Region) (xs : List Region) → Mapped r (insert_by_base x xs) ↔ Mapped r (x ∷ xs)
Mapped-insert_by_base r x [] = ((λ m. m), (λ m. m))
Mapped-insert_by_base r x (y ∷ ys) = elim (Bool-cases (leb x.base y.base)) [
  | inl first ↦ rw (first) ((λ m. m), (λ m. m))
  | inr later ↦ rw (later) (swap_first r x y ys (Mapped-insert_by_base r x ys))
]

Mapped-sort_by_base : (r : Region) (xs : List Region) → Mapped r (sort_by_base xs) ↔ Mapped r xs
unfolding sort_by_base
Mapped-sort_by_base r [] = ((λ m. m), (λ m. m))
Mapped-sort_by_base r (x ∷ xs) =
    let (to, from) = Mapped-insert_by_base r x (sort_by_base xs) in
    let (to', from') = Mapped-sort_by_base r xs in
    (
      (λ m. keep_first r x (sort_by_base xs) xs to' (to m)),
      (λ m. from (keep_first r x xs (sort_by_base xs) from' m)),
    )

connect-table :
    (ic ic' : Interconnect) (table : List Region)
    → connect ic ≡ some (table, ic')
    → (sort_by_base ic.regions ≡ table) × (no_overlap table ≡ true)
unfolding connect
connect-table ic ic' table h = elim (Bool-cases ic.connected) [
  | inl again ↦ absurd (cc (rw (again) at h))
  | inr once ↦ elim (Bool-cases (all_fit (sort_by_base ic.regions))) [
    | inr wrong ↦ absurd (cc (rw (once, wrong) at h))
    | inl fit ↦ elim (Bool-cases (no_overlap (sort_by_base ic.regions))) [
      | inr overlap ↦ absurd (cc (rw (once, fit, overlap) at h))
      | inl apart ↦
          let e = ap (λ x. x.0) (some-injective _ _ (rw (once, fit, apart) at h)) in
          (e, subst (λ t. no_overlap t ≡ true) e apart)
    ]
  ]
]

-- Once the map is connected, an address decodes to a region if and only if the region was mapped and
-- contains the address, whatever the order in which the regions were mapped.
pub connect-decode :
    (ic ic' : Interconnect) (table : List Region) (addr : ℕ) (r : Region)
    → connect ic ≡ some (table, ic')
    → (decode table addr ≡ some r) ↔ (Mapped r ic.regions × Contains r addr)
connect-decode ic ic' table addr r h =
    let (e, apart) = connect-table ic ic' table h in
    let (to, from) = Mapped-sort_by_base r ic.regions in
    (
      λ found.
          let (m, c) = decode-Mapped table addr r found in (to (subst (Mapped r) (sym e) m), c),
      λ (m, c). Mapped-decode table addr r apart (subst (Mapped r) e (from m)) c,
    )

module _ {S : Type 0} (forward : ℕ → GenericPayload × S → GenericPayload × S) where
  -- What the router does with a transaction: it goes to the region that contains its address, at its
  -- offset in it if the region is relative, and is refused where no region does.
  abbrev pub routed : Region → GenericPayload × S → GenericPayload × S
  routed r (txn, s) =
      let address = if r.relative then txn.address - r.base else txn.address in
      let (txn', s') = forward r.sock (record txn { address = address }, s) in
      (record txn' { address = txn.address }, s')

  -- For a connected map and whatever the targets do, a transaction reaches the target of every mapped
  -- region that contains its address, at its offset there if the region is relative; one that no
  -- region contains is answered with an address error, and no target is called. The initiator always
  -- finds its own address in the payload again.
  pub b_transport-routed :
      (ic ic' : Interconnect) (table : List Region) (txn : GenericPayload) (s : S)
      → connect ic ≡ some (table, ic')
      → ((r : Region)
          → Mapped r ic.regions × Contains r txn.address
          → b_transport forward table (txn, s) ≡ routed r (txn, s))
        × (((r : Region) → Mapped r ic.regions × Contains r txn.address → ⊥)
            → b_transport forward table (txn, s) ≡ (respond ResponseStatus.address_error txn, s))
        × ((b_transport forward table (txn, s)).0.address ≡ txn.address)
  unfolding b_transport
  b_transport-routed ic ic' table txn s h =
      let spec = λ (r : Region). connect-decode ic ic' table txn.address r h in
      (
        λ r c. rw ((spec r).1 c, b_transport) refl,
        λ nowhere. elim (Option-cases (decode table txn.address)) [
          | inl missed ↦ rw (missed, b_transport) refl
          | inr (r, found) ↦ absurd (nowhere r ((spec r).0 found))
        ],
        elim (Option-cases (decode table txn.address)) [
          | inl missed ↦ rw (missed, b_transport) refl
          | inr (r, found) ↦ rw (found, b_transport) refl
        ],
      )
