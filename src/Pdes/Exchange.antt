-- ===== src/Pdes/Exchange.antt =====
-- The exchange of crates/systemrs-pdes/src/orchestrator.rs and the order in which regions are drained.
use systemrs.Base.{
  Any, List, [], ◌∷◌, true, false, ◌≡◌, refl, sym, ap, ◌∙◌, inl, inr, if◌then◌else◌, Bool-cases,
  arith,
}
use mathlib.Core.List.{Permᴰ}
use mathlib.Core.List.Permᴰ
use systemrs.Pdes.{BoundaryMessage, key_le, insert_by_key, sort_by_key}

module _ {A : Type 0} where
  abbrev pub SameKey : BoundaryMessage A → BoundaryMessage A → Type 0
  SameKey a b =
      (a.deliver_at ≡ b.deliver_at)
      × (a.dst_region ≡ b.dst_region)
      × (a.dst_link ≡ b.dst_link)
      × (a.src_seq ≡ b.src_seq)

  key_le-total : (a b : BoundaryMessage A) → key_le a b ≡ false → key_le b a ≡ true
  unfolding key_le
  key_le-total a b h = ground (arith, h)

  key_le_trans :
      (a b c : BoundaryMessage A) → key_le a b ≡ true → key_le b c ≡ true → key_le a c ≡ true
  unfolding key_le
  key_le_trans a b c h k = ground (arith, h, k)

  key_le_antisymm : (a b : BoundaryMessage A) → key_le a b ≡ true → key_le b a ≡ true → SameKey a b
  unfolding key_le
  key_le_antisymm a b h k =
      (ground (arith, h, k), ground (arith, h, k), ground (arith, h, k), ground (arith, h, k))

  -- Messages of the same key are the same one.
  Identified : BoundaryMessage A → BoundaryMessage A → Type 0
  Identified a b = SameKey a b → a ≡ b

  two_orders :
      (a b : BoundaryMessage A) (xs : List (BoundaryMessage A))
      → Identified a b
      → (if key_le a b then a ∷ b ∷ xs else b ∷ a ∷ xs)
        ≡ (if key_le b a then b ∷ a ∷ xs else a ∷ b ∷ xs)
  unfolding Identified
  two_orders a b xs same = elim (Bool-cases (key_le a b)) [
    | inl ab ↦ elim (Bool-cases (key_le b a)) [
      | inl ba ↦ let e = same (key_le_antisymm a b ab ba) in rw (ab, ba) (cc (e))
      | inr not_ba ↦ rw (ab, not_ba) refl
    ]
    | inr not_ab ↦ rw (not_ab, key_le-total a b not_ab) refl
  ]

  blocked :
      (a b y : BoundaryMessage A) → key_le b y ≡ true → key_le a y ≡ false → key_le a b ≡ false
  blocked a b y by not_ay = elim (Bool-cases (key_le a b)) [
    | inl ab ↦ absurd (cc (key_le_trans a b y ab by, not_ay))
    | inr not_ab ↦ not_ab
  ]

  insert_by_key_comm :
      (a b : BoundaryMessage A) (xs : List (BoundaryMessage A))
      → Identified a b
      → insert_by_key a (insert_by_key b xs) ≡ insert_by_key b (insert_by_key a xs)
  unfolding Identified
  insert_by_key_comm a b [] same = two_orders a b [] same
  insert_by_key_comm a b (y ∷ ys) same = elim (Bool-cases (key_le b y)) [
    | inl by ↦ elim (Bool-cases (key_le a y)) [
      | inl ay ↦ rw (by, ay) (rw (by) (two_orders a b (y ∷ ys) same))
      | inr ya ↦ let ab : key_le a b ≡ false = blocked a b y by ya in rw (by, ya) (rw (ab, by) refl)
    ]
    | inr yb ↦ elim (Bool-cases (key_le a y)) [
      | inl ay ↦ let ba : key_le b a ≡ false = blocked b a y ay yb in rw (yb, ay) (rw (ba, yb) refl)
      | inr ya ↦ rw (yb, ya) (rw (yb) (ap (λ zs. y ∷ zs) (insert_by_key_comm a b ys same)))
    ]
  ]

  abbrev pub Within : BoundaryMessage A → List (BoundaryMessage A) → Type 0
  Within m ms = Any (λ x. x ≡ m) ms

  Within-Permᴰ :
      (m : BoundaryMessage A) {xs ys : List (BoundaryMessage A)}
      → Permᴰ xs ys
      → Within m xs
      → Within m ys
  Within-Permᴰ m Permᴰ.nil w = w
  Within-Permᴰ m (Permᴰ.cons e p) (inl x) = inl (sym e ∙ x)
  Within-Permᴰ m (Permᴰ.cons e p) (inr w) = inr (Within-Permᴰ m p w)
  Within-Permᴰ m (Permᴰ.swap e₁ e₂) (inl x) = inr (inl (sym e₁ ∙ x))
  Within-Permᴰ m (Permᴰ.swap e₁ e₂) (inr (inl x)) = inl (sym e₂ ∙ x)
  Within-Permᴰ m (Permᴰ.swap e₁ e₂) (inr (inr w)) = inr (inr w)
  Within-Permᴰ m (Permᴰ.trans p q) w = Within-Permᴰ m q (Within-Permᴰ m p w)

  -- The messages of an exchange: no two different ones have the same key.
  abbrev pub DistinctKeys : List (BoundaryMessage A) → Type 0
  DistinctKeys ms = (a b : BoundaryMessage A) → Within a ms → Within b ms → SameKey a b → a ≡ b

  -- The exchange does not depend on the order in which the regions are drained: whatever the order of
  -- the drained messages, they are routed in the same order, as long as no two of them have the same
  -- key.
  pub sort_by_key-Permᴰ :
      (xs ys : List (BoundaryMessage A))
      → Permᴰ xs ys
      → DistinctKeys xs
      → sort_by_key xs ≡ sort_by_key ys
  unfolding sort_by_key Identified
  sort_by_key-Permᴰ _ _ Permᴰ.nil d = refl
  sort_by_key-Permᴰ _ _ (Permᴰ.cons {a = a} {b = b} {l₁ = xs} {l₂ = ys} e p) d =
      cc (e, sort_by_key-Permᴰ xs ys p (λ u v mu mv. d u v (inr mu) (inr mv)))
  sort_by_key-Permᴰ _ _ (Permᴰ.swap {a = a} {b = b} {l = l} e₁ e₂) d =
      cc (e₁, e₂, insert_by_key_comm a b (sort_by_key l) (d a b (inl refl) (inr (inl refl))))
  sort_by_key-Permᴰ _ _ (Permᴰ.trans {l₁ = xs} {l₂ = ys} {l₃ = zs} p q) d =
      sort_by_key-Permᴰ xs ys p d
      ∙ sort_by_key-Permᴰ ys zs q
          (λ u v mu mv. d u v (Within-Permᴰ u (Permᴰ.symm p) mu) (Within-Permᴰ v (Permᴰ.symm p) mv))
