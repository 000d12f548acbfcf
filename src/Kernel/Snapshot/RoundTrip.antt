-- ===== src/Kernel/Snapshot/RoundTrip.antt =====
-- What the application of a snapshot of crates/systemrs-kernel/src/snapshot.rs gives back.
use systemrs.Base.{
  ℕ, zero, suc, ◌<◌, List, [], ◌∷◌, ◌++◌, true, Option, none, some, ◌≡◌, refl, ap, fun_ext, ◌∙◌,
  length, length-append, if◌then◌else◌, ltb, ◌==◌, arith, inl, inr, ==→eq, Bool-cases, Option-cases,
}
use mathlib.Core.List.{append-nil}
use systemrs.Base.Arena.{Arena, Dense, modify}
use systemrs.Kernel.Snapshot.{collect, put_all}

module _ {ℓ κ} {A : Type ℓ} {B : Type κ} (id : B → ℕ) (put : B → A → A) where
  put_all-append :
      (xs ys : List B) (a a' : Arena A)
      → put_all id put xs a ≡ (true, a')
      → put_all id put (xs ++ ys) a ≡ put_all id put ys a'
  unfolding put_all
  put_all-append [] ys a a' h = ap (λ r. put_all id put ys r.1) h
  put_all-append (x ∷ xs) ys a a' h = elim (Option-cases (a.get (id x))) [
    | inl missing ↦ absurd (cc (h, missing))
    | inr (v, found) ↦
        rw (found) (put_all-append xs ys (modify a (id x) (put x)) a' (rw (found, put_all) at h))
  ]

  module _ (snap : ℕ → A → B) (id-snap : (k : ℕ) (v : A) → id (snap k v) ≡ k) where
    -- The entry that a snapshot's entry is put into gives back the one that it was taken from.
    abbrev pub MatchesAt : ℕ → Option A → Option A → Type ℓ
    MatchesAt k none o = o ≡ none
    MatchesAt k (some v) o = (w : A) × (o ≡ some w) × (put (snap k v) w ≡ v)

    unfoldable Restored : ℕ → (ℕ → Option A) → Arena A → Type ℓ
    Restored n src a =
        (g : ℕ → Option A) × (put_all id put (collect snap src n) a ≡ (true, record a { get = g }))
        × ((k : ℕ) → g k ≡ (if ltb k n then src k else a.get k))

    skip-Restored :
        (n : ℕ) (src : ℕ → Option A) (a : Arena A)
        → src n ≡ none
        → a.get n ≡ none
        → Restored n src a
        → Restored (suc n) src a
    unfolding Restored
    skip-Restored n src a here there (g, e, at) = (
      g,
      rw (here, append-nil (collect snap src n)) e,
      λ k. elim (Bool-cases (k == n)) [
        | inl same ↦ rw (==→eq k n same) (ground (arith, at n, here, there))
        | inr apart ↦ ground (arith, at k)
      ],
    )

    put-Restored :
        (n : ℕ) (src : ℕ → Option A) (a : Arena A) (v w : A)
        → src n ≡ some v
        → a.get n ≡ some w
        → put (snap n v) w ≡ v
        → Restored n src a
        → Restored (suc n) src a
    unfolding Restored put_all
    put-Restored n src a v w here there back (g, e, at) =
        let found : g n ≡ some w = ground (arith, at n, there) in
        let found_by_id : g (id (snap n v)) ≡ some w = rw (id-snap n v) found in
        (
          (modify (record a { get = g }) (id (snap n v)) (put (snap n v))).get,
          rw (here) (
              put_all-append (collect snap src n) (snap n v ∷ []) a (record a { get = g }) e
              ∙ (rw (found_by_id) refl)),
          λ k. rw (id-snap n v) (elim (Bool-cases (k == n)) [
            | inl same ↦ rw (==→eq k n same) (rw (found, back, here) (ground arith))
            | inr apart ↦ ground (arith, at k)
          ]),
        )

    put_all-Restored :
        (n : ℕ) (src : ℕ → Option A) (a : Arena A)
        → ((k : ℕ) → MatchesAt k (src k) (a.get k))
        → Restored n src a
    unfolding Restored put_all
    put_all-Restored zero src a h = (a.get, refl, (λ k. ground arith))
    put_all-Restored (suc n) src a h = elim (Option-cases (src n)) [
      | inl here ↦ skip-Restored n src a here (rw (here) at (h n)) (put_all-Restored n src a h)
      | inr (v, here) ↦
          let (w, there, back) = rw (here) at (h n) in
          put-Restored n src a v w here there back (put_all-Restored n src a h)
    ]

    pub length-collect :
        (n : ℕ) (src : ℕ → Option A)
        → ((k : ℕ) → k < n → (v : A) × (src k ≡ some v))
        → length (collect snap src n) ≡ n
    length-collect zero src h = refl
    length-collect (suc n) src h =
        let (v, here) = h n (omega arith) in
        rw (here) (
          omega (
            arith,
            length-append (collect snap src n) (snap n v ∷ []),
            length-collect n src (λ k lt. h k (omega (arith, lt))),
          ))

    -- What is collected of an arena gives it back, put into an arena that matches it.
    pub collected :
        (src a : Arena A)
        → Dense src
        → a.size ≡ src.size
        → ((k : ℕ) → MatchesAt k (src.get k) (a.get k))
        → put_all id put (collect snap src.get src.size) a ≡ (true, src)
    unfolding Restored
    collected src a (below, beyond) size h =
        let (g, e, at) = put_all-Restored src.size src.get a h in
        let same : (k : ℕ) → g k ≡ src.get k = λ k. elim (Bool-cases (ltb k src.size)) [
          | inl low ↦ ground (arith, at k, low)
          | inr high ↦
              let none_here : src.get k ≡ none = beyond k (ground arith) in
              let none_there : a.get k ≡ none = rw (none_here) at (h k) in
              ground (arith, at k, high, none_here, none_there)
        ] in
        let whole : g ≡ src.get = fun_ext same in
        e
        ∙ ap (λ f. (true, record a { get = f })) whole
        ∙ ap (λ n. (true, record src { size = n })) size
