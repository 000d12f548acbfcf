-- ===== src/Base/Arena.antt =====
-- A `slotmap` arena as the program uses it: entries are inserted and never removed, so a key is the
-- number of the insertion, and a key that was not handed out has no entry.
use Prim.Native.Nat.{ℕ, suc, ◌<◌, ◌≤◌}
use mathlib.Core.Path.{◌≡◌}
use mathlib.Core.Option.{Option, none, some}
use systemrs.Base.Tests.{◌==◌, if◌then◌else◌}

pub record Arena {ℓ} (A : Type ℓ) : Type ℓ where
  pub get : ℕ → Option A
  pub size : ℕ

module _ {ℓ} {A : Type ℓ} where
  abbrev pub empty : Arena A
  empty = record { get = λ _. none; size = 0 }

  -- `insert`: the new key is the old size.
  abbrev pub insert : Arena A → A → Arena A
  insert a v = record { get = λ k. if a.size == k then some v else a.get k; size = suc a.size }

  abbrev pub map_some : (A → A) → Option A → Option A
  map_some f none = none
  map_some f (some v) = some (f v)

  -- `arena[k] = f(arena[k])`
  abbrev pub modify : Arena A → ℕ → (A → A) → Arena A
  modify a k f = record a { get = λ j. if k == j then map_some f (a.get j) else a.get j }

  -- An arena whose entries are the keys below its size.
  abbrev pub Dense : Arena A → Type ℓ
  Dense a =
      ((k : ℕ) → k < a.size → (v : A) × (a.get k ≡ some v))
      × ((k : ℕ) → a.size ≤ k → a.get k ≡ none)
