-- ===== src/Twin/Journal.antt =====
-- The journal of crates/systemrs-twin/src/journal.rs, its text, and the polls of its recorder. A
-- poll takes the values that have arrived and answers with the calls that the injector makes.
pub mod Roundtrip
use systemrs.Base.{
  ℕ, List, [], ◌∷◌, ◌++◌, Bool, true, false, Option, none, some, ◌==◌, if◌then◌else◌, is_cons,
}
use systemrs.Time.{SimTime}
use systemrs.Kernel.Ctx.{Op}
use systemrs.Twin.Text.{decimal, parse_u64, lines, split_whitespace, is_blank, strip_prefix}

infixl 5 ◌>>=◌
abbrev ◌>>=◌ {ℓ κ} : {A : Type ℓ} {B : Type κ} → Option A → (A → Option B) → Option B
none >>= f = none
some a >>= f = f a

pub data InjectionKind : Type 0 where
  delta timed : InjectionKind

unfoldable pub tag : InjectionKind → List ℕ
tag InjectionKind.delta = 68 ∷ []
tag InjectionKind.timed = 84 ∷ []

pub record InjectionRecord : Type 0 where
  pub at : SimTime
  pub delta : ℕ
  pub kind : InjectionKind
  pub value : ℕ

pub record Journal : Type 0 where
  pub seed : ℕ
  pub records : List InjectionRecord

abbrev pub new : ℕ → Journal
new seed = record { seed = seed; records = [] }

-- `"seed "`
abbrev pub seed_prefix : List ℕ
seed_prefix = 115 ∷ 101 ∷ 101 ∷ 100 ∷ 32 ∷ []

unfoldable pub serialize_record : InjectionRecord → List ℕ
serialize_record r =
    decimal r.at ++ 32 ∷ (decimal r.delta ++ 32 ∷ (tag r.kind ++ 32 ∷ decimal r.value))

unfoldable pub serialize_records : List InjectionRecord → List ℕ
serialize_records [] = []
serialize_records (r ∷ rs) = serialize_record r ++ 10 ∷ serialize_records rs

unfoldable pub serialize : Journal → List ℕ
serialize j = (seed_prefix ++ decimal j.seed) ++ 10 ∷ serialize_records j.records

unfoldable pub parse_kind : List ℕ → Option InjectionKind
parse_kind (c ∷ []) =
    if c == 68 then some InjectionKind.delta else if c == 84 then some InjectionKind.timed else none
parse_kind _ = none

-- The words past the fourth are not read.
unfoldable pub parse_fields : List (List ℕ) → Option InjectionRecord
unfolding parse_kind
parse_fields (a ∷ d ∷ k ∷ v ∷ _) = do
  at ← parse_u64 a
  count ← parse_u64 d
  kind ← parse_kind k
  value ← parse_u64 v
  some (record { at = at; delta = count; kind = kind; value = value })
parse_fields _ = none

unfoldable pub parse_records : List (List ℕ) → Option (List InjectionRecord)
unfolding parse_fields
parse_records [] = some []
parse_records (line ∷ rest) =
    let records = parse_records rest in
    if is_blank line
    then records
    else do r ← parse_fields (split_whitespace line); rs ← records; some (r ∷ rs)

unfoldable pub parse_lines : List (List ℕ) → Option Journal
unfolding parse_records
parse_lines [] = none
parse_lines (first ∷ rest) = do
  number ← strip_prefix seed_prefix first
  seed ← parse_u64 number
  records ← parse_records rest
  some (record { seed = seed; records = records })

unfoldable pub parse : List ℕ → Option Journal
unfolding parse_lines
parse text = parse_lines (lines text)

-- `JournalRecorder::poll`, at a time and a delta count.
unfoldable pub record_poll :
    (ℕ → List Op) → SimTime → ℕ → List ℕ → Journal → Bool × List Op × Journal
record_poll injector now n [] j = (false, [], j)
record_poll injector now n (value ∷ inbox) j =
    let r : InjectionRecord = record {
      at = now;
      delta = n;
      kind = InjectionKind.delta;
      value = value;
    } in
    let (_, ops, j2) =
      record_poll injector now n inbox (record j { records = j.records ++ r ∷ [] }) in
    (true, injector value ++ ops, j2)
