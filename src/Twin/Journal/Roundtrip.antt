-- ===== src/Twin/Journal/Roundtrip.antt =====
-- The text of a journal of crates/systemrs-twin/src/journal.rs, read again.
use systemrs.Base.{
  ℕ, ◌≤◌, List, [], ◌∷◌, ◌++◌, false, some, ◌≡◌, refl, arith, ap, ◌∙◌, All, All-join, All-weaken,
  u64_max,
}
use systemrs.Twin.Text.{
  decimal, is_blank, split_whitespace, lines_from, lines, emit, is_whitespace, strip_prefix,
}
use systemrs.Twin.Text.Decimal.{IsDigit, parse_u64-decimal, decimal-cons}
use systemrs.Twin.Text.Words.{IsDigit-IsInk, IsInk, IsPlain, lines_from-line, split_whitespace-four}
use systemrs.Twin.Journal.{
  Journal, InjectionKind, InjectionRecord, serialize_record, serialize_records, serialize,
  parse_fields, parse_records, parse, tag, seed_prefix, parse_kind, parse_lines,
}

-- The numbers of a record are 64-bit words.
abbrev pub IsWords : InjectionRecord → Type 0
IsWords r = (r.at ≤ u64_max) × (r.delta ≤ u64_max) × (r.value ≤ u64_max)

parse_kind-tag : (k : InjectionKind) → parse_kind (tag k) ≡ some k
unfolding parse_kind tag
parse_kind-tag InjectionKind.delta = refl
parse_kind-tag InjectionKind.timed = refl

parse_fields-printed :
    (r : InjectionRecord)
    → IsWords r
    → parse_fields (decimal r.at ∷ decimal r.delta ∷ tag r.kind ∷ decimal r.value ∷ []) ≡ some r
unfolding parse_fields
parse_fields-printed r (at, delta, value) = rw (parse_u64-decimal r.at at) (
    rw (parse_u64-decimal r.delta delta)
      (rw (parse_kind-tag r.kind) (rw (parse_u64-decimal r.value value) refl)))

decimal-IsInk : (n : ℕ) → All IsInk (decimal n)
decimal-IsInk n =
    let (c, cs, e, digits, d) = decimal-cons n in
    All-weaken IsDigit IsInk IsDigit-IsInk (decimal n) digits

decimal-IsPlain : (n : ℕ) → All IsPlain (decimal n)
decimal-IsPlain n =
    let (c, cs, e, digits, d) = decimal-cons n in
    All-weaken IsDigit IsPlain (λ x (low, high). omega (arith, low)) (decimal n) digits

tag-IsInk : (k : InjectionKind) → All IsInk (tag k)
unfolding tag is_whitespace
tag-IsInk InjectionKind.delta = (refl, tt)
tag-IsInk InjectionKind.timed = (refl, tt)

tag-IsPlain : (k : InjectionKind) → All IsPlain (tag k)
unfolding tag
tag-IsPlain InjectionKind.delta = (omega arith, tt)
tag-IsPlain InjectionKind.timed = (omega arith, tt)

space-IsPlain : (xs ys : List ℕ) → All IsPlain xs → All IsPlain ys → All IsPlain (xs ++ 32 ∷ ys)
space-IsPlain xs ys h g = All-join IsPlain xs (32 ∷ ys) h (omega arith, g)

serialize_record-IsPlain : (r : InjectionRecord) → All IsPlain (serialize_record r)
unfolding serialize_record
serialize_record-IsPlain r = space-IsPlain _ _ (decimal-IsPlain r.at) (
    space-IsPlain _ _ (decimal-IsPlain r.delta)
      (space-IsPlain _ _ (tag-IsPlain r.kind) (decimal-IsPlain r.value)))

emit_cons :
    (xs : List ℕ) (c : ℕ) (cs : List ℕ) (ws : List (List ℕ)) → xs ≡ c ∷ cs → emit xs ws ≡ xs ∷ ws
emit_cons xs c cs ws e = rw e refl

emit-decimal : (n : ℕ) (ws : List (List ℕ)) → emit (decimal n) ws ≡ decimal n ∷ ws
emit-decimal n ws = let (c, cs, e, digits, d) = decimal-cons n in emit_cons (decimal n) c cs ws e

emit-tag : (k : InjectionKind) (ws : List (List ℕ)) → emit (tag k) ws ≡ tag k ∷ ws
unfolding tag
emit-tag InjectionKind.delta ws = refl
emit-tag InjectionKind.timed ws = refl

split_whitespace-record :
    (r : InjectionRecord)
    → split_whitespace (serialize_record r)
      ≡ decimal r.at ∷ decimal r.delta ∷ tag r.kind ∷ decimal r.value ∷ []
unfolding serialize_record
split_whitespace-record r =
    split_whitespace-four (decimal r.at) (decimal r.delta) (tag r.kind) (decimal r.value)
      (decimal-IsInk r.at, decimal-IsInk r.delta, tag-IsInk r.kind, decimal-IsInk r.value)
    ∙ emit-decimal r.at _
    ∙ ap (λ t. decimal r.at ∷ t)
        (emit-decimal r.delta _
          ∙ ap (λ t. decimal r.delta ∷ t)
              (emit-tag r.kind _ ∙ ap (λ t. tag r.kind ∷ t) (emit-decimal r.value [])))

is_blank-ink :
    (xs : List ℕ) (c : ℕ) (cs ys : List ℕ) → xs ≡ c ∷ cs → IsInk c → is_blank (xs ++ ys) ≡ false
unfolding is_blank
is_blank-ink xs c cs ys e h = rw e (rw h refl)

is_blank-record : (r : InjectionRecord) → is_blank (serialize_record r) ≡ false
unfolding serialize_record
is_blank-record r =
    let (c, cs, e, digits, d) = decimal-cons r.at in
    is_blank-ink (decimal r.at) c cs _ e (IsDigit-IsInk c d)

parse_records-printed :
    (rs : List InjectionRecord)
    → All IsWords rs
    → parse_records (lines_from [] (serialize_records rs)) ≡ some rs
unfolding parse_records serialize_records lines_from
parse_records-printed [] h = refl
parse_records-printed (r ∷ rs) (w, h) =
    ap parse_records
      (lines_from-line (serialize_record r) (serialize_records rs) (serialize_record-IsPlain r))
    ∙ rw (is_blank-record r) (
        rw (split_whitespace-record r)
          (rw (parse_fields-printed r w) (rw (parse_records-printed rs h) refl)))

strip_prefix-seed : (xs : List ℕ) → strip_prefix seed_prefix (seed_prefix ++ xs) ≡ some xs
unfolding strip_prefix
strip_prefix-seed xs = refl

-- A journal whose numbers are 64-bit words is read back from its text.
pub parse-serialize :
    (j : Journal) → j.seed ≤ u64_max → All IsWords j.records → parse (serialize j) ≡ some j
unfolding parse serialize parse_lines lines
parse-serialize j h w =
    ap parse_lines (
      lines_from-line (seed_prefix ++ decimal j.seed) (serialize_records j.records)
        (All-join IsPlain seed_prefix (decimal j.seed) (omega arith) (decimal-IsPlain j.seed)))
    ∙ rw (strip_prefix-seed (decimal j.seed))
        (rw (parse_u64-decimal j.seed h) (rw (parse_records-printed j.records w) refl))
