-- ===== src/Diag/Reports.antt =====
-- Sequences of reports to the handler of crates/systemrs-diag/src/handler.rs.
use systemrs.Base.{
  List, [], ◌∷◌, Bool, true, false, Option, none, some, if◌then◌else◌, ◌≡◌, refl, ap, ◌∙◌, ◌&&◌,
  All,
}
use systemrs.Diag.{
  Report, ReportHandler, Verbosity, ActionFlags, Emitted, Calls, then_calls, emit, emit_all,
  resolve, passes,
}

-- The reports of a list that a test picks.
abbrev pub pick : (Report × Verbosity → Bool) → List (Report × Verbosity) → List Report
pick test [] = []
pick test ((r, v) ∷ rest) = if test (r, v) then r ∷ pick test rest else pick test rest

abbrev pub last_or : Option Report → List Report → Option Report
last_or c [] = c
last_or c (r ∷ rest) = last_or (some r) rest

-- The reports that pass and whose actions, as the handler resolves them, have a flag.
abbrev pub has_action : ReportHandler → (ActionFlags → Bool) → Report × Verbosity → Bool
has_action h flag (r, v) = passes h r v && flag (resolve h r.msg_type r.severity)

abbrev Call : Type 0
Call = ReportHandler × List Report × Emitted

abbrev branches : (p c d a t : Bool) (h : ReportHandler) (r : Report) → Call
branches p c d a t h r =
    if p
    then (
      if c then record h { cached = some r } else h,
      if d then r ∷ [] else [],
      if a then Emitted.aborted r else if t then Emitted.thrown r else Emitted.quiet,
    )
    else (h, [], Emitted.quiet)

abbrev parts : (p c d a t : Bool) (h : ReportHandler) (r : Report) → Call
parts p c d a t h r = (
  record h { cached = if p && c then some r else h.cached },
  if p && d then r ∷ [] else [],
  if p && a then Emitted.aborted r else if p && t then Emitted.thrown r else Emitted.quiet,
)

-- The parts of what a call does, one by one.
branches-parts :
    (p c d a t : Bool) (h : ReportHandler) (r : Report)
    → branches p c d a t h r ≡ parts p c d a t h r
branches-parts true true d a t h r = refl
branches-parts true false d a t h r = refl
branches-parts false c d a t h r = refl

-- Reports none of which aborts.
abbrev pub Harmless : ReportHandler → List (Report × Verbosity) → Type 0
Harmless h rs = All (λ x. has_action h (λ f. f.abort) x ≡ false) rs

-- A call before others, by what it does.
assemble :
    (b d t : Bool) (h h2 : ReportHandler) (r : Report) (xs ys zs : List Report)
    → then_calls
        (if d then r ∷ [] else [])
        (if t then Emitted.thrown r else Emitted.quiet)
        (record h { cached = last_or (if b then some r else h.cached) xs }, ys, zs, none)
        h2
      ≡ (
        record h { cached = last_or h.cached (if b then r ∷ xs else xs) },
        if d then r ∷ ys else ys,
        if t then r ∷ zs else zs,
        none,
      )
assemble true true true h h2 r xs ys zs = refl
assemble true true false h h2 r xs ys zs = refl
assemble true false true h h2 r xs ys zs = refl
assemble true false false h h2 r xs ys zs = refl
assemble false true true h h2 r xs ys zs = refl
assemble false true false h h2 r xs ys zs = refl
assemble false false true h h2 r xs ys zs = refl
assemble false false false h h2 r xs ys zs = refl

-- The calls that follow a call.
next : List (Report × Verbosity) → Call → Calls
unfolding emit_all
next rs (h2, shown, e) = then_calls shown e (emit_all h2 rs) h2

pub emit_all-picked :
    (h : ReportHandler) (rs : List (Report × Verbosity))
    → Harmless h rs
    → emit_all h rs ≡ (
      record h { cached = last_or h.cached (pick (has_action h (λ f. f.cache_report)) rs) },
      pick (has_action h (λ f. f.display)) rs,
      pick (has_action h (λ f. f.throw)) rs,
      none,
    )
unfolding emit_all emit resolve next
emit_all-picked h [] n = refl
emit_all-picked h ((r, v) ∷ rs) (q, n) =
    let actions = resolve h r.msg_type r.severity in
    let p = passes h r v in
    let h2 : ReportHandler = record h {
      cached = if p && actions.cache_report then some r else h.cached;
    } in
    ap (next rs)
      (branches-parts p actions.cache_report actions.display actions.abort actions.throw h r)
    ∙ rw q (
        rw (emit_all-picked h2 rs n) (
          assemble (p && actions.cache_report) (p && actions.display) (p && actions.throw) h h2 r _
            _ _))
