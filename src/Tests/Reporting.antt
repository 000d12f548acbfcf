-- ===== src/Tests/Reporting.antt =====
-- The handler of crates/systemrs-diag/src on two reports.
use systemrs.Base.{[], ◌∷◌, List, none, ◌≡◌, refl}
use systemrs.Diag.{Severity, Verbosity, Report, Setting, none_flags, configure, new, emit_all}
use mathlib.Core.Bool.{decide}
use systemrs.Diag.Reports.{pick, last_or}
use systemrs.Diag.Configured.{does, emit_all-Picked}

abbrev warning : Report
warning = record { severity = Severity.warning; msg_type = 87 ∷ []; message = 1 ∷ [] }

abbrev failure : Report
failure = record { severity = Severity.error; msg_type = 69 ∷ []; message = 2 ∷ [] }

abbrev two_reports : List (Report × Verbosity)
two_reports = (warning, Verbosity.debug) ∷ (failure, Verbosity.low) ∷ []

-- Warnings of one type are silenced, and the ceiling is raised.
abbrev some_settings : List Setting
some_settings =
    Setting.type_setting (87 ∷ []) Severity.warning none_flags
    ∷ Setting.verbosity_setting Verbosity.full
    ∷ []

emit_all-Picked_example : emit_all (configure new some_settings) two_reports ≡ (
  record (configure new some_settings) {
    cached = last_or none (pick (does some_settings (λ f. f.cache_report)) two_reports);
  },
  pick (does some_settings (λ f. f.display)) two_reports,
  pick (does some_settings (λ f. f.throw)) two_reports,
  none,
)
unfolding decide
emit_all-Picked_example = emit_all-Picked some_settings two_reports (refl, (refl, tt))
