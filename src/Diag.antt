-- ===== src/Diag.antt =====
-- crates/systemrs-diag/src: reports, the actions that they resolve to, and the handler that applies them.
-- A text is the list of its code points.
pub mod Reports
pub mod Settings
pub mod Configured
use systemrs.Base.{
  ℕ, List, [], ◌∷◌, ◌++◌, Bool, true, false, Option, none, some, if◌then◌else◌, ◌==◌, ◌&&◌, ltb,
}

pub data Severity : Type 0 where
  info warning error fatal : Severity

abbrev pub is_info : Severity → Bool
is_info Severity.info = true
is_info _ = false

abbrev pub severity_rank : Severity → ℕ
severity_rank Severity.info = 0
severity_rank Severity.warning = 1
severity_rank Severity.error = 2
severity_rank Severity.fatal = 3

pub record ActionFlags : Type 0 where
  pub display : Bool
  pub log : Bool
  pub cache_report : Bool
  pub throw : Bool
  pub abort : Bool
  pub stop : Bool

abbrev pub none_flags : ActionFlags
none_flags = record {
  display = false;
  log = false;
  cache_report = false;
  throw = false;
  abort = false;
  stop = false;
}

unfoldable pub default_for : Severity → ActionFlags
default_for Severity.info = record none_flags { display = true; log = true }
default_for Severity.warning = record none_flags { display = true; log = true; cache_report = true }
default_for Severity.error = record none_flags { log = true; cache_report = true; throw = true }
default_for Severity.fatal = record none_flags {
  display = true;
  log = true;
  cache_report = true;
  abort = true;
}

pub data Verbosity : Type 0 where
  silent low medium high full debug : Verbosity

unfoldable pub level : Verbosity → ℕ
level Verbosity.silent = 0
level Verbosity.low = 100
level Verbosity.medium = 200
level Verbosity.high = 300
level Verbosity.full = 400
level Verbosity.debug = 500

pub record Report : Type 0 where
  pub severity : Severity
  pub msg_type : List ℕ
  pub message : List ℕ

pub record ReportHandler : Type 0 where
  pub severity_actions : Severity → Option ActionFlags
  pub type_severity_actions : List ℕ → Severity → Option ActionFlags
  pub verbosity : Verbosity
  pub cached : Option Report

abbrev pub new : ReportHandler
new = record {
  severity_actions = λ _. none;
  type_severity_actions = λ _ _. none;
  verbosity = Verbosity.medium;
  cached = none;
}

abbrev pub same_severity : Severity → Severity → Bool
same_severity a b = severity_rank a == severity_rank b

abbrev pub same_text : List ℕ → List ℕ → Bool
same_text [] [] = true
same_text (a ∷ xs) (b ∷ ys) = (a == b) && same_text xs ys
same_text _ _ = false

unfoldable pub set_severity_actions : ReportHandler → Severity → ActionFlags → ReportHandler
set_severity_actions h severity actions = record h {
  severity_actions = λ s. if same_severity s severity then some actions else h.severity_actions s;
}

unfoldable pub set_type_severity_actions :
    ReportHandler → List ℕ → Severity → ActionFlags → ReportHandler
set_type_severity_actions h msg_type severity actions = record h {
  type_severity_actions = λ t s.
      if same_text t msg_type && same_severity s severity
      then some actions
      else h.type_severity_actions t s;
}

abbrev pub set_verbosity : ReportHandler → Verbosity → ReportHandler
set_verbosity h verbosity = record h { verbosity = verbosity }

-- A call that configures a handler.
pub data Setting : Type 0 where
  severity_setting : Severity → ActionFlags → Setting
  type_setting : List ℕ → Severity → ActionFlags → Setting
  verbosity_setting : Verbosity → Setting

abbrev pub set : ReportHandler → Setting → ReportHandler
unfolding set_severity_actions set_type_severity_actions
set h (severity_setting severity actions) = set_severity_actions h severity actions
set h (type_setting msg_type severity actions) =
    set_type_severity_actions h msg_type severity actions
set h (verbosity_setting verbosity) = set_verbosity h verbosity

-- Calls that configure a handler, one after the other.
unfoldable pub configure : ReportHandler → List Setting → ReportHandler
configure h [] = h
configure h (x ∷ settings) = configure (set h x) settings

abbrev pub or_else : Option ActionFlags → ActionFlags → ActionFlags
or_else none b = b
or_else (some a) b = a

unfoldable pub resolve : ReportHandler → List ℕ → Severity → ActionFlags
unfolding default_for
resolve h msg_type severity =
    or_else (h.type_severity_actions msg_type severity)
      (or_else (h.severity_actions severity) (default_for severity))

-- What a call of `emit` does besides the change of the handler.
pub data Emitted : Type 0 where
  quiet : Emitted
  thrown aborted : Report → Emitted

-- Whether the verbosity lets a report through.
abbrev pub passes : ReportHandler → Report → Verbosity → Bool
passes h r v = if is_info r.severity && ltb (level h.verbosity) (level v) then false else true

-- `ReportHandler::emit`: the handler, the reports that are printed, and how the call ends.
unfoldable pub emit : ReportHandler → Report → Verbosity → ReportHandler × List Report × Emitted
unfolding resolve level
emit h r v =
    let actions = resolve h r.msg_type r.severity in
    if passes h r v
    then (
      if actions.cache_report then record h { cached = some r } else h,
      if actions.display then r ∷ [] else [],
      if actions.abort then aborted r else if actions.throw then thrown r else quiet,
    )
    else (h, [], quiet)

-- Calls of `emit` one after the other, up to the first that aborts: the handler, what is printed, the
-- errors that are returned, and the report that aborts.
abbrev pub Calls : Type 0
Calls = ReportHandler × List Report × List Report × Option Report

abbrev pub errors_of : Emitted → List Report
errors_of (thrown r) = r ∷ []
errors_of _ = []

abbrev pub then_calls : List Report → Emitted → Calls → ReportHandler → Calls
then_calls shown (aborted r) rest h = (h, shown, [], some r)
then_calls shown e (h2, more, errors, end) h = (h2, shown ++ more, errors_of e ++ errors, end)

unfoldable pub emit_all : ReportHandler → List (Report × Verbosity) → Calls
unfolding emit
emit_all h [] = (h, [], [], none)
emit_all h ((r, v) ∷ rest) =
    let (h2, shown, e) = emit h r v in then_calls shown e (emit_all h2 rest) h2
