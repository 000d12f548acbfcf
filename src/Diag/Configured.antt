-- ===== src/Diag/Configured.antt =====
-- What a configured handler of crates/systemrs-diag/src/handler.rs does with reports, told from the calls
-- that configured it.
use systemrs.Base.{
  ℕ, List, Bool, true, false, Option, none, some, if◌then◌else◌, ◌≡◌, refl, ap, ◌∙◌, sym, fun_ext,
  ◌&&◌, ◌*◌, ltb, leb, subst, All, arith,
}
use systemrs.Diag.{
  Severity, Report, ReportHandler, Verbosity, ActionFlags, Setting, Calls, configure, new, emit_all,
  passes, resolve, level, or_else, default_for,
}
use mathlib.Core.Option.{some-injective}
use systemrs.Diag.Settings.{
  later, last_for_type, last_for_severity, last_verbosity, type_actions-configure,
  severity_actions-configure, verbosity-configure, cached-configure, later-none,
}
use systemrs.Diag.Reports.{pick, last_or, has_action, Harmless, emit_all-picked}

-- The table of the defaults: an error is not displayed, only an error is thrown, only what is fatal
-- aborts, everything but information is kept, and nothing stops the simulation.
abbrev pub golden : Severity → ActionFlags
golden Severity.info = record {
  display = true;
  log = true;
  cache_report = false;
  throw = false;
  abort = false;
  stop = false;
}
golden Severity.warning = record {
  display = true;
  log = true;
  cache_report = true;
  throw = false;
  abort = false;
  stop = false;
}
golden Severity.error = record {
  display = false;
  log = true;
  cache_report = true;
  throw = true;
  abort = false;
  stop = false;
}
golden Severity.fatal = record {
  display = true;
  log = true;
  cache_report = true;
  throw = false;
  abort = true;
  stop = false;
}

-- The actions set for the type and the severity come before those of the severity, and these before
-- the default.
abbrev pub chosen : Option ActionFlags → Option ActionFlags → Severity → ActionFlags
chosen (some a) _ s = a
chosen none (some a) s = a
chosen none none s = golden s

-- The place of a verbosity in the ladder.
abbrev pub rung : Verbosity → ℕ
rung Verbosity.silent = 0
rung Verbosity.low = 1
rung Verbosity.medium = 2
rung Verbosity.high = 3
rung Verbosity.full = 4
rung Verbosity.debug = 5

-- Only information is held back, when it is more verbose than the ceiling, which is medium unless set.
abbrev pub admitted : Option Verbosity → Severity → Verbosity → Bool
admitted none Severity.info v = leb (rung v) 2
admitted (some ceiling) Severity.info v = leb (rung v) (rung ceiling)
admitted _ Severity.warning v = true
admitted _ Severity.error v = true
admitted _ Severity.fatal v = true

-- A report that is admitted and whose chosen actions have a flag.
abbrev pub does : List Setting → (ActionFlags → Bool) → Report × Verbosity → Bool
does settings flag (r, v) =
    admitted (last_verbosity settings) r.severity v
    && flag (
        chosen (last_for_type r.msg_type r.severity settings)
          (last_for_severity r.severity settings) r.severity)

chosen-or_else :
    (a b : Option ActionFlags) (s : Severity) → or_else a (or_else b (default_for s)) ≡ chosen a b s
unfolding default_for
chosen-or_else (some a) b s = refl
chosen-or_else none (some b) s = refl
chosen-or_else none none Severity.info = refl
chosen-or_else none none Severity.warning = refl
chosen-or_else none none Severity.error = refl
chosen-or_else none none Severity.fatal = refl

level-rung : (v : Verbosity) → level v ≡ 100 * rung v
unfolding level
level-rung Verbosity.silent = refl
level-rung Verbosity.low = refl
level-rung Verbosity.medium = refl
level-rung Verbosity.high = refl
level-rung Verbosity.full = refl
level-rung Verbosity.debug = refl

-- The gate of `emit` at a ceiling.
within :
    (ceiling v : Verbosity)
    → (if ltb (level ceiling) (level v) then false else true) ≡ leb (rung v) (rung ceiling)
within ceiling v = rw (level-rung ceiling, level-rung v) (ground arith)

passes-admitted :
    (h : ReportHandler) (o : Option Verbosity) (r : Report) (s : Severity) (v : Verbosity)
    → some h.verbosity ≡ later o (some Verbosity.medium)
    → r.severity ≡ s
    → passes h r v ≡ admitted o s v
passes-admitted h none r Severity.info v e q =
    rw (q, some-injective h.verbosity Verbosity.medium e) (within Verbosity.medium v)
passes-admitted h (some ceiling) r Severity.info v e q =
    rw (q, some-injective h.verbosity ceiling e) (within ceiling v)
passes-admitted h none r Severity.warning v e q = rw q refl
passes-admitted h none r Severity.error v e q = rw q refl
passes-admitted h none r Severity.fatal v e q = rw q refl
passes-admitted h (some ceiling) r Severity.warning v e q = rw q refl
passes-admitted h (some ceiling) r Severity.error v e q = rw q refl
passes-admitted h (some ceiling) r Severity.fatal v e q = rw q refl

resolve-chosen :
    (settings : List Setting) (t : List ℕ) (s : Severity)
    → resolve (configure new settings) t s
      ≡ chosen (last_for_type t s settings) (last_for_severity s settings) s
unfolding resolve
resolve-chosen settings t s =
    rw
      (
        type_actions-configure settings new t s,
        severity_actions-configure settings new s,
        later-none (last_for_type t s settings),
        later-none (last_for_severity s settings),
      )
      (chosen-or_else (last_for_type t s settings) (last_for_severity s settings) s)

has_action-does :
    (settings : List Setting) (flag : ActionFlags → Bool) (x : Report × Verbosity)
    → has_action (configure new settings) flag x ≡ does settings flag x
has_action-does settings flag (r, v) =
    ap (λ b. b && flag (resolve (configure new settings) r.msg_type r.severity))
      (passes-admitted (configure new settings) (last_verbosity settings) r r.severity v
        (verbosity-configure settings new) refl)
    ∙ ap (λ a. admitted (last_verbosity settings) r.severity v && flag a)
        (resolve-chosen settings r.msg_type r.severity)

-- What the calls leave, by a test for each flag.
abbrev outcome :
    ReportHandler
    → List (Report × Verbosity)
    → ((ActionFlags → Bool) → Report × Verbosity → Bool)
    → Option Report
    → Calls
outcome h rs test c = (
  record h { cached = last_or c (pick (test (λ f. f.cache_report)) rs) },
  pick (test (λ f. f.display)) rs,
  pick (test (λ f. f.throw)) rs,
  none,
)

-- A new handler is configured by a sequence of settings, and then takes a sequence of reports of which
-- none aborts. It prints, returns as errors and keeps exactly the reports that are admitted and
-- whose actions say so, in their order, and of those that it keeps it has the last; and its
-- settings stay. The actions are the last that were set for the type and the severity, or else the
-- last that were set for the severity, or else those of the table of defaults. Only information is
-- held back, when it is more verbose than the verbosity that was set last, or medium.
pub emit_all-Picked :
    (settings : List Setting) (rs : List (Report × Verbosity))
    → All (λ x. does settings (λ f. f.abort) x ≡ false) rs
    → emit_all (configure new settings) rs ≡ (
      record (configure new settings) {
        cached = last_or none (pick (does settings (λ f. f.cache_report)) rs);
      },
      pick (does settings (λ f. f.display)) rs,
      pick (does settings (λ f. f.throw)) rs,
      none,
    )
emit_all-Picked settings rs harmless =
    let h = configure new settings in
    let same : has_action h ≡ does settings =
      fun_ext (λ flag. fun_ext (has_action-does settings flag)) in
    let harmless_there : Harmless h rs =
      subst
        (λ (test : (ActionFlags → Bool) → Report × Verbosity → Bool).
          All (λ x. test (λ f. f.abort) x ≡ false) rs)
        (sym same) harmless in
    emit_all-picked h rs harmless_there
    ∙ ap (λ test. outcome h rs test h.cached) same
    ∙ ap (outcome h rs (does settings)) (cached-configure settings new)
