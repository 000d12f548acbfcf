-- ===== src/Diag/Settings.antt =====
-- The configuration of a handler of crates/systemrs-diag/src/handler.rs: of every setting, the last one counts.
use systemrs.Base.{
  ℕ, List, [], ◌∷◌, Bool, true, false, Option, none, some, if◌then◌else◌, ◌≡◌, ◌≢◌, refl, ◌∙◌, ap,
  subst, ◌==◌, ==→eq, ==_refl, Bool-cases, inl, inr, ◌&&◌,
}
use mathlib.Core.Bool.{decide}
use systemrs.Diag.{
  Severity, ReportHandler, Verbosity, ActionFlags, Setting, configure, set, same_text,
  same_severity, set_severity_actions, set_type_severity_actions,
}

same_text_refl : (xs : List ℕ) → same_text xs xs ≡ true
same_text_refl [] = refl
same_text_refl (x ∷ xs) = rw (==_refl x) (same_text_refl xs)

pub same_text-Equal : (xs ys : List ℕ) → same_text xs ys ≡ true → xs ≡ ys
same_text-Equal [] [] h = refl
same_text-Equal [] (y ∷ ys) h = absurd (cc h)
same_text-Equal (x ∷ xs) [] h = absurd (cc h)
same_text-Equal (x ∷ xs) (y ∷ ys) h = elim (Bool-cases (x == y)) [
  | inl e ↦
      let rest = subst (λ b. (b && same_text xs ys) ≡ true) e h in
      ap (λ z. z ∷ xs) (==→eq x y e) ∙ ap (λ zs. y ∷ zs) (same_text-Equal xs ys rest)
  | inr n ↦ absurd (cc (subst (λ b. (b && same_text xs ys) ≡ true) n h))
]

pub same_text-apart : (xs ys : List ℕ) → same_text xs ys ≡ false → xs ≢ ys
same_text-apart xs ys f e = cc (f, subst (λ zs. same_text xs zs ≡ true) e (same_text_refl xs))

-- Whether two texts are equal.
abbrev pub text_decided : (xs ys : List ℕ) (b : Bool) → same_text xs ys ≡ b → Dec (xs ≡ ys)
text_decided xs ys true t = yes (same_text-Equal xs ys t)
text_decided xs ys false f = no (same_text-apart xs ys f)

abbrev pub text_discrete : (xs ys : List ℕ) → Dec (xs ≡ ys)
text_discrete xs ys = text_decided xs ys (same_text xs ys) refl

same_text-decide : (xs ys : List ℕ) (d : Dec (xs ≡ ys)) → same_text xs ys ≡ decide d
unfolding decide
same_text-decide xs ys (yes e) = subst (λ zs. same_text xs zs ≡ true) e (same_text_refl xs)
same_text-decide xs ys (no n) = elim (Bool-cases (same_text xs ys)) [
  | inl t ↦ absurd (n (same_text-Equal xs ys t))
  | inr f ↦ f
]

-- Whether two severities are equal.
abbrev pub are_equal : Severity → Severity → Bool
are_equal Severity.info Severity.info = true
are_equal Severity.warning Severity.warning = true
are_equal Severity.error Severity.error = true
are_equal Severity.fatal Severity.fatal = true
are_equal _ _ = false

same_severity-are_equal : (s v : Severity) → same_severity s v ≡ are_equal s v
same_severity-are_equal Severity.info Severity.info = refl
same_severity-are_equal Severity.info Severity.warning = refl
same_severity-are_equal Severity.info Severity.error = refl
same_severity-are_equal Severity.info Severity.fatal = refl
same_severity-are_equal Severity.warning Severity.info = refl
same_severity-are_equal Severity.warning Severity.warning = refl
same_severity-are_equal Severity.warning Severity.error = refl
same_severity-are_equal Severity.warning Severity.fatal = refl
same_severity-are_equal Severity.error Severity.info = refl
same_severity-are_equal Severity.error Severity.warning = refl
same_severity-are_equal Severity.error Severity.error = refl
same_severity-are_equal Severity.error Severity.fatal = refl
same_severity-are_equal Severity.fatal Severity.info = refl
same_severity-are_equal Severity.fatal Severity.warning = refl
same_severity-are_equal Severity.fatal Severity.error = refl
same_severity-are_equal Severity.fatal Severity.fatal = refl

same_key :
    (t u : List ℕ) (s v : Severity)
    → (same_text t u && same_severity s v) ≡ (decide (text_discrete t u) && are_equal s v)
same_key t u s v =
    ap (λ b. b && same_severity s v) (same_text-decide t u (text_discrete t u))
    ∙ ap (λ b. decide (text_discrete t u) && b) (same_severity-are_equal s v)

-- The later of two settings.
abbrev pub later {ℓ} : {A : Type ℓ} → Option A → Option A → Option A
later none a = a
later (some b) a = some b

-- The last actions set for a type and a severity.
abbrev pub last_for_type : List ℕ → Severity → List Setting → Option ActionFlags
last_for_type t s [] = none
last_for_type t s (Setting.type_setting u v actions ∷ rest) =
    later (last_for_type t s rest)
      (if decide (text_discrete t u) && are_equal s v then some actions else none)
last_for_type t s (_ ∷ rest) = last_for_type t s rest

-- The last actions set for a severity.
abbrev pub last_for_severity : Severity → List Setting → Option ActionFlags
last_for_severity s [] = none
last_for_severity s (Setting.severity_setting v actions ∷ rest) =
    later (last_for_severity s rest) (if are_equal s v then some actions else none)
last_for_severity s (_ ∷ rest) = last_for_severity s rest

-- The last verbosity set.
abbrev pub last_verbosity : List Setting → Option Verbosity
last_verbosity [] = none
last_verbosity (Setting.verbosity_setting v ∷ rest) = later (last_verbosity rest) (some v)
last_verbosity (_ ∷ rest) = last_verbosity rest

later-if {ℓ} :
    {A : Type ℓ} (x : Option A) (b : Bool) (a : A) (y : Option A)
    → later x (if b then some a else y) ≡ later (later x (if b then some a else none)) y
later-if none true a y = refl
later-if none false a y = refl
later-if (some z) b a y = refl

pub type_actions-configure :
    (settings : List Setting) (h : ReportHandler) (t : List ℕ) (s : Severity)
    → (configure h settings).type_severity_actions t s
      ≡ later (last_for_type t s settings) (h.type_severity_actions t s)
unfolding configure set_severity_actions set_type_severity_actions
type_actions-configure [] h t s = refl
type_actions-configure (Setting.severity_setting v a ∷ rest) h t s =
    type_actions-configure rest (set_severity_actions h v a) t s
type_actions-configure (Setting.type_setting u v a ∷ rest) h t s =
    type_actions-configure rest (set_type_severity_actions h u v a) t s
    ∙ later-if (last_for_type t s rest) (same_text t u && same_severity s v) a
        (h.type_severity_actions t s)
    ∙ ap
        (λ b.
          later (later (last_for_type t s rest) (if b then some a else none))
            (h.type_severity_actions t s))
        (same_key t u s v)
type_actions-configure (Setting.verbosity_setting v ∷ rest) h t s =
    type_actions-configure rest _ t s

pub severity_actions-configure :
    (settings : List Setting) (h : ReportHandler) (s : Severity)
    → (configure h settings).severity_actions s
      ≡ later (last_for_severity s settings) (h.severity_actions s)
unfolding configure set_severity_actions set_type_severity_actions
severity_actions-configure [] h s = refl
severity_actions-configure (Setting.severity_setting v a ∷ rest) h s =
    severity_actions-configure rest (set_severity_actions h v a) s
    ∙ later-if (last_for_severity s rest) (same_severity s v) a (h.severity_actions s)
    ∙ ap
        (λ b.
          later (later (last_for_severity s rest) (if b then some a else none))
            (h.severity_actions s))
        (same_severity-are_equal s v)
severity_actions-configure (Setting.type_setting u v a ∷ rest) h s =
    severity_actions-configure rest (set_type_severity_actions h u v a) s
severity_actions-configure (Setting.verbosity_setting v ∷ rest) h s =
    severity_actions-configure rest (set h (Setting.verbosity_setting v)) s

later_assoc {ℓ} : {A : Type ℓ} (x y z : Option A) → later x (later y z) ≡ later (later x y) z
later_assoc none y z = refl
later_assoc (some x) y z = refl

pub verbosity-configure :
    (settings : List Setting) (h : ReportHandler)
    → some (configure h settings).verbosity ≡ later (last_verbosity settings) (some h.verbosity)
unfolding configure set_severity_actions set_type_severity_actions
verbosity-configure [] h = refl
verbosity-configure (Setting.severity_setting v a ∷ rest) h =
    verbosity-configure rest (set_severity_actions h v a)
verbosity-configure (Setting.type_setting u v a ∷ rest) h =
    verbosity-configure rest (set_type_severity_actions h u v a)
verbosity-configure (Setting.verbosity_setting v ∷ rest) h =
    verbosity-configure rest (set h (Setting.verbosity_setting v))
    ∙ later_assoc (last_verbosity rest) (some v) (some h.verbosity)

pub cached-configure :
    (settings : List Setting) (h : ReportHandler) → (configure h settings).cached ≡ h.cached
unfolding configure set_severity_actions set_type_severity_actions
cached-configure [] h = refl
cached-configure (Setting.severity_setting v a ∷ rest) h =
    cached-configure rest (set_severity_actions h v a)
cached-configure (Setting.type_setting u v a ∷ rest) h =
    cached-configure rest (set_type_severity_actions h u v a)
cached-configure (Setting.verbosity_setting v ∷ rest) h =
    cached-configure rest (set h (Setting.verbosity_setting v))

pub later-none {ℓ} : {A : Type ℓ} (x : Option A) → later x none ≡ x
later-none none = refl
later-none (some x) = refl
