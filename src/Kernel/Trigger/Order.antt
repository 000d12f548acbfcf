-- ===== src/Kernel/Trigger/Order.antt =====
-- The order in which `trigger` of crates/systemrs-kernel/src/inner.rs makes subscribers runnable.
use mathlib.Core.List.{reverse-reverse, reverse-cons}
use systemrs.Base.{
  ℕ, suc, ◌≡◌, refl, ap, subst, List, [], ◌∷◌, ◌++◌, some, arith, reverse, length, set, swap_remove,
  drop_last, get_elem?, length-append, ◌-◌,
}
use systemrs.Kernel.Process.{ProcKind}
use systemrs.Kernel.State.{Inner, event_at, set_event}
use systemrs.Kernel.Trigger.{trigger_dynamic, dynamic_loop, fire_dynamic, set_dynamic, dynamic_list}
use systemrs.Kernel.Trigger.Frame.{trigger_dynamic-consumes}

-- The first entry, and then the others from the last one down.
abbrev pub visit_order : List ℕ → List ℕ
visit_order [] = []
visit_order (pid ∷ list) = pid ∷ reverse list

unfoldable pub visit_all : ℕ → List ℕ → Inner → Inner
visit_all ev [] s = s
visit_all ev (pid ∷ list) s = visit_all ev list (trigger_dynamic s pid ev).1

-- Removing the first entry moves the last one to the front.
get_last : (x : ℕ) (xs : List ℕ) (y : ℕ) → get_elem? (x ∷ xs ++ y ∷ []) (suc (length xs)) ≡ some y
get_last x [] y = refl
get_last x (z ∷ xs) y = get_last z xs y

set_last : (xs : List ℕ) (y v : ℕ) → drop_last (set (xs ++ y ∷ []) (length xs) v) ≡ xs
set_last [] y v = refl
set_last (x ∷ []) y v = refl
set_last (x ∷ z ∷ xs) y v = ap (◌∷◌ x) (set_last (z ∷ xs) y v)

swap_remove-first : (x : ℕ) (xs : List ℕ) (y : ℕ) → swap_remove (x ∷ (xs ++ y ∷ [])) 0 ≡ y ∷ xs
swap_remove-first x xs y =
    let e : length (x ∷ (xs ++ y ∷ [])) - 1 ≡ suc (length xs) =
      omega (arith, length-append xs (y ∷ [])) in
    rw (e, get_last x xs y) (set_last (y ∷ xs) y x)

dynamic_loop_step :
    (fuel ev x : ℕ) (l : List ℕ) (s : Inner)
    → dynamic_loop (suc fuel) ev 0 (x ∷ l) s
      ≡ dynamic_loop fuel ev 0 (swap_remove (x ∷ l) 0) (trigger_dynamic s x ev).1
unfolding dynamic_loop
dynamic_loop_step fuel ev x l s = rw (trigger_dynamic-consumes s x ev, dynamic_loop)

dynamic_loop-order :
    (ev x : ℕ) (r : List ℕ) (s : Inner)
    → dynamic_loop (suc (length r)) ev 0 (x ∷ reverse r) s ≡ ([], visit_all ev (x ∷ r) s)
unfolding visit_all
dynamic_loop-order ev x [] s = rw dynamic_loop_step (unfold dynamic_loop in refl)
dynamic_loop-order ev x (y ∷ r) s =
    rw (reverse-cons y r, dynamic_loop_step, swap_remove-first x (reverse r) y)
      (dynamic_loop-order ev y r (trigger_dynamic s x ev).1)

length-reverse : (xs : List ℕ) → length (reverse xs) ≡ length xs
length-reverse [] = refl
length-reverse (x ∷ xs) =
    omega
      (arith, ap length (reverse-cons x xs), length-append (reverse xs) (x ∷ []), length-reverse xs)

dynamic_loop-visits :
    (ev : ℕ) (list : List ℕ) (s : Inner)
    → dynamic_loop (length list) ev 0 list s ≡ ([], visit_all ev (visit_order list) s)
unfolding dynamic_loop visit_all
dynamic_loop-visits ev [] s = refl
dynamic_loop-visits ev (x ∷ xs) s =
    subst
      (λ (l : List ℕ).
        dynamic_loop (suc (length l)) ev 0 (x ∷ l) s ≡ ([], visit_all ev (x ∷ reverse xs) s))
      (reverse-reverse xs)
      (rw (length-reverse (reverse xs)) (dynamic_loop-order ev x (reverse xs) s))

-- The walk over a dynamic list empties it and resolves each subscriber once, the first one first and
-- then the others from the last one down.
pub fire_dynamic-order :
    (s : Inner) (ev : ℕ) (kind : ProcKind)
    → fire_dynamic s ev kind
      ≡ set_event
          (visit_all ev
            (visit_order (dynamic_list kind (event_at s ev)))
            (set_event s ev (set_dynamic kind [])))
          ev
          (set_dynamic kind [])
unfolding fire_dynamic
fire_dynamic-order s ev kind = rw (
    dynamic_loop-visits ev (dynamic_list kind (event_at s ev))
      (set_event s ev (set_dynamic kind [])))
