-- ===== src/Channels/Binding/Completion.antt =====
-- The completion of crates/systemrs-channels/src/binding.rs, done twice.
use systemrs.Base.{
  ℕ, zero, suc, List, [], ◌∷◌, Bool, true, false, Option, none, some, if◌then◌else◌, ◌==◌, ◌≡◌,
  refl, ==_refl, ap, ◌∙◌, Bool-cases, inl, inr, length, ==→eq,
}
use mathlib.Core.Option.{some-injective}
use systemrs.Channels.Binding.{
  set_bind, or_empty, BindElem, PortPolicy, BindState, PortMeta, PortRegistry, Completed, insert,
  set_bind_of, ids_of, ids_of_meta, bound_ids, complete_state, complete_meta, extend, resolve_elems,
  finish, start, complete, check, resolved,
}

-- A predicate on the registry that a completion leaves; `X` is what an end of the fuel means.
abbrev pub Ensures : Type 0 → (PortRegistry → Type 0) → Completed → Type 0
Ensures X Q (Completed.resolves ids reg) = Q reg
Ensures X Q (Completed.violates reg) = Q reg
Ensures X Q Completed.out_of_fuel = X

Ensures-extend :
    (X : Type 0) (Q : PortRegistry → Type 0) (ids : List ℕ) (c : Completed)
    → Ensures X Q c
    → Ensures X Q (extend ids c)
Ensures-extend X Q ids (Completed.resolves rest reg) h = h
Ensures-extend X Q ids (Completed.violates reg) h = h
Ensures-extend X Q ids Completed.out_of_fuel h = h

pub Ensures-weaken :
    (X : Type 0) (P Q : PortRegistry → Type 0)
    → ((r : PortRegistry) → P r → Q r)
    → (c : Completed) → Ensures X P c
    → Ensures X Q c
Ensures-weaken X P Q f (Completed.resolves rest reg) h = f reg h
Ensures-weaken X P Q f (Completed.violates reg) h = f reg h
Ensures-weaken X P Q f Completed.out_of_fuel h = h

-- What the completion of every parent keeps, the loop keeps.
module _ (X : Type 0) (Q : PortRegistry → Type 0) (rec : PortRegistry → ℕ → Completed)
    (h : (r : PortRegistry) (id : ℕ) → Q r → Ensures X Q (rec r id)) where
  continue :
      (c : Completed) (rest : List ℕ → PortRegistry → Completed)
      → Ensures X Q c
      → ((ids : List ℕ) (r : PortRegistry) → Q r → Ensures X Q (rest ids r))
      → Ensures X Q (elim c [
        | Completed.resolves ids r ↦ rest ids r
        | Completed.violates r ↦ Completed.violates r
        | Completed.out_of_fuel ↦ Completed.out_of_fuel
      ])
  continue (Completed.resolves ids reg) rest q k = k ids reg q
  continue (Completed.violates reg) rest q k = q
  continue Completed.out_of_fuel rest q k = q

  pub resolve_elems-Ensures :
      (elems : List BindElem) (r : PortRegistry) → Q r → Ensures X Q (resolve_elems rec elems r)
  unfolding resolve_elems
  resolve_elems-Ensures [] r q = q
  resolve_elems-Ensures (BindElem.channel oid ∷ elems) r q =
      Ensures-extend X Q (oid ∷ []) (resolve_elems rec elems r) (resolve_elems-Ensures elems r q)
  resolve_elems-Ensures (BindElem.parent pid ∷ elems) r q =
      continue (rec r pid) (λ ids r2. extend ids (resolve_elems rec elems r2)) (h r pid q)
        (λ ids r2 q2.
          Ensures-extend X Q ids (resolve_elems rec elems r2) (resolve_elems-Ensures elems r2 q2))

-- What is resolved stays as it is.
abbrev Keeps : PortRegistry → PortRegistry → Type 0
Keeps reg reg2 = (j : ℕ) (ids : List ℕ) → bound_ids reg j ≡ some ids → bound_ids reg2 j ≡ some ids

ids_of_meta-if :
    (b : Bool) (m n : Option PortMeta)
    → ids_of_meta (if b then m else n) ≡ (if b then ids_of_meta m else ids_of_meta n)
ids_of_meta-if true m n = refl
ids_of_meta-if false m n = refl

bound_ids-insert :
    (reg : PortRegistry) (id : ℕ) (m : PortMeta) (j : ℕ)
    → bound_ids (insert reg id m) j ≡ (if j == id then ids_of m.bind else bound_ids reg j)
bound_ids-insert reg id m j = ids_of_meta-if (j == id) (some m) (reg.metas j)

-- An endpoint that is not resolved may be overwritten.
insert-Keeps :
    (reg reg2 : PortRegistry) (id : ℕ) (m : PortMeta)
    → Keeps reg reg2
    → bound_ids reg id ≡ none
    → Keeps reg (insert reg2 id m)
insert-Keeps reg reg2 id m k free j ids e = elim (Bool-cases (j == id)) [
  | inl same ↦ absurd (cc (==→eq j id same, e, free))
  | inr other ↦ bound_ids-insert reg2 id m j ∙ rw other (k j ids e)
]

set_bind_of-Keeps :
    (reg r : PortRegistry) (id : ℕ) (b : BindState) (m : Option PortMeta)
    → bound_ids reg id ≡ none
    → Keeps reg r
    → Keeps reg (set_bind_of r id b m)
set_bind_of-Keeps reg r id b none free k = k
set_bind_of-Keeps reg r id b (some m) free k = insert-Keeps reg r id (record m { bind = b }) k free

finish-Keeps :
    (reg : PortRegistry) (id : ℕ) (policy : PortPolicy) (c : Completed)
    → bound_ids reg id ≡ none
    → Ensures Unit (Keeps reg) c
    → Ensures Unit (Keeps reg) (finish id policy c)
unfolding finish
finish-Keeps reg id policy (Completed.resolves ids r) free k =
    elim (Bool-cases (check policy (length ids))) [
      | inl ok ↦ rw ok (set_bind_of-Keeps reg r id (BindState.bound ids) (r.metas id) free k)
      | inr bad ↦ rw bad k
    ]
finish-Keeps reg id policy (Completed.violates r) free k = k
finish-Keeps reg id policy Completed.out_of_fuel free k = k

-- The part of a completion that follows the placeholder.
start-Keeps :
    (rec : PortRegistry → ℕ → Completed) (reg : PortRegistry) (id : ℕ) (m : PortMeta)
    (elems : List BindElem)
    → ((r : PortRegistry) (i : ℕ) → Ensures Unit (Keeps r) (rec r i))
    → bound_ids reg id ≡ none
    → Ensures Unit (Keeps reg) (start rec reg id m elems)
start-Keeps rec reg id m elems h free = finish-Keeps reg id m.policy _ free (
    resolve_elems-Ensures Unit (Keeps reg) rec
      (λ r i k.
        Ensures-weaken Unit (Keeps r) (Keeps reg) (λ r2 k2 j ids e. k2 j ids (k j ids e)) (rec r i)
          (h r i))
      elems (insert reg id (record m { bind = BindState.bound [] }))
      (insert-Keeps reg reg id (record m { bind = BindState.bound [] }) (λ j ids e. e) free))

complete_state-Keeps :
    (rec : PortRegistry → ℕ → Completed) (reg : PortRegistry) (id : ℕ) (m : PortMeta)
    (b : BindState)
    → ((r : PortRegistry) (i : ℕ) → Ensures Unit (Keeps r) (rec r i))
    → bound_ids reg id ≡ ids_of b
    → Ensures Unit (Keeps reg) (complete_state rec reg id m b)
complete_state-Keeps rec reg id m (BindState.bound ids) h e = λ j xs k. k
complete_state-Keeps rec reg id m (BindState.recorded elems) h e =
    start-Keeps rec reg id m elems h e
complete_state-Keeps rec reg id m BindState.unbound h e = start-Keeps rec reg id m [] h e

complete_meta-Keeps :
    (rec : PortRegistry → ℕ → Completed) (reg : PortRegistry) (id : ℕ) (m : Option PortMeta)
    → ((r : PortRegistry) (i : ℕ) → Ensures Unit (Keeps r) (rec r i))
    → reg.metas id ≡ m
    → Ensures Unit (Keeps reg) (complete_meta rec reg id m)
complete_meta-Keeps rec reg id none h e = λ j xs k. k
complete_meta-Keeps rec reg id (some m) h e =
    complete_state-Keeps rec reg id m m.bind h (ap ids_of_meta e)

complete-Keeps :
    (f : ℕ) (reg : PortRegistry) (id : ℕ) → Ensures Unit (Keeps reg) (complete f reg id)
unfolding complete
complete-Keeps zero reg id = tt
complete-Keeps (suc f) reg id =
    complete_meta-Keeps (complete f) reg id (reg.metas id) (λ r i. complete-Keeps f r i) refl

complete_state-bound :
    (rec : PortRegistry → ℕ → Completed) (reg : PortRegistry) (id : ℕ) (m : PortMeta)
    (b : BindState) (ids : List ℕ)
    → ids_of b ≡ some ids
    → complete_state rec reg id m b ≡ Completed.resolves ids reg
complete_state-bound rec reg id m (BindState.bound xs) ids e =
    ap (λ t. Completed.resolves t reg) (some-injective xs ids e)
complete_state-bound rec reg id m (BindState.recorded elems) ids e = absurd (cc e)
complete_state-bound rec reg id m BindState.unbound ids e = absurd (cc e)

complete_meta-bound :
    (rec : PortRegistry → ℕ → Completed) (reg : PortRegistry) (id : ℕ) (m : Option PortMeta)
    (ids : List ℕ)
    → ids_of_meta m ≡ some ids
    → complete_meta rec reg id m ≡ Completed.resolves ids reg
complete_meta-bound rec reg id none ids e = absurd (cc e)
complete_meta-bound rec reg id (some m) ids e = complete_state-bound rec reg id m m.bind ids e

bound_ids-set_bind_of :
    (reg : PortRegistry) (id : ℕ) (m : Option PortMeta) (xs ids : List ℕ)
    → ids_of_meta m ≡ some xs
    → bound_ids (set_bind_of reg id (BindState.bound ids) m) id ≡ some ids
bound_ids-set_bind_of reg id none xs ids e = absurd (cc e)
bound_ids-set_bind_of reg id (some m) xs ids e =
    bound_ids-insert reg id (record m { bind = BindState.bound ids }) id ∙ rw (==_refl id) refl

-- What a completion of an endpoint with a policy leaves, and what another one then returns.
abbrev pub Again : ℕ → PortPolicy → ℕ → Completed → Type 0
Again g policy id (Completed.resolves ids r) =
    (check policy (length ids) ≡ true)
    × (resolved r id ≡ ids)
    × (complete (suc g) r id ≡ Completed.resolves ids r)
Again g policy id (Completed.violates r) =
    (resolved r id ≡ []) × (complete (suc g) r id ≡ Completed.resolves [] r)
Again g policy id Completed.out_of_fuel = Unit

again :
    (g : ℕ) (r : PortRegistry) (id : ℕ) (ids : List ℕ)
    → bound_ids r id ≡ some ids
    → (resolved r id ≡ ids) × (complete (suc g) r id ≡ Completed.resolves ids r)
unfolding resolved complete
again g r id ids e = (ap or_empty e, complete_meta-bound (complete g) r id (r.metas id) ids e)

finish-Again :
    (g id : ℕ) (policy : PortPolicy) (c : Completed)
    → Ensures Unit (λ r. bound_ids r id ≡ some []) c
    → Again g policy id (finish id policy c)
unfolding finish
finish-Again g id policy (Completed.resolves ids r) e =
    elim (Bool-cases (check policy (length ids))) [
      | inl ok ↦
          let (ids_again, same) =
            again g (set_bind r id (BindState.bound ids)) id ids
              (bound_ids-set_bind_of r id (r.metas id) [] ids e) in
          rw ok (ok, ids_again, same)
      | inr bad ↦ rw bad (again g r id [] e)
    ]
finish-Again g id policy (Completed.violates r) e = again g r id [] e
finish-Again g id policy Completed.out_of_fuel e = tt

start-Again :
    (f g : ℕ) (reg : PortRegistry) (id : ℕ) (m : PortMeta) (elems : List BindElem)
    → Again g m.policy id (start (complete f) reg id m elems)
start-Again f g reg id m elems = finish-Again g id m.policy _ (
    resolve_elems-Ensures Unit (λ r. bound_ids r id ≡ some []) (complete f)
      (λ r i e.
        Ensures-weaken Unit (Keeps r) (λ r2. bound_ids r2 id ≡ some []) (λ r2 k. k id [] e)
          (complete f r i) (complete-Keeps f r i))
      elems (insert reg id (record m { bind = BindState.bound [] }))
      (bound_ids-insert reg id (record m { bind = BindState.bound [] }) id ∙ rw (==_refl id) refl))

complete_state-Again :
    (f g : ℕ) (reg : PortRegistry) (id : ℕ) (m : PortMeta) (b : BindState)
    → ids_of b ≡ none
    → Again g m.policy id (complete_state (complete f) reg id m b)
complete_state-Again f g reg id m (BindState.bound ids) e = absurd (cc e)
complete_state-Again f g reg id m (BindState.recorded elems) e = start-Again f g reg id m elems
complete_state-Again f g reg id m BindState.unbound e = start-Again f g reg id m []

-- The completion of an endpoint that is not resolved yet either returns a number of ids that its policy
-- allows, which the endpoint then keeps and every other completion returns; or fails, and then the
-- endpoint has no ids, and every other completion of it succeeds with none, whatever its policy is.
pub complete-Again :
    (f g : ℕ) (reg : PortRegistry) (id : ℕ) (m : PortMeta)
    → reg.metas id ≡ some m
    → ids_of m.bind ≡ none
    → Again g m.policy id (complete f reg id)
unfolding complete
complete-Again zero g reg id m e free = tt
complete-Again (suc f) g reg id m e free = rw e (complete_state-Again f g reg id m m.bind free)
