-- ===== src/Service/Concurrency.antt =====
-- service.go: two operations that saw the same version of a task.
use hmntsk.Prelude.{
  String, ◌==◌, ◌≡◌, ◌≢◌, refl, sym, ap, ◌∙◌, subst, Bool, true, false, Option, none, some, ℤ,
  inc64, inc64-ne, eqb_ℤ, eqb_ℤ_iff, inl, inr, Bool-cases, arith, eq_iff, if◌then◌else◌, List,
}
use hmntsk.Errors.{ok-injective, >>=-eq-ok, Error, Result, ok, err, conflict_error}
use hmntsk.Task.{Task, normalize}
use hmntsk.Store.{Store, Laws, View, continue, settle, found, set_task}
use hmntsk.Service.{
  Env, TaskRequest, Step, Produced, OpResult, require_task_id, check_version, stamp, finish, mutate,
  mutate_scope, Event, lift,
}
use hmntsk.Service.Refinement.{plan_found, commit_all, conclude, mutate_spec, IsKeyed, KeepsId}
use hmntsk.Service.Atomic.{seen, mutate-refines}
use hmntsk.Service.Steps.{Op, step_of, step_of-Follows}

-- What a success of the specification rests on.
pub record Succeeded (env : Env) (req : TaskRequest) (step : Step) (v v' : View) : Type 0 where
  pub current : Task
  pub made : Produced
  pub written : Produced
  pub named : (req.task_id == "") ≡ false
  pub was_there : v.tasks req.task_id ≡ some current
  pub fresh : check_version req current ≡ ok tt
  pub stepped : step current env.now ≡ ok made
  pub same_task : written.0 ≡ made.0
  pub wrote : v' ≡ commit_all written v

conclude-ok :
    (cancelled : Bool) (env : Env) (o : Result Produced) (v v' : View) {r : OpResult}
    → conclude cancelled env o v ≡ (ok r, v')
    → (p : Produced) × (o ≡ ok p) × (v' ≡ commit_all p v)
conclude-ok cancelled env (err e) v v' h = cc (ap (λ (x : Result OpResult × View). x.0) h)
conclude-ok true env (ok p) v v' h = cc (ap (λ (x : Result OpResult × View). x.0) h)
conclude-ok false env (ok p) v v' h = (p, refl, sym (ap (λ (x : Result OpResult × View). x.1) h))

plan_found-ok :
    (env : Env) (req : TaskRequest) (step : Step) (current : Task) (p : Produced)
    → plan_found env req step current ≡ ok p
    → (check_version req current ≡ ok tt)
      × ((q : Produced) × (step current env.now ≡ ok q) × (p.0 ≡ q.0))
plan_found-ok env req step current p h =
    let (_, c, h') = >>=-eq-ok (check_version req current) _ h in
    let (q, d, h'') = >>=-eq-ok (step current env.now) _ h' in
    let (es, _, last) = >>=-eq-ok (stamp env 0 q.1) _ h'' in
    (c, (q, d, sym (ap (λ (x : Produced). x.0) (ok-injective last))))

named_ok :
    (req : TaskRequest) {u : Unit {0}} → require_task_id req ≡ ok u → (req.task_id == "") ≡ false
named_ok req h = ground arith

found_ok : (id : String) (o : Option Task) {t : Task} → found id o ≡ ok t → o ≡ some t
found_ok id none h = cc
found_ok id (some t) h = ap (λ x. some x) (ok-injective h)

-- A successful operation, read off the specification.
pub spec-Succeeded :
    (env : Env) (req : TaskRequest) (step : Step) (v v' : View) {r : OpResult}
    → mutate_spec env req step v ≡ (ok r, v')
    → Succeeded env req step v v'
spec-Succeeded env req step v v' h =
    let (p, planned, w) = conclude-ok env.cancelled env _ v v' h in
    let (_, i, found_plan) = >>=-eq-ok (require_task_id req) _ planned in
    let (current, e, plan_ok) = >>=-eq-ok (found req.task_id (v.tasks req.task_id)) _ found_plan in
    let (c, (q, d, same)) = plan_found-ok env req step current p plan_ok in
    record {
      current = current;
      made = q;
      written = p;
      named = named_ok req i;
      was_there = found_ok req.task_id (v.tasks req.task_id) e;
      fresh = c;
      stepped = d;
      same_task = same;
      wrote = w;
    }

not_eqb_ℤ : (a b : ℤ) → a ≢ b → eqb_ℤ a b ≡ false
not_eqb_ℤ a b n = elim (Bool-cases (eqb_ℤ a b)) [
  | inl e ↦ absurd (n ((eqb_ℤ_iff a b).0 e))
  | inr e ↦ e
]

tested :
    (id : String) (v c : ℤ) (b : Bool)
    → (if b then ok tt else err (conflict_error id v c)) ≡ ok (tt {0})
    → b ≡ true
tested id v c true h = refl
tested id v c false h = cc

-- The request that saw the version before it.
stale :
    (req : TaskRequest) (current : Task) (v : ℤ)
    → req.version ≡ some v
    → current.version ≡ inc64 v
    → check_version req current ≡ err (conflict_error req.task_id v (inc64 v))
stale req current v h e = rw (h, e) (rw (not_eqb_ℤ v (inc64 v) (λ p. inc64-ne v (sym p))) refl)

fresh_version :
    (req : TaskRequest) (current : Task) (v : ℤ)
    → req.version ≡ some v
    → check_version req current ≡ ok tt
    → current.version ≡ v
fresh_version req current v h e = sym (
    (eqb_ℤ_iff v current.version).0
      (tested req.task_id v current.version (eqb_ℤ v current.version) (rw h at e)))

-- A request whose task stands at another version than the one that it saw.
spec_stale :
    (env : Env) (req : TaskRequest) (step : Step) (v : View) (current : Task) (x : Error)
    → (req.task_id == "") ≡ false
    → v.tasks req.task_id ≡ some current
    → check_version req current ≡ err x
    → mutate_spec env req step v ≡ (err x, v)
spec_stale env req step v current x i e c = rw (i, e, c)

pub keeps_id : (env : Env) (req : TaskRequest) (op : Op) → KeepsId (step_of env req op)
keeps_id env req op t now p h = (step_of-Follows env req op t now p h).same_id

pub some-injective : {A : Type 0} {a b : A} → some a ≡ some b → a ≡ b
some-injective h = cc

set_task-IsKeyed : (t : Task) (v : View) → IsKeyed v → IsKeyed (set_task t v)
set_task-IsKeyed t v keyed k u h = elim (Bool-cases (t.id == k)) [
  | inl e ↦
      let same : some t ≡ some u = rw e at h in
      subst (λ (x : Task). x.id ≡ k) (some-injective same) ((eq_iff t.id k).0 e)
  | inr e ↦ keyed k u (rw e at h)
]

set_task-at : (t : Task) (v : View) (k : String) → t.id ≡ k → (set_task t v).tasks k ≡ some t
set_task-at t v k e = rw ((eq_iff t.id k).1 e)

-- What a successful operation wrote.
wrote_next :
    (env : Env) (req : TaskRequest) (op : Op) (v v' : View) (k : ℤ)
    → IsKeyed v
    → req.version ≡ some k
    → Succeeded env req (step_of env req op) v v'
    → (t : Task) × (v'.tasks req.task_id ≡ some t) × (t.version ≡ inc64 k)
unfolding normalize
wrote_next env req op v v' k keyed h d =
    let f = step_of-Follows env req op d.current env.now d.made d.stepped in
    let same : d.written.0.id ≡ req.task_id =
      ap (λ (t : Task). t.id) d.same_task ∙ f.same_id ∙ keyed req.task_id d.current d.was_there in
    (
      normalize d.written.0,
      ap (λ (w : View). w.tasks req.task_id) d.wrote
          ∙ set_task-at (normalize d.written.0) v req.task_id same,
      ap (λ (t : Task). t.version) d.same_task
          ∙ f.next_version
          ∙ ap inc64 (fresh_version req d.current k h d.fresh),
    )

module _ {S : Type 0} (st : Store S) (laws : Laws st) where
  settled-closed :
      {A : Type 0} (cancelled : Bool) (s : S) (o : Result A × S)
      → st.in_transaction s ≡ false
      → st.in_transaction (settle cancelled laws.commit s o).1 ≡ false
  settled-closed cancelled s (err e, s') h = h
  settled-closed true s (ok a, s') h = h
  settled-closed false s (ok a, s') h = laws.commit-closed s'

  after_settled :
      (env : Env) (host_led : Bool) (o : Result (Task × List Event) × S)
      → st.in_transaction o.1 ≡ false
      → st.in_transaction
          (continue o.0 (λ outcome. lift (ok (finish env outcome.0 outcome.1 host_led))) o.1).1
        ≡ false
  after_settled env host_led (ok r, s) h = h
  after_settled env host_led (err e, s) h = h

  -- An operation ends the transaction that it began.
  pub mutate-closed :
      (env : Env) (req : TaskRequest) (step : Step) (s : S)
      → st.in_transaction s ≡ false
      → st.in_transaction (mutate st env req step s).1 ≡ false
  unfolding mutate
  mutate-closed env req step s o = elim (Bool-cases (req.task_id == "")) [
    | inl i ↦ rw (i, o) refl
    | inr i ↦ rw i (
        rw (laws.do_began env.cancelled (mutate_scope st env req step) s o) (
          after_settled env (st.in_transaction s)
            (settle env.cancelled laws.commit s (mutate_scope st env req step (laws.begin s)))
            (settled-closed env.cancelled s (mutate_scope st env req step (laws.begin s)) o)))
  ]

  -- Two operations that saw the same version of a task: once the first of them has succeeded, the
  -- second fails with the conflict between the version that it saw and the next one, whatever
  -- either of them does, and what clients see stays as the first one left it. No transaction is
  -- open before, and tasks stand under their identifiers.
  pub no_lost_update :
      (env env' : Env) (req req' : TaskRequest) (op op' : Op) (s : S) (v : ℤ)
      → st.in_transaction s ≡ false
      → IsKeyed (laws.view s)
      → req.version ≡ some v
      → req'.version ≡ some v
      → req'.task_id ≡ req.task_id
      → {r : OpResult} → (mutate st env req (step_of env req op) s).0 ≡ ok r
      → let s' = (mutate st env req (step_of env req op) s).1 in
        seen st laws (mutate st env' req' (step_of env' req' op') s')
        ≡ (err (conflict_error req'.task_id v (inc64 v)), laws.view s')
  no_lost_update env env' req req' op op' s v o keyed h h' i {r} done =
      let first = mutate st env req (step_of env req op) s in
      let spec =
        mutate-refines st laws env req (step_of env req op) s o keyed (keeps_id env req op) in
      let d =
        spec-Succeeded env req (step_of env req op) (laws.view s) (laws.view first.1)
          (sym spec ∙ ap (λ o. (o, laws.view first.1)) done) in
      let (t, there, next) = wrote_next env req op (laws.view s) (laws.view first.1) v keyed h d in
      mutate-refines st laws env' req' (step_of env' req' op') first.1
        (mutate-closed env req (step_of env req op) s o)
        (subst IsKeyed (sym d.wrote) (set_task-IsKeyed (normalize d.written.0) (laws.view s) keyed))
        (keeps_id env' req' op')
      ∙ spec_stale env' req' (step_of env' req' op') (laws.view first.1) t
          (conflict_error req'.task_id v (inc64 v)) (ap (λ j. j == "") i ∙ d.named)
          (ap (laws.view first.1).tasks i ∙ there) (stale req' t v h' next)
