-- ===== src/Service/Refinement.antt =====
-- service.go: `mutate` against a specification that knows no transactions, stores or stages.
use mathlib.Core.List.{append-nil}
use mathlib.Core.Path.{fun_ext}
use hmntsk.Prelude.{
  String, ◌≡◌, refl, sym, ap, ◌∙◌, subst, Bool, true, false, List, [], ◌∷◌, some, eqb_ℤ_iff, is_nil,
  if◌then◌else◌,
}
use hmntsk.Errors.{Error, Result, ok, err}
use hmntsk.Errors
use hmntsk.Task.{Task, Time, normalize}
use hmntsk.Event.{Event, TransitionRecord}
use hmntsk.Store.{
  M, Store, Laws, View, ◌>>=◌, ◌>>◌, lift, found, checked, written, context_cancelled, set_task,
  add_records, add_events, records_for,
}
use hmntsk.Service.{
  Env, TaskRequest, Step, Produced, OpResult, require_task_id, check_version, stamp, finish,
  persist_outcome, mutate_scope,
}

-- What the operation makes of the task that it found: the next task, its stamped events and its
-- records.
abbrev pub plan_found : Env → TaskRequest → Step → Task → Result Produced
plan_found env req step current = Errors.◌>>=◌ (check_version req current) (λ _.
    Errors.◌>>=◌ (step current env.now) (λ produced.
      Errors.◌>>=◌ (stamp env 0 produced.1) (λ stamped. ok (produced.0, stamped, produced.2))))

-- What the operation decides from the tasks alone.
abbrev pub plan : Env → TaskRequest → Step → View → Result Produced
plan env req step v =
    Errors.◌>>=◌ (found req.task_id (v.tasks req.task_id)) (plan_found env req step)

-- All of it is written at once.
abbrev pub commit_all : Produced → View → View
commit_all (t, es, rs) v = add_events es (add_records rs (set_task (normalize t) v))

abbrev pub conclude : Bool → Env → Result Produced → View → Result OpResult × View
conclude cancelled env (err e) v = (err e, v)
conclude cancelled env (ok p) v =
    if cancelled
    then (err context_cancelled, v)
    else (ok (finish env p.0 p.1 false), commit_all p v)

-- The operation as one atomic step on what clients see.
abbrev pub mutate_spec : Env → TaskRequest → Step → View → Result OpResult × View
mutate_spec env req step v =
    conclude env.cancelled env (Errors.◌>>=◌ (require_task_id req) (λ _. plan env req step v)) v

-- Tasks stand under their own identifiers.
abbrev pub IsKeyed : View → Type 0
IsKeyed v = (k : String) (t : Task) → v.tasks k ≡ some t → t.id ≡ k

-- The step does not rename the task.
abbrev pub KeepsId : Step → Type 0
KeepsId step = (t : Task) (now : Time) (p : Produced) → step t now ≡ ok p → p.0.id ≡ t.id

module _ {S : Type 0} {A B : Type 0} where
  pub bind_ok :
      (m : M S A) (f : A → M S B) (s : S) {a : A} → (m s).0 ≡ ok a → (m >>= f) s ≡ f a (m s).1
  bind_ok m f s h = rw h

  pub bind_err :
      (m : M S A) (f : A → M S B) (s : S) {e : Error}
      → (m s).0 ≡ err e
      → (m >>= f) s ≡ (err e, (m s).1)
  bind_err m f s h = rw h

module _ {S : Type 0} (st : Store S) (laws : Laws st) where
  -- A scope that ends well: its result, what clients will see of it, and that it is plain.
  pub record Ends {A : Type 0} (o : Result A × S) (a : A) (v : View) : Type 0 where
    pub result : o.0 ≡ ok a
    pub seen : laws.view o.1 ≡ v
    pub plain : laws.IsPlain o.1

  unfoldable pub persist_history : (rs : List TransitionRecord) → M S Unit
  persist_history rs = if is_nil rs then lift (ok tt) else st.append_history rs

  add_nothing : (v : View) → add_records [] v ≡ v
  unfolding records_for
  add_nothing v = ap (λ l. record v { log = l }) (fun_ext λ k. append-nil (v.log k))

  no_events : (v : View) → add_events [] v ≡ v
  no_events v = ap (λ es. record v { events = es }) (append-nil v.events)

  pub history-Ends :
      (rs : List TransitionRecord) (s : S)
      → st.in_transaction s ≡ true
      → laws.IsPlain s
      → Ends (persist_history rs s) tt (add_records rs (laws.view s))
  unfolding persist_history
  history-Ends [] s o p = record {
    result = refl;
    seen = sym (add_nothing (laws.view s));
    plain = p;
  }
  history-Ends (r ∷ rs) s o p = record {
    result = laws.history-result (r ∷ rs) s o;
    seen = laws.history-view (r ∷ rs) s o;
    plain = laws.history-IsPlain (r ∷ rs) s p;
  }

  pub history-open :
      (rs : List TransitionRecord) (s : S)
      → st.in_transaction s ≡ true
      → st.in_transaction (persist_history rs s).1 ≡ true
  unfolding persist_history
  history-open [] s o = o
  history-open (r ∷ rs) s o = laws.history-open (r ∷ rs) s o

  unfoldable pub persist_events : Env → List Event → M S (List Event)
  persist_events env es =
      if is_nil es
      then lift (ok [])
      else (do stamped ← lift (stamp env 0 es); st.append_events stamped; lift (ok stamped))

  stamp-nil : (env : Env) (st' : List Event) → stamp env 0 [] ≡ ok st' → st' ≡ []
  unfolding stamp
  stamp-nil env st' h = cc

  events-Ends :
      (env : Env) (es st' : List Event) (s : S)
      → st.in_transaction s ≡ true
      → laws.IsPlain s
      → stamp env 0 es ≡ ok st'
      → Ends (persist_events env es s) st' (add_events st' (laws.view s))
  unfolding persist_events
  events-Ends env [] st' s o p h =
      rw (stamp-nil env st' h)
        (record { result = refl; seen = sym (no_events (laws.view s)); plain = p })
  events-Ends env (e ∷ es) st' s o p h = rw h (
      rw (bind_ok (st.append_events st') (λ _. lift (ok st')) s (laws.events-result st' s o))
        (record {
          result = refl;
          seen = laws.events-view st' s o;
          plain = laws.events-IsPlain st' s p;
        }))

  persist-Ends :
      (env : Env) (es st' : List Event) (rs : List TransitionRecord) (s : S)
      → st.in_transaction s ≡ true
      → laws.IsPlain s
      → stamp env 0 es ≡ ok st'
      → Ends (persist_outcome st env es rs s) st' (add_events st' (add_records rs (laws.view s)))
  unfolding persist_outcome persist_history persist_events
  persist-Ends env es st' rs s o p h =
      let past = history-Ends rs s o p in
      rw (bind_ok (persist_history rs) (λ _. persist_events env es) s past.result) (
        subst (λ v. Ends (persist_events env es (persist_history rs s).1) st' (add_events st' v))
          past.seen
          (events-Ends env es st' (persist_history rs s).1 (history-open rs s o) past.plain h))

  -- The write of a task that stands under its identifier with the version that was read.
  pub update-Ends :
      (t current : Task) (s : S)
      → st.in_transaction s ≡ true
      → laws.IsPlain s
      → (laws.view s).tasks t.id ≡ some current
      → Ends (st.update_task t current.version s) tt (set_task (normalize t) (laws.view s))
  update-Ends t current s o p e =
      let fits : checked t.id current.version ((laws.view s).tasks t.id) ≡ ok tt =
        rw e (rw ((eqb_ℤ_iff current.version current.version).1 refl)) in
      record {
        result = laws.update-result t current.version s o ∙ fits;
        seen =
            laws.update-view t current.version s o
            ∙ ap (λ r. written r (set_task (normalize t)) (laws.view s)) fits;
        plain = laws.update-IsPlain t current.version s p;
      }

  -- A scope whose plan succeeds ends with what was planned.
  pub scope-Ends :
      (env : Env) (req : TaskRequest) (step : Step) (s : S) (current : Task) (p : Produced)
      (es : List Event)
      → st.in_transaction s ≡ true
      → laws.IsPlain s
      → (laws.view s).tasks req.task_id ≡ some current
      → check_version req current ≡ ok tt
      → step current env.now ≡ ok p
      → p.0.id ≡ req.task_id
      → stamp env 0 p.1 ≡ ok es
      → Ends (mutate_scope st env req step s) (p.0, es) (commit_all (p.0, es, p.2) (laws.view s))
  unfolding mutate_scope
  scope-Ends env req step s current p es o q e c d i h =
      let wrote = update-Ends p.0 current s o q (ap (laws.view s).tasks i ∙ e) in
      let kept =
        persist-Ends env p.1 es p.2 (st.update_task p.0 current.version s).1
          (laws.update-open p.0 current.version s o) wrote.plain h in
      rw (laws.get_lem req.task_id s) (
        rw e (
          rw c (
            rw d (
              rw
                (bind_ok {B = Task × List Event} (st.update_task p.0 current.version)
                  (λ _. persist_outcome st env p.1 p.2 >>= λ stamped. lift (ok (p.0, stamped))) s
                  wrote.result)
                (rw
                  (bind_ok {B = Task × List Event} (persist_outcome st env p.1 p.2)
                    (λ stamped. lift (ok (p.0, stamped))) (st.update_task p.0 current.version s).1
                    kept.result)
                  (record {
                    result = refl;
                    seen = kept.seen ∙ ap (λ v. add_events es (add_records p.2 v)) wrote.seen;
                    plain = kept.plain;
                  }))))))
