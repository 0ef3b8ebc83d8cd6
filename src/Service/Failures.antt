-- ===== src/Service/Failures.antt =====
-- service.go: the ways in which the scope of `mutate` fails, inside its transaction.
use hmntsk.Prelude.{◌≡◌, ap, ◌∙◌, true, none, some, List, [], ◌∷◌}
use hmntsk.Errors.{Error, ok, err, not_found_error}
use hmntsk.Task.{Task}
use hmntsk.Event.{Event, TransitionRecord}
use hmntsk.Store.{Store, Laws, ◌>>=◌, lift}
use hmntsk.Service.{
  Env, TaskRequest, Step, Produced, check_version, stamp, persist_outcome, mutate_scope,
}
use hmntsk.Service.Refinement.{
  bind_ok, bind_err, update-Ends, history-Ends, persist_history, persist_events,
}

module _ {S : Type 0} (st : Store S) (laws : Laws st) where
  pub scope_missing :
      (env : Env) (req : TaskRequest) (step : Step) (s : S)
      → (laws.view s).tasks req.task_id ≡ none
      → (mutate_scope st env req step s).0 ≡ err (not_found_error req.task_id)
  unfolding mutate_scope
  scope_missing env req step s e = rw (laws.get_lem req.task_id s) (rw e)

  pub scope_stale :
      (env : Env) (req : TaskRequest) (step : Step) (s : S) (current : Task) {x : Error}
      → (laws.view s).tasks req.task_id ≡ some current
      → check_version req current ≡ err x
      → (mutate_scope st env req step s).0 ≡ err x
  unfolding mutate_scope
  scope_stale env req step s current e c = rw (laws.get_lem req.task_id s) (rw e (rw c))

  pub scope_refused :
      (env : Env) (req : TaskRequest) (step : Step) (s : S) (current : Task) {x : Error}
      → (laws.view s).tasks req.task_id ≡ some current
      → check_version req current ≡ ok tt
      → step current env.now ≡ err x
      → (mutate_scope st env req step s).0 ≡ err x
  unfolding mutate_scope
  scope_refused env req step s current e c d = rw (laws.get_lem req.task_id s) (rw e (rw c (rw d)))

  stamp-nil_ok : (env : Env) {x : Error} → stamp env 0 [] ≡ err x → ⊥
  unfolding stamp
  stamp-nil_ok env h = cc

  persist_events_failed :
      (env : Env) (es : List Event) (s : S) {x : Error}
      → stamp env 0 es ≡ err x
      → (persist_events st laws env es s).0 ≡ err x
  unfolding persist_events
  persist_events_failed env [] s h = absurd (stamp-nil_ok env h)
  persist_events_failed env (e ∷ es) s h = rw h

  persist_failed :
      (env : Env) (es : List Event) (rs : List TransitionRecord) (s : S) {x : Error}
      → st.in_transaction s ≡ true
      → laws.IsPlain s
      → stamp env 0 es ≡ err x
      → (persist_outcome st env es rs s).0 ≡ err x
  unfolding persist_outcome persist_history persist_events
  persist_failed env es rs s o p h =
      let past = history-Ends st laws rs s o p in
      rw (bind_ok (persist_history st laws rs) (λ _. persist_events st laws env es) s past.result)
        (persist_events_failed env es (persist_history st laws rs s).1 h)

  pub scope_unstamped :
      (env : Env) (req : TaskRequest) (step : Step) (s : S) (current : Task) (p : Produced)
      {x : Error}
      → st.in_transaction s ≡ true
      → laws.IsPlain s
      → (laws.view s).tasks req.task_id ≡ some current
      → check_version req current ≡ ok tt
      → step current env.now ≡ ok p
      → p.0.id ≡ req.task_id
      → stamp env 0 p.1 ≡ err x
      → (mutate_scope st env req step s).0 ≡ err x
  unfolding mutate_scope
  scope_unstamped env req step s current p o q e c d i h =
      let wrote = update-Ends st laws p.0 current s o q (ap (laws.view s).tasks i ∙ e) in
      rw (laws.get_lem req.task_id s) (
        rw e (
          rw c (
            rw d (
              rw
                (bind_ok {B = Task × List Event} (st.update_task p.0 current.version)
                  (λ _. persist_outcome st env p.1 p.2 >>= λ stamped. lift (ok (p.0, stamped))) s
                  wrote.result)
                (rw (
                  bind_err {B = Task × List Event} (persist_outcome st env p.1 p.2)
                    (λ stamped. lift (ok (p.0, stamped))) (st.update_task p.0 current.version s).1
                    (persist_failed env p.1 p.2 (st.update_task p.0 current.version s).1
                      (laws.update-open p.0 current.version s o) wrote.plain h)))))))
