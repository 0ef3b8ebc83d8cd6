-- ===== src/Service/Atomic.antt =====
-- service.go: `mutate` is one atomic step of the specification.
use hmntsk.Prelude.{
  String, ◌==◌, ◌≡◌, refl, ap, ◌∙◌, Bool, true, false, some, List, inl, inr, Option-cases,
  Bool-cases, if◌then◌else◌,
}
use hmntsk.Errors.{Error, Result, ok, err, Result-cases}
use hmntsk.Task.{Task}
use hmntsk.Event.{Event}
use hmntsk.Store.{Store, Laws, View, continue, lift, settle, context_cancelled}
use hmntsk.Service.{
  Env, TaskRequest, Step, Produced, require_task_id, check_version, stamp, finish, mutate_scope,
  mutate,
}
use hmntsk.Service.Failures.{scope_missing, scope_stale, scope_refused, scope_unstamped}
use hmntsk.Service.Refinement.{
  plan_found, commit_all, conclude, mutate_spec, IsKeyed, KeepsId, Ends, scope-Ends,
}

module _ {S A : Type 0} where
  settle_ok :
      (cancelled : Bool) (commit : S → S) (s : S) (o : Result A × S) {a : A}
      → o.0 ≡ ok a
      → settle cancelled commit s o
        ≡ (if cancelled then (err context_cancelled, s) else (ok a, commit o.1))
  settle_ok cancelled commit s (r, s') h = rw h

  settle_err :
      (cancelled : Bool) (commit : S → S) (s : S) (o : Result A × S) {e : Error}
      → o.0 ≡ err e
      → settle cancelled commit s o ≡ (err e, s)
  settle_err cancelled commit s (r, s') h = rw h

module _ {S : Type 0} (st : Store S) (laws : Laws st) where
  -- What a client sees of an outcome.
  abbrev pub seen : {A : Type 0} → Result A × S → Result A × View
  seen o = (o.0, laws.view o.1)

  -- A scope fails without trace.
  scope_failed :
      (env : Env) (req : TaskRequest) (step : Step) (s : S) {e : Error}
      → st.in_transaction s ≡ false
      → (req.task_id == "") ≡ false
      → (mutate_scope st env req step (laws.begin s)).0 ≡ err e
      → seen (mutate st env req step s) ≡ (err e, laws.view s)
  unfolding mutate
  scope_failed env req step s o i h =
      rw (i, require_task_id)
        (rw (laws.do_began env.cancelled (mutate_scope st env req step) s o) (
          rw (
            settle_err env.cancelled laws.commit s (mutate_scope st env req step (laws.begin s))
              h)))

  ended :
      (cancelled host_led : Bool) (env : Env) (p : Produced) (s s' : S)
      → host_led ≡ false
      → laws.view s' ≡ commit_all p (laws.view s)
      → let o : Result (Task × List Event) × S =
          if cancelled then (err context_cancelled, s) else (ok (p.0, p.1), s') in
        seen (continue o.0 (λ outcome. lift (ok (finish env outcome.0 outcome.1 host_led))) o.1)
        ≡ conclude cancelled env (ok p) (laws.view s)
  ended true host_led env p s s' h v = refl
  ended false host_led env p s s' h v =
      rw h (ap (λ (w : View). (ok (finish env p.0 p.1 false), w)) v)

  scope_ended :
      (env : Env) (req : TaskRequest) (step : Step) (s : S) (p : Produced)
      → st.in_transaction s ≡ false
      → (req.task_id == "") ≡ false
      → Ends st laws
          (mutate_scope st env req step (laws.begin s))
          (p.0, p.1)
          (commit_all p (laws.view (laws.begin s)))
      → seen (mutate st env req step s) ≡ conclude env.cancelled env (ok p) (laws.view s)
  unfolding mutate
  scope_ended env req step s p o i h =
      let scope = mutate_scope st env req step in
      rw (i, require_task_id)
        (rw (laws.do_began env.cancelled scope s o) (
          rw (settle_ok env.cancelled laws.commit s (scope (laws.begin s)) h.result) (
            ended env.cancelled (st.in_transaction s) env p s (laws.commit (scope (laws.begin s)).1)
              o
              (laws.view-commit (scope (laws.begin s)).1 h.plain
                ∙ h.seen
                ∙ ap (commit_all p) (laws.view-begin s o)))))

  at_begin :
      (s : S) (k : String)
      → st.in_transaction s ≡ false
      → (laws.view (laws.begin s)).tasks k ≡ (laws.view s).tasks k
  at_begin s k o = ap (λ (v : View). v.tasks k) (laws.view-begin s o)

  refines_found :
      (env : Env) (req : TaskRequest) (step : Step) (s : S) (current : Task)
      → st.in_transaction s ≡ false
      → IsKeyed (laws.view s)
      → KeepsId step
      → (req.task_id == "") ≡ false
      → (laws.view s).tasks req.task_id ≡ some current
      → seen (mutate st env req step s)
        ≡ conclude env.cancelled env (plan_found env req step current) (laws.view s)
  refines_found env req step s current o keyed keeps i e =
      let e' = at_begin s req.task_id o ∙ e in
      elim (Result-cases (check_version req current)) [
        | inr (x, c) ↦ rw c (
            scope_failed env req step s o i
              (scope_stale st laws env req step (laws.begin s) current e' c))
        | inl (_, c) ↦ elim (Result-cases (step current env.now)) [
          | inr (x, d) ↦
              rw (c, d)
                (scope_failed env req step s o i
                  (scope_refused st laws env req step (laws.begin s) current e' c d))
          | inl (p, d) ↦ elim (Result-cases (stamp env 0 p.1)) [
            | inr (x, h) ↦
                rw (c, d, h)
                  (scope_failed env req step s o i (
                    scope_unstamped st laws env req step (laws.begin s) current p
                      (laws.begin-open s) (laws.begin-IsPlain s) e' c d
                      (keeps current env.now p d ∙ keyed req.task_id current e) h))
            | inl (es, h) ↦
                rw (c, d, h)
                  (scope_ended env req step s (p.0, es, p.2) o i
                    (scope-Ends st laws env req step (laws.begin s) current p es (laws.begin-open s)
                      (laws.begin-IsPlain s) e' c d
                      (keeps current env.now p d ∙ keyed req.task_id current e) h))
          ]
        ]
      ]

  -- From a state with no transaction open, an operation that begins its own is one atomic step of
  -- the specification: an error of any kind, or a cancellation, leaves what clients see as it was,
  -- and a success writes the task, its records and its stamped events together. The tasks stand
  -- under their identifiers, and the step does not rename its task.
  pub mutate-refines :
      (env : Env) (req : TaskRequest) (step : Step) (s : S)
      → st.in_transaction s ≡ false
      → IsKeyed (laws.view s)
      → KeepsId step
      → seen (mutate st env req step s) ≡ mutate_spec env req step (laws.view s)
  mutate-refines env req step s o keyed keeps = elim (Bool-cases (req.task_id == "")) [
    | inl i ↦ unfold mutate in rw i
    | inr i ↦ elim (Option-cases ((laws.view s).tasks req.task_id)) [
      | inl e ↦
          rw (i, e)
            (scope_failed env req step s o i
              (scope_missing st laws env req step (laws.begin s) (at_begin s req.task_id o ∙ e)))
      | inr (current, e) ↦ rw (i, e) (refines_found env req step s current o keyed keeps i e)
    ]
  ]
