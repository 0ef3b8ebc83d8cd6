-- ===== src/Sweep.antt =====
-- sweep.go: which overdue tasks are left alone, and ClaimOverdue of memstore/memstore.go, which
-- leases a batch of overdue tasks to one sweeper. The sweep's loop over the batch is not modelled.
pub mod Leases
pub mod Exemptions
use hmntsk.Prelude.{
  ℕ, zero, suc, String, ◌==◌, Bool, true, false, ◌&&◌, ◌||◌, not, List, [], ◌∷◌, Option, none, some,
  ℤ, pos, ltb_ℤ, leb_ℤ, to_ℕ, is_nil, contains, str_ltb, Map, put, if◌then◌else◌,
}
use hmntsk.Status.{suspended, in_progress, same, is_terminal}
use hmntsk.Errors.{Result, ok, err, configuration_error}
use hmntsk.Task.{
  Task, Time, EscalationPolicy, normalize, normalize_time, add_duration, is_overdue, is_leased,
}
use hmntsk.Store.{M}
use hmntsk.Memstore.{World, Tx, merge}

pub record LeaseRequest : Type 0 where
  pub now : Time
  pub owner : String
  pub duration : ℤ
  pub limit : ℤ
  pub types : List String

-- The reason why a task is not escalated, or the empty text.
unfoldable pub exemption : Task → Option EscalationPolicy → String
unfolding is_terminal
exemption t policy =
    if is_terminal t.status
    then "the task is already closed"
    else if same t.status suspended
    then "the task is suspended"
    else elim policy [
      | none ↦ ""
      | some p ↦
          if p.exempt_in_progress && same t.status in_progress
          then "the policy exempts work already started"
          else if ltb_ℤ (pos 0) p.max_escalations && leb_ℤ p.max_escalations t.escalation_count
          then "the task has been escalated as often as its policy allows"
          else ""
    ]

-- The service's defaults: five minutes, a hundred tasks, and the clock's reading.
unfoldable pub with_defaults : Time → LeaseRequest → LeaseRequest
with_defaults clock l = record {
  now = if is_zero l.now then clock else l.now;
  owner = l.owner;
  duration = if leb_ℤ l.duration (pos 0) then pos 300000000000 else l.duration;
  limit = if leb_ℤ l.limit (pos 0) then pos 100 else l.limit;
  types = l.types;
}
  where
    is_zero : Time → Bool
    is_zero zero = true
    is_zero (suc n) = false

unfoldable pub claimable : LeaseRequest → Time → Task → Bool
claimable l now t =
    if not (is_overdue t now) || is_leased t now
    then false
    else if not (is_nil l.types) && not (contains l.types t.task_type)
    then false
    else true

unfoldable pub leased : LeaseRequest → Time → Task → Task
leased l now t =
    normalize (record t { locked_by = l.owner; locked_until = some (add_duration now l.duration) })

-- The loop over the candidates: at most so many are claimed.
unfoldable pub claim_batch : LeaseRequest → Time → ℕ → List Task → List Task
claim_batch l now zero ts = []
claim_batch l now (suc n) [] = []
claim_batch l now (suc n) (t ∷ ts) = elim (claimable l now t) [
  | true ↦ leased l now t ∷ claim_batch l now n ts
  | false ↦ claim_batch l now (suc n) ts
]

-- sort.Slice by the identifier.
unfoldable pub insert_task : Task → List Task → List Task
insert_task t [] = t ∷ []
insert_task t (u ∷ us) = if str_ltb u.id t.id then u ∷ insert_task t us else t ∷ u ∷ us

unfoldable pub sort_tasks : List Task → List Task
unfolding insert_task
sort_tasks [] = []
sort_tasks (t ∷ ts) = insert_task t (sort_tasks ts)

abbrev pub values : Map Task → List Task
values [] = []
values ((k, t) ∷ m) = t ∷ values m

unfoldable pub stage_all : Map Task → List Task → Map Task
stage_all m [] = m
stage_all m (t ∷ ts) = stage_all (put m t.id t) ts

abbrev pub batch_limit : LeaseRequest → ℕ
batch_limit l = if leb_ℤ l.limit (pos 0) then 100 else to_ℕ l.limit

unfoldable pub claim_overdue : LeaseRequest → M World (List Task)
unfolding normalize_time claim_batch stage_all sort_tasks
claim_overdue l w = elim w.tx [
  | none ↦ (err (configuration_error "claimoverdue must run inside a transaction"), w)
  | some t ↦
      let claimed =
        claim_batch l (normalize_time l.now) (batch_limit l)
          (sort_tasks (values (merge w.committed.tasks t.tasks))) in
      (ok claimed, record w { tx = some (record t { tasks = stage_all t.tasks claimed }) })
]
