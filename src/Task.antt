-- ===== src/Task.antt =====
-- task.go, correlation.go and escalation_policy.go: the task aggregate and its parts.
-- A time is the number of nanoseconds since Go's zero time, in UTC. A payload is its text. A copy
-- of a value is the value: the model has no aliasing, so `Clone` is the identity.
use hmntsk.Prelude.{
  ℕ, ◌+◌, ◌-◌, ◌%◌, String, ◌==◌, Bool, true, false, ◌&&◌, ◌||◌, not, List, [], ◌∷◌, Option, none,
  some, ℤ, pos, negsuc, eqb_ℤ, ltb, is_nil, if◌then◌else◌,
}
use hmntsk.Status.{Status, same, suspended, is_terminal}

abbrev pub Time : Type 0
Time = ℕ

-- NormalizeTime: whole microseconds.
unfoldable pub normalize_time : Time → Time
normalize_time ts = ts - ts % 1000

unfoldable pub normalize_time_ptr : Option Time → Option Time
unfolding normalize_time
normalize_time_ptr none = none
normalize_time_ptr (some ts) = some (normalize_time ts)

-- now.Add(duration)
abbrev pub add_duration : Time → ℤ → Time
add_duration t (pos d) = t + d
add_duration t (negsuc d) = t - (d + 1)

pub record CandidatePool : Type 0 where
  pub users : List String
  pub groups : List String
  pub excluded : List String

unfoldable pub pool_is_empty : CandidatePool → Bool
pool_is_empty p = is_nil p.users && is_nil p.groups

pub data EscalationAction : Type 0 where
  notify widen supersede : EscalationAction

pub record EscalationPolicy : Type 0 where
  pub action : EscalationAction
  pub add_users : List String
  pub add_groups : List String
  pub exempt_in_progress : Bool
  pub max_escalations : ℤ

pub record CorrelationData : Type 0 where
  pub owner_type : String
  pub owner_ref : String
  pub activity_key : String
  pub extra : List (String × String)

pub record CallbackTarget : Type 0 where
  pub address : String
  pub reference_parameters : String

pub record Task : Type 0 where
  pub id : String
  pub task_type : String
  pub version : ℤ
  pub status : Status
  pub suspended_from : Status
  pub priority : ℤ
  pub assignee : String
  pub candidates : CandidatePool
  pub correlation : CorrelationData
  pub callback : Option CallbackTarget
  pub escalation : Option EscalationPolicy
  pub input : String
  pub progress : String
  pub output : String
  pub reason : String
  pub created_by : String
  pub escalation_count : ℤ
  pub created_at : Time
  pub updated_at : Time
  pub due_at : Option Time
  pub started_at : Option Time
  pub closed_at : Option Time
  pub escalated_at : Option Time
  pub locked_by : String
  pub locked_until : Option Time

unfoldable pub normalize : Task → Task
unfolding normalize_time normalize_time_ptr
normalize t = record t {
  created_at = normalize_time t.created_at;
  updated_at = normalize_time t.updated_at;
  due_at = normalize_time_ptr t.due_at;
  started_at = normalize_time_ptr t.started_at;
  closed_at = normalize_time_ptr t.closed_at;
  escalated_at = normalize_time_ptr t.escalated_at;
  locked_until = normalize_time_ptr t.locked_until;
}

-- now.Before(*t), false for nil.
abbrev pub before : Time → Option Time → Bool
before now none = false
before now (some t) = ltb now t

abbrev overdue_at : Option Time → Time → Bool
overdue_at none now = false
overdue_at (some due) now = not (ltb now due)

unfoldable pub is_overdue : Task → Time → Bool
is_overdue t now =
    if is_terminal t.status || same t.status suspended then false else overdue_at t.due_at now

unfoldable pub is_leased : Task → Time → Bool
is_leased t now = before now t.locked_until

-- Two pools name the same actors, order included.
abbrev pub same_list : List String → List String → Bool
same_list [] [] = true
same_list (x ∷ xs) (y ∷ ys) = x == y && same_list xs ys
same_list xs ys = false

unfoldable pub pool_equal : CandidatePool → CandidatePool → Bool
pool_equal p q =
    same_list p.users q.users && same_list p.groups q.groups && same_list p.excluded q.excluded

abbrev same_action : EscalationAction → EscalationAction → Bool
same_action notify notify = true
same_action widen widen = true
same_action supersede supersede = true
same_action a b = false

abbrev same_bool : Bool → Bool → Bool
same_bool true b = b
same_bool false b = not b

unfoldable pub policy_equal : Option EscalationPolicy → Option EscalationPolicy → Bool
policy_equal none none = true
policy_equal (some p) (some q) =
    same_action p.action q.action
    && same_bool p.exempt_in_progress q.exempt_in_progress
    && eqb_ℤ p.max_escalations q.max_escalations
    && same_list p.add_users q.add_users
    && same_list p.add_groups q.add_groups
policy_equal p q = false
