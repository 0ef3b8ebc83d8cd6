-- ===== src/Scenarios.antt =====
-- Sample tasks, pools and directories, and the runs on them.
mod Mails
mod Moves
mod Notes
mod Pools
mod Requests
mod Stores
mod Inboxes
mod Tables
mod Deliveries
mod Pages
use hmntsk.Prelude.{String, ◌==◌, ◌≡◌, ℕ, List, [], ◌∷◌, none, some, pos, refl}
use hmntsk.Status.{
  created, ready, reserved, in_progress, suspended, exited, unset, valid, is_suspendable,
  is_terminal,
}
use hmntsk.Task.{Task, CandidatePool}
use hmntsk.Lifecycle.Invariant.{IsWellFormed}

abbrev pub two_users : CandidatePool
two_users = record { users = "ann" ∷ "bob" ∷ []; groups = []; excluded = [] }

abbrev pub new_one : Task
new_one = record {
  id = "t1";
  task_type = "review";
  version = pos 1;
  status = created;
  suspended_from = unset;
  priority = pos 5;
  assignee = "";
  candidates = two_users;
  correlation = record { owner_type = ""; owner_ref = ""; activity_key = ""; extra = [] };
  callback = none;
  escalation = none;
  input = "{}";
  progress = "{}";
  output = "";
  reason = "";
  created_by = "sys";
  escalation_count = pos 0;
  created_at = 1000;
  updated_at = 1000;
  due_at = none;
  started_at = none;
  closed_at = none;
  escalated_at = none;
  locked_by = "";
  locked_until = none;
}

abbrev pub offered : Task
offered = record new_one { status = ready }

abbrev pub held : Task
held = record new_one { status = reserved; assignee = "ann" }

abbrev pub worked : Task
worked = record held { status = in_progress; started_at = some 2000 }

abbrev pub parked : Task
parked = record held { status = suspended; suspended_from = reserved }

abbrev pub ended : Task
ended = record offered { status = exited; closed_at = some 3000 }

pub offered-IsWellFormed : IsWellFormed offered
unfolding valid is_suspendable is_terminal
offered-IsWellFormed = record {
  known = refl;
  parked = λ h. cc;
  not_parked = λ h. refl;
  pooled = λ h. refl;
  held = λ h. cc;
  worked = λ h. cc;
  closed = refl;
  unleased = λ h. cc;
}

pub held-IsWellFormed : IsWellFormed held
unfolding valid is_suspendable is_terminal
held-IsWellFormed = record {
  known = refl;
  parked = λ h. cc;
  not_parked = λ h. refl;
  pooled = λ h. cc;
  held = λ h. refl;
  worked = λ h. cc;
  closed = refl;
  unleased = λ h. cc;
}

pub parked-IsWellFormed : IsWellFormed parked
unfolding valid is_suspendable is_terminal
parked-IsWellFormed = record {
  known = refl;
  parked = λ h. refl;
  not_parked = λ h. cc;
  pooled = λ h. cc;
  held = λ h. refl;
  worked = λ h. cc;
  closed = refl;
  unleased = λ h. cc;
}
