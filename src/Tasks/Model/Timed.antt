-- ===== src/Tasks/Model/Timed.antt =====
-- The completion time and the status of a task.
use claude_todo.Prelude.{
  ℕ, ◌≡◌, refl, Bool, true, false, Option, none, some, arith, nat_eq, string_eq, if◌then◌else◌,
}
use claude_todo.Tasks.Model.{Task, TaskStatus, is_done, transition_status}

abbrev pub is_some : Option ℕ → Bool
is_some none = false
is_some (some n) = true

-- A task has a completion time exactly when it is done.
abbrev pub IsTimed : Task → Type 0
IsTimed t = is_some t.completed_at ≡ is_done t.status

-- `transition_status` sets the status, and leaves a task with a completion time exactly when it is
-- done. A task that was done and stays done keeps its time, and one that becomes done gets the
-- time of the call.
pub transition_status-IsTimed :
    (new_status : TaskStatus) (now : ℕ) (t : Task)
    → IsTimed t
    → IsTimed (transition_status new_status now t)
      × ((transition_status new_status now t).status ≡ new_status)
      × (is_done new_status ≡ true
          → (transition_status new_status now t).completed_at
            ≡ (if is_done t.status then t.completed_at else some now))
unfolding transition_status
transition_status-IsTimed new_status now t timed = (ground arith, refl, λ h. ground arith)
