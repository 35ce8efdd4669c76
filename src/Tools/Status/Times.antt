-- ===== src/Tools/Status/Times.antt =====
-- The tools that set the status keep completion times and statuses in step.
use claude_todo.Prelude.{
  ℕ, String, ◌≡◌, refl, sym, subst, ◌∙◌, Bool, not, ◌||◌, Option, none, some, List, arith, nat_eq,
  string_eq, inl, inr, Bool-cases, some_injective,
}
use claude_todo.Tasks.Model.{Task, todo, done, is_done, touch}
use claude_todo.Tasks.Model.Timed.{IsTimed}
use claude_todo.Tasks.Collection.{Collection, save_cases}
use claude_todo.Tools.{Answer, answer, error, check_task}
use claude_todo.Tools.Status.{
  Notice, Reply, set_status, report, completed_task, has_report, report_too_long, on_checked,
  with_task, complete, complete_task, reopen_task,
}

module _ (c : Collection) where
  -- Every stored task has a completion time exactly when it is done.
  pub record AllTimed (s : c.Store) : Type 0 where
    pub at : (i : String) (t : Task) → c.get s i ≡ some t → IsTimed t

module _ (c : Collection) (may locked : String → Bool) where
  saved :
      (now : ℕ) (task : Task) (s : c.Store)
      → AllTimed c s
      → IsTimed task
      → AllTimed c (c.save s (touch now task)).1
  saved now task s all timed = record {
    at = λ i t stored. elim (save_cases c s (touch now task) i) [
      | inl kept ↦ all.at i t (sym kept ∙ stored)
      | inr (same, written) ↦ subst IsTimed (some_injective (sym written ∙ stored)) timed
    ];
  }

  report-IsTimed : (r : Option String) (task : Task) → IsTimed task → IsTimed (report r task)
  report-IsTimed none task h = h
  report-IsTimed (some text) task h = h

  completed-IsTimed :
      (r : Option String) (actor : String) (now : ℕ) (task : Task)
      → IsTimed task
      → IsTimed (completed_task r actor now task)
  completed-IsTimed r actor now task h = elim (Bool-cases (is_done task.status)) [
    | inl was ↦ simp was (report-IsTimed r task h)
    | inr open_still ↦
        simp open_still (report-IsTimed r (set_status done (some now) actor now task) refl)
  ]

  pub check_task-stored :
      (task_id : String) (s : c.Store) (task : Task)
      → check_task c may locked s task_id ≡ answer task
      → c.get s task_id ≡ some task
  check_task-stored task_id s task checked = go (c.get s task_id) refl
    where
      go : (o : Option Task) → c.get s task_id ≡ o → o ≡ some task
      go none e = absurd (ground (arith, e, checked))
      go (some t) e = ground (arith, e, checked)

  with_task-AllTimed :
      (task_id : String) (s : c.Store) (change : Task → Reply × c.Store × List Notice)
      → AllTimed c s
      → ((task : Task) → IsTimed task → AllTimed c (change task).1)
      → AllTimed c (with_task c may locked task_id s change).1
  with_task-AllTimed task_id s change all keeps = go (check_task c may locked s task_id) refl
    where
      go :
          (o : Answer Task)
          → check_task c may locked s task_id ≡ o
          → AllTimed c (on_checked c may locked s change o).1
      go (error e) checked = all
      go (answer task) checked =
          keeps task (all.at task_id task (check_task-stored task_id s task checked))

  -- If every stored task has a completion time exactly when it is done, so has every one after
  -- `complete_task`, whatever its arguments and its outcome.
  pub complete_task-AllTimed :
      (now : ℕ) (actor task_id : String) (completion_report : Option String) (s : c.Store)
      → AllTimed c s
      → AllTimed c (complete_task c may locked now actor task_id completion_report s).1
  unfolding complete_task
  complete_task-AllTimed now actor task_id completion_report s all =
      elim (Bool-cases (report_too_long completion_report)) [
        | inl long ↦ simp long all
        | inr short ↦ simp short (
            with_task-AllTimed task_id s (complete c may locked now actor completion_report s) all
              one)
      ]
    where
      one :
          (task : Task)
          → IsTimed task
          → AllTimed c (complete c may locked now actor completion_report s task).1
      one task timed =
          elim (Bool-cases (not (is_done task.status) || has_report completion_report)) [
            | inr nothing ↦ simp nothing all
            | inl some_change ↦ simp some_change (
                saved now (completed_task completion_report actor now task) s all
                  (completed-IsTimed completion_report actor now task timed))
          ]

  -- If every stored task has a completion time exactly when it is done, so has every one after
  -- `reopen_task`, whatever its arguments and its outcome.
  pub reopen_task-AllTimed :
      (now : ℕ) (actor task_id : String) (s : c.Store)
      → AllTimed c s
      → AllTimed c (reopen_task c may locked now actor task_id s).1
  unfolding reopen_task
  reopen_task-AllTimed now actor task_id s all =
      with_task-AllTimed task_id s _ all
        (λ task timed. saved now (set_status todo none actor now task) s all refl)

  -- If every stored task has a completion time exactly when it is done, so has every one after
  -- `complete_task` and after `reopen_task`, whatever their arguments and their outcome.
  pub status_tools-AllTimed :
      (now : ℕ) (actor task_id : String) (completion_report : Option String) (s : c.Store)
      → AllTimed c s
      → AllTimed c (complete_task c may locked now actor task_id completion_report s).1
        × AllTimed c (reopen_task c may locked now actor task_id s).1
  status_tools-AllTimed now actor task_id completion_report s all = (
    complete_task-AllTimed now actor task_id completion_report s all,
    reopen_task-AllTimed now actor task_id s all,
  )
