-- ===== src/Tools/Bulk/Reported.antt =====
-- What the tools for several tasks keep.
use claude_todo.Prelude.{
  ℕ, String, ◌≡◌, refl, sym, subst, ◌∙◌, inl, inr, Bool, Option, none, some, List, [], ◌∷◌, map,
  string_eq, nat_eq, Bool-cases, some_injective, All, All-Elem,
}
use claude_todo.Tasks.Model.{Task, is_done}
use claude_todo.Tasks.Collection.{Collection}
use claude_todo.Tasks.Gather.{gather_cases}
use claude_todo.Tools.{Answer, answer, error, check_task}
use claude_todo.Tools.Status.{report}
use claude_todo.Tools.Status.Times.{check_task-stored}
use claude_todo.Tools.Update.{due_of}
use claude_todo.Tools.Update.Kept.{
  IsSettled, AllSettled, moved_to-IsTimed, flags_decided, cascade-AllSettled,
}
use claude_todo.Tools.Bulk.{
  Changed, changed, rejected, Job, BatchItem, add_changed, completed_now, archived_now, with_due,
  change_item, has_others, has_parent_field, bad_value, job_of, change_checked, prepare_one,
  prepare, run_jobs, bulk_complete_tasks, bulk_archive_tasks, wants_cascade, item_name, cascades,
  batch_update_tasks,
}

-- A change that leaves a settled task settled.
abbrev pub KeepsSettled : (Task → Changed) → Type 0
KeepsSettled change = (t u : Task) → IsSettled t → change t ≡ changed u → IsSettled u

changed_injective : (t u : Task) → changed t ≡ changed u → t ≡ u
changed_injective t u h = cc

module _ (c : Collection) (may locked : String → Bool) where
  prepare_one-IsSettled :
      (s : c.Store) (task_id : Option String) (change : Task → Changed) (u : Task)
      → AllSettled c s
      → KeepsSettled change
      → prepare_one c may locked s task_id change ≡ changed u
      → IsSettled u
  prepare_one-IsSettled s none change u all keeps e = cc
  prepare_one-IsSettled s (some task_id) change u all keeps e =
      go (check_task c may locked s task_id) refl e
    where
      go :
          (o : Answer Task)
          → check_task c may locked s task_id ≡ o
          → change_checked c may locked change o ≡ changed u
          → IsSettled u
      go (error failure) checked made = cc
      go (answer task) checked made =
          keeps task u (all.at task_id task (check_task-stored c may locked task_id s task checked))
            made

  prepare-IsSettled :
      (s : c.Store) (jobs : List Job)
      → AllSettled c s
      → All (λ (j : Job). KeepsSettled j.change) jobs
      → All IsSettled (prepare c may locked s jobs).ready
  unfolding prepare
  prepare-IsSettled s [] all keeps = tt
  prepare-IsSettled s (job ∷ jobs) all keeps =
      go (prepare_one c may locked s job.task_id job.change) refl
        (prepare-IsSettled s jobs all keeps.1)
    where
      go :
          (r : Changed)
          → prepare_one c may locked s job.task_id job.change ≡ r
          → All IsSettled (prepare c may locked s jobs).ready
          → All IsSettled (add_changed job.task_id r (prepare c may locked s jobs)).ready
      go (changed task) e later =
          (prepare_one-IsSettled s job.task_id job.change task all keeps.0 e, later)
      go (rejected failure) e later = later

  run_jobs-AllSettled :
      (now : ℕ) (s : c.Store) (jobs : List Job)
      → AllSettled c s
      → All (λ (j : Job). KeepsSettled j.change) jobs
      → AllSettled c (run_jobs c may locked now s jobs).1
  unfolding run_jobs
  run_jobs-AllSettled now s jobs all keeps = record {
    at = λ i t stored.
        let p = prepare c may locked s jobs in
        elim (gather_cases c now s p.ready i) [
          | inl same ↦ all.at i t (sym same ∙ stored)
          | inr (m, listed, at, wrote) ↦
              let settled =
                All-Elem IsSettled m p.ready (prepare-IsSettled s jobs all keeps) listed in
              subst IsSettled (some_injective (sym wrote ∙ stored))
                (record { timed = settled.timed; decided = settled.decided })
        ];
  }

  completed_now-KeepsSettled :
      (now : ℕ) (completion_report : Option String)
      → KeepsSettled (completed_now now completion_report)
  completed_now-KeepsSettled now r t u h e =
      subst IsSettled (changed_injective _ u e) (elim (Bool-cases (is_done t.status)) [
        | inl was ↦ simp was (reported r t h)
        | inr open_still ↦
            simp open_still (reported r _ (record { timed = refl; decided = h.decided }))
      ])
    where
      reported : (o : Option String) (x : Task) → IsSettled x → IsSettled (report o x)
      reported none x k = k
      reported (some text) x k = record { timed = k.timed; decided = k.decided }

  archived_now-KeepsSettled : KeepsSettled archived_now
  archived_now-KeepsSettled t u h e =
      subst IsSettled (changed_injective _ u e) (record { timed = h.timed; decided = h.decided })

  change_item-KeepsSettled :
      (parse_date : String → Option ℕ) (now : ℕ) (item : BatchItem)
      → KeepsSettled (change_item parse_date now item)
  change_item-KeepsSettled parse_date now item t u h e =
      elim (Bool-cases (has_others item.other_fields)) [
        | inl others ↦ cc (rw others at e)
        | inr no_others ↦ elim (Bool-cases (has_parent_field item.changes.parent_task_id)) [
          | inl parent ↦ cc (rw (no_others, parent) at e)
          | inr no_parent ↦ elim (Bool-cases (bad_value item.changes)) [
            | inl bad ↦ cc (rw (no_others, no_parent, bad) at e)
            | inr good ↦
                made (due_of parse_date item.changes.due_date)
                  (rw (no_others, no_parent, good) at e)
          ]
        ]
      ]
    where
      made :
          (o : Option (Option (Option ℕ)))
          → with_due parse_date now item t o ≡ changed u
          → IsSettled u
      made none k = cc
      made (some due_date) k = subst IsSettled (changed_injective _ u k) (record {
        timed = moved_to-IsTimed item.changes.status now t h.timed;
        decided =
            flags_decided item.changes.approved item.changes.needs_detail t.approved t.needs_detail
              h.decided;
      })

  cascades-AllSettled :
      (now : ℕ) (actor : String) (saved_ids : List String) (items : List BatchItem) (s : c.Store)
      → AllSettled c s
      → AllSettled c (cascades c may locked now actor saved_ids items s)
  unfolding cascades
  cascades-AllSettled now actor saved_ids [] s all = all
  cascades-AllSettled now actor saved_ids (item ∷ items) s all =
      cascades-AllSettled now actor saved_ids items _
        (elim (Bool-cases (wants_cascade c may locked saved_ids item)) [
          | inl wanted ↦ simp wanted (cascade-AllSettled c actor now s (item_name item.task_id) all)
          | inr other ↦ simp other all
        ])

  mapped :
      {A : Type 0} (f : A → Job) (xs : List A)
      → ((a : A) → KeepsSettled (f a).change)
      → All (λ (j : Job). KeepsSettled j.change) (map f xs)
  mapped f [] keeps = tt
  mapped f (x ∷ xs) keeps = (keeps x, mapped f xs keeps)

  -- If every stored task has a completion time exactly when it is done, and none is both approved
  -- and in need of detail, then the same holds after `bulk_complete_tasks`, `bulk_archive_tasks` and
  -- `batch_update_tasks`, whatever their arguments and whichever writes raise.
  pub bulk_tools-AllSettled :
      (parse_date : String → Option ℕ) (now : ℕ) (actor : String) (task_ids : List String)
      (completion_report : Option String) (items : List BatchItem) (s : c.Store)
      → AllSettled c s
      → AllSettled c (bulk_complete_tasks c may locked now task_ids completion_report s).1
        × AllSettled c (bulk_archive_tasks c may locked now task_ids s).1
        × AllSettled c (batch_update_tasks c may locked parse_date now actor items s).1
  bulk_tools-AllSettled parse_date now actor task_ids completion_report items s all = (
    run_jobs-AllSettled now s _ all
        (mapped _ task_ids (λ task_id. completed_now-KeepsSettled now completion_report)),
    run_jobs-AllSettled now s _ all (mapped _ task_ids (λ task_id. archived_now-KeepsSettled)),
    cascades-AllSettled now actor _ items _ (
        run_jobs-AllSettled now s _ all (
          mapped (job_of parse_date now) items
            (λ item. change_item-KeepsSettled parse_date now item))),
  )
