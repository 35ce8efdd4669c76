-- ===== src/Tools/Delete.antt =====
-- What `delete_task` and `link_tasks` leave.
use claude_todo.Prelude.{
  ℕ, String, ◌≡◌, refl, sym, ap, subst, ◌∙◌, Bool, true, false, some, List, [], ◌∷◌, string_eq,
  contains, arith, inl, inr, Bool-cases, Elem, some_injective,
}
use claude_todo.Tasks.Model.{Task, touch}
use claude_todo.Tasks.Collection.{Collection, save_cases}
use claude_todo.Tasks.Graph.{live_in, Blocks, IsAcyclic}
use claude_todo.Tasks.Link.{Result, ok, err, link, list_dependents, cleanup_dependents, depends_on}
use claude_todo.Tasks.Link.Acyclic.{link-IsAcyclic}
use claude_todo.Tasks.Link.Cleanup.{cleanup_clears}
use claude_todo.Tools.{
  Answer, answer, error, check_task, finish, after_cleanup, delete_with, delete_checked,
  answer_checked, delete_task, check_ends, link_tasks, Event,
}

module _ (c : Collection) (may locked : String → Bool) where
  -- If the `blocks` lists of the live tasks of a project hold no cycle, they hold none after
  -- `link_tasks`, whatever its arguments, the rights of the caller and its outcome.
  pub link_tasks-IsAcyclic :
      (now : ℕ) (actor relation source_id target_id project_id : String) (s : c.Store)
      → IsAcyclic (Blocks c s project_id)
      → IsAcyclic
          (Blocks c (link_tasks c may locked now actor relation source_id target_id s).1 project_id)
  unfolding link_tasks
  link_tasks-IsAcyclic now actor relation source_id target_id project_id s acyclic =
      go _ (link c now actor relation source_id target_id s)
        (check_ends c may locked s relation source_id target_id) linked
    where
      linked : IsAcyclic (Blocks c (link c now actor relation source_id target_id s).1 project_id)
      linked = link-IsAcyclic c now actor relation source_id target_id project_id s acyclic

      go :
          (e : Event) (o : Result (Task × Task) × c.Store) (checked : Answer Task)
          → IsAcyclic (Blocks c o.1 project_id)
          → IsAcyclic (Blocks c (answer_checked c may locked e o checked s).1 project_id)
      go e o (error x) h = acyclic
      go e (err x, s') (answer source) h = h
      go e (ok (a, b), s') (answer source) h = h

  -- The state before the write has no dependents; the task that is written is deleted.
  finished :
      (now : ℕ) (task_id : String) (task : Task) (cleaned : List Task) (s : c.Store) (i : String)
      (t : Task)
      → ((u : Task)
          → c.get s i ≡ some u
          → live_in task.project_id u ≡ true
          → contains u.blocked_by task_id ≡ false)
      → c.get (finish c may locked now task_id task cleaned s).1 i ≡ some t
      → live_in task.project_id t ≡ true
      → contains t.blocked_by task_id ≡ false
  finished now task_id task cleaned s i t clear at live =
      elim (save_cases c s (touch now (record task { is_deleted = true })) i) [
        | inl kept ↦ clear t (sym kept ∙ at) live
        | inr (same, written) ↦ absurd (
            gone (
              subst (λ (u : Task). live_in task.project_id u ≡ true)
                (some_injective (sym at ∙ written)) live))
      ]
    where
      gone : live_in task.project_id (touch now (record task { is_deleted = true })) ≡ true → ⊥
      gone h = ground (arith, h)

  -- When `delete_task` succeeds, with or without force, for a task that the caller may delete, no
  -- live task of the task's project lists it in `blocked_by`.
  pub delete_task_clears :
      (now : ℕ) (actor task_id : String) (force : Bool) (s : c.Store) (task : Task)
      (cleaned : List Task) (i : String) (t : Task)
      → check_task c may locked s task_id ≡ answer task
      → (delete_task c may locked now actor task_id force s).0 ≡ answer cleaned
      → c.get (delete_task c may locked now actor task_id force s).1 i ≡ some t
      → live_in task.project_id t ≡ true
      → contains t.blocked_by task_id ≡ false
  unfolding delete_task list_dependents
  delete_task_clears now actor task_id force s task cleaned i t checked h at live =
      let same = ap (λ o. delete_checked c may locked now actor task_id force o s) checked in
      go (list_dependents c task.project_id task_id s) refl (sym (ap (λ o. o.0) same) ∙ h)
        (sym (ap (λ o. c.get o.1 i) same) ∙ at)
    where
      none_depends :
          list_dependents c task.project_id task_id s ≡ []
          → (u : Task) → c.get s i ≡ some u
          → live_in task.project_id u ≡ true
          → contains u.blocked_by task_id ≡ false
      none_depends empty u stored alive = elim (Bool-cases (contains u.blocked_by task_id)) [
        | inr absent ↦ absent
        | inl lists ↦
            let fits : depends_on c task.project_id task_id u ≡ true =
              ground (arith, alive, lists) in
            absurd (
              subst (Elem u) empty
                (c.find_complete s (depends_on c task.project_id task_id) i u stored fits))
      ]

      cleaned_up :
          (o : Result (List Task) × c.Store)
          → cleanup_dependents c now task_id task.project_id actor s ≡ o
          → (after_cleanup c may locked now task_id task o).0 ≡ answer cleaned
          → c.get (after_cleanup c may locked now task_id task o).1 i ≡ some t
          → contains t.blocked_by task_id ≡ false
      cleaned_up (err e, s') eq k l = cc
      cleaned_up (ok done, s') eq k l =
          finished now task_id task done s' i t
            (λ u stored alive.
              cleanup_clears c now task_id task.project_id actor s done i u (ap (λ o. o.0) eq)
                (ap (λ o. c.get o.1 i) eq ∙ stored) alive)
            l live

      go :
          (deps : List Task)
          → list_dependents c task.project_id task_id s ≡ deps
          → (delete_with c may locked now actor task_id force task deps s).0 ≡ answer cleaned
          → c.get (delete_with c may locked now actor task_id force task deps s).1 i ≡ some t
          → contains t.blocked_by task_id ≡ false
      go [] eq k l = finished now task_id task [] s i t (none_depends eq) l live
      go (d ∷ ds) eq k l = elim (Bool-cases force) [
        | inl forced ↦ cleaned_up _ refl (simp forced at k) (simp forced at l)
        | inr unforced ↦ absurd (cc (simp unforced at k))
      ]
