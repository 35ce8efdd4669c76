-- ===== src/Tools/Update/Kept.antt =====
-- What `update_task` keeps.
use claude_todo.Prelude.{
  ℕ, String, ◌≡◌, refl, sym, subst, ◌∙◌, ◌⊎◌, inl, inr, Bool, true, false, not, ◌&&◌, Option, none,
  some, List, ◌==◌, string_eq, nat_eq, if◌then◌else◌, arith, Bool-cases, some_injective,
}
use claude_todo.Tasks.Model.{Task, touch, transition_status}
use claude_todo.Tasks.Model.Timed.{IsTimed, transition_status-IsTimed}
use claude_todo.Tasks.Collection.{Collection, save_cases}
use claude_todo.Tasks.Link.Acyclic.{live_in_project}
use claude_todo.Tasks.Approval.{Cascade, approve, cascade_approve_subtasks}
use claude_todo.Tasks.Approval.Effect.{cascade_kept}
use claude_todo.Tasks.Graph.{Reach, HasParent, IsAcyclic, IsAcyclic-added, live_in}
use claude_todo.Tasks.Parents.{has_parent_cycle}
use claude_todo.Tasks.Parents.Chain.{has_parent_cycle-none_iff}
use claude_todo.Tools.{Answer, answer, error, check_task}
use claude_todo.Tools.Status.Times.{check_task-stored}
use claude_todo.Tools.Update.{
  Changes, UpdateError, status_of, or_old, or_kept, moved_to, is_set, updated_task, due_of,
  cycle_error, check_target, check_new_parent, check_parent, check_arguments, write_update,
  apply_update, unless_error, update_loaded, update_task, UpdateReply, or_blank,
}

-- A task has a completion time exactly when it is done, and is not both approved and in need of
-- detail.
pub record IsSettled (t : Task) : Type 0 where
  pub timed : IsTimed t
  pub decided : (t.approved && t.needs_detail) ≡ false

pub moved_to-IsTimed :
    (name : Option String) (now : ℕ) (t : Task) → IsTimed t → IsTimed (moved_to name now t)
moved_to-IsTimed none now t h = h
moved_to-IsTimed (some name) now t h =
    elim (status_of name)
      as (λ o. IsTimed (elim o [ none ↦ t | some status ↦ transition_status status now t ])) [
        | none ↦ h
        | some status ↦ (transition_status-IsTimed status now t h).0
      ]

pub flags_decided :
    (a n : Option Bool) (was_approved needed : Bool)
    → (was_approved && needed) ≡ false
    → ((if is_set n then false else or_old a was_approved)
        && (if is_set a then false else or_old n needed))
      ≡ false
flags_decided none none was_approved needed h = h
flags_decided none (some true) was_approved needed h = refl
flags_decided none (some false) was_approved needed h = ground arith
flags_decided (some true) none was_approved needed h = refl
flags_decided (some true) (some true) was_approved needed h = refl
flags_decided (some true) (some false) was_approved needed h = refl
flags_decided (some false) none was_approved needed h = refl
flags_decided (some false) (some true) was_approved needed h = refl
flags_decided (some false) (some false) was_approved needed h = refl

updated_task-IsSettled :
    (actor : String) (now : ℕ) (u : Changes) (due_date : Option (Option ℕ)) (t : Task)
    → IsSettled t
    → IsSettled (updated_task actor now u due_date t)
updated_task-IsSettled actor now u due_date t h = record {
  timed = moved_to-IsTimed u.status now t h.timed;
  decided = flags_decided u.approved u.needs_detail t.approved t.needs_detail h.decided;
}

approve-IsSettled :
    (actor : String) (now : ℕ) (t : Task)
    → IsSettled t
    → IsSettled (touch now (approve actor now t))
unfolding approve
approve-IsSettled actor now t h = record { timed = h.timed; decided = refl }

module _ (c : Collection) where
  pub record AllSettled (s : c.Store) : Type 0 where
    pub at : (i : String) (t : Task) → c.get s i ≡ some t → IsSettled t

  save-AllSettled :
      (now : ℕ) (t : Task) (s : c.Store)
      → AllSettled s
      → IsSettled t
      → AllSettled (c.save s (touch now t)).1
  save-AllSettled now t s all settled = record {
    at = λ i u stored. elim (save_cases c s (touch now t) i) [
      | inl kept ↦ all.at i u (sym kept ∙ stored)
      | inr (same, written) ↦
          subst IsSettled (some_injective (sym written ∙ stored))
            (record { timed = settled.timed; decided = settled.decided })
    ];
  }

  pub cascade-AllSettled :
      (actor : String) (now : ℕ) (s : c.Store) (root : String)
      → AllSettled s
      → AllSettled (cascade_approve_subtasks c actor now s root).1
  cascade-AllSettled actor now s root all = record {
    at = λ i u stored.
        let (t, before, made) = cascade_kept c actor now s root i u stored in
        elim made [
          | inl same ↦ subst IsSettled (sym same) (all.at i t before)
          | inr approved ↦
              subst IsSettled (sym approved) (approve-IsSettled actor now t (all.at i t before))
        ];
  }

  -- An edge after a write is one from before, or that of the new document.
  save-HasParent :
      (s : c.Store) (t : Task) (project_id a b : String)
      → HasParent c (c.save s t).1 project_id a b
      → HasParent c s project_id a b
        ⊎ ((t.id ≡ a) × (t.parent_task_id ≡ some b) × (live_in project_id t ≡ true))
  save-HasParent s t project_id a b e = elim (save_cases c s t a) [
    | inl kept ↦
        inl
          (record { task = e.task; stored = sym kept ∙ e.stored; live = e.live; parent = e.parent })
    | inr (same, written) ↦
        let one : e.task ≡ t = some_injective (sym e.stored ∙ written) in
        inr (
          same,
          subst (λ (z : Task). z.parent_task_id ≡ some b) one e.parent,
          subst (λ z. live_in project_id z ≡ true) one e.live,
        )
  ]

  cascade-HasParent :
      (actor : String) (now : ℕ) (s : c.Store) (root project_id a b : String)
      → HasParent c (cascade_approve_subtasks c actor now s root).1 project_id a b
      → HasParent c s project_id a b
  unfolding approve
  cascade-HasParent actor now s root project_id a b e =
      let (t, before, made) = cascade_kept c actor now s root a e.task e.stored in
      elim made [
        | inl same ↦ record {
          task = t;
          stored = before;
          live = subst (λ z. live_in project_id z ≡ true) same e.live;
          parent = subst (λ (z : Task). z.parent_task_id ≡ some b) same e.parent;
        }
        | inr approved ↦ record {
          task = t;
          stored = before;
          live = subst (λ z. live_in project_id z ≡ true) approved e.live;
          parent = subst (λ (z : Task). z.parent_task_id ≡ some b) approved e.parent;
        }
      ]

module _ (c : Collection) (may locked valid_id user_found : String → Bool)
    (parse_date : String → Option ℕ) where
  -- The collection after the write: with or without the cascade.
  write_update_cases :
      (P : c.Store → Type 0) (now : ℕ) (actor : String) (u : Changes) (t : Task) (s : c.Store)
      → P (c.save s (touch now t)).1
      → P (cascade_approve_subtasks c actor now (c.save s (touch now t)).1 t.id).1
      → P (write_update c may locked valid_id user_found parse_date now actor u t s).1
  write_update_cases P now actor u t s plain swept = elim (Bool-cases (c.save s (touch now t)).0) [
    | inr raised ↦ simp raised plain
    | inl saved ↦ elim (Bool-cases (is_set u.approved)) [
      | inl approved ↦ simp (saved, approved) swept
      | inr other ↦ simp (saved, other) plain
    ]
  ]

  unless_error_cases :
      (P : c.Store → Type 0) (s : c.Store) (o : Option UpdateError)
      (go_on : UpdateReply × c.Store × Option Cascade)
      → P s
      → (o ≡ none → P go_on.1)
      → P (unless_error c may locked valid_id user_found parse_date s o go_on).1
  unless_error_cases P s none go_on p next = next refl
  unless_error_cases P s (some e) go_on p next = p

  apply_update_cases :
      (P : c.Store → Type 0) (now : ℕ) (actor : String) (u : Changes) (s : c.Store) (task : Task)
      (o : Option (Option (Option ℕ)))
      → P s
      → ((due_date : Option (Option ℕ))
          → P
              (write_update c may locked valid_id user_found parse_date now actor u
                (updated_task actor now u due_date task)
                s).1)
      → P (apply_update c may locked valid_id user_found parse_date now actor u s task o).1
  apply_update_cases P now actor u s task none p written = p
  apply_update_cases P now actor u s task (some due_date) p written = written due_date

  -- What holds of the collection holds after `update_task`, if it holds after the write of a task
  -- that the checks let through.
  update_task_cases :
      (P : c.Store → Type 0) (now : ℕ) (actor task_id : String) (u : Changes) (s : c.Store)
      → P s
      → ((task : Task) (due_date : Option (Option ℕ))
          → c.get s task_id ≡ some task
          → check_parent c may locked valid_id user_found parse_date s task task_id u.parent_task_id
            ≡ none
          → P
              (write_update c may locked valid_id user_found parse_date now actor u
                (updated_task actor now u due_date task)
                s).1)
      → P (update_task c may locked valid_id user_found parse_date now actor task_id u s).1
  unfolding update_task
  update_task_cases P now actor task_id u s p written =
      unless_error_cases P s (check_arguments u)
        (update_loaded c may locked valid_id user_found parse_date now actor task_id u s
          (check_task c may locked s task_id))
        p (λ e. go (check_task c may locked s task_id) refl)
    where
      go :
          (o : Answer Task)
          → check_task c may locked s task_id ≡ o
          → P (update_loaded c may locked valid_id user_found parse_date now actor task_id u s o).1
      go (error e) checked = p
      go (answer task) checked = unless_error_cases P s _ _ p (λ parent_ok.
          unless_error_cases P s _ _ p (λ decider_ok.
            apply_update_cases P now actor u s task (due_of parse_date u.due_date) p (λ due_date.
              written task due_date (check_task-stored c may locked task_id s task checked)
                parent_ok)))

  -- If every stored task has a completion time exactly when it is done, and none is both approved
  -- and in need of detail, then the same holds after `update_task`, with its cascade, whatever its
  -- arguments and its outcome.
  pub update_task-AllSettled :
      (now : ℕ) (actor task_id : String) (u : Changes) (s : c.Store)
      → AllSettled c s
      → AllSettled c
          (update_task c may locked valid_id user_found parse_date now actor task_id u s).1
  update_task-AllSettled now actor task_id u s all =
      update_task_cases (AllSettled c) now actor task_id u s all (λ task due_date stored parent_ok.
        let changed = updated_task actor now u due_date task in
        let settled =
          updated_task-IsSettled actor now u due_date task (all.at task_id task stored) in
        let plain = save-AllSettled c now changed s all settled in
        write_update_cases (AllSettled c) now actor u changed s plain
          (cascade-AllSettled c actor now (c.save s (touch now changed)).1 changed.id plain))

  -- The parent that the checks let through is no descendant of the task.
  check_target-none :
      (s : c.Store) (task : Task) (task_id parent : String) (o : Option Task)
      → check_target c may locked valid_id user_found parse_date s task task_id parent o ≡ none
      → ¬ Reach (HasParent c s task.project_id) parent task_id
  check_target-none s task task_id parent none h = cc
  check_target-none s task task_id parent (some target) h = elim (Bool-cases target.is_deleted) [
    | inl gone ↦ cc (rw gone at h)
    | inr live ↦ elim (Bool-cases (not (target.project_id == task.project_id))) [
      | inl other ↦ cc (rw (live, other) at h)
      | inr same ↦
          (has_parent_cycle-none_iff c s task.project_id task_id parent).0
            (no_path (has_parent_cycle c task.project_id task_id s parent) (rw (live, same) at h))
    ]
  ]
    where
      no_path :
          (r : Option (List String))
          → cycle_error c may locked valid_id user_found parse_date r ≡ none
          → r ≡ none
      no_path none e = refl
      no_path (some path) e = cc

  check_new_parent-none :
      (s : c.Store) (task : Task) (task_id parent : String)
      → check_new_parent c may locked valid_id user_found parse_date s task task_id (some parent)
        ≡ none
      → ¬ Reach (HasParent c s task.project_id) parent task_id
  check_new_parent-none s task task_id parent h = elim (Bool-cases (parent == task_id)) [
    | inl same ↦ cc (rw same at h)
    | inr apart ↦ check_target-none s task task_id parent (c.get s parent) (rw apart at h)
  ]

  -- The edge that the argument can bring in.
  new_edge :
      (s : c.Store) (task : Task) (task_id b : String) (argument : Option String)
      → check_parent c may locked valid_id user_found parse_date s task task_id argument ≡ none
      → or_kept argument task.parent_task_id ≡ some b
      → (task.parent_task_id ≡ some b)
        ⊎ ((or_blank argument ≡ b) × (¬ Reach (HasParent c s task.project_id) b task_id))
  new_edge s task task_id b none h e = inl e
  new_edge s task task_id b (some text) h e = elim (Bool-cases (text == "")) [
    | inl blank ↦ cc (rw blank at e)
    | inr given ↦
        let same : text ≡ b = some_injective (rw given at e) in
        let none_below = check_new_parent-none s task task_id text (rw given at h) in
        inr (same, subst (λ z. ¬ Reach (HasParent c s task.project_id) z task_id) same none_below)
  ]

  -- If the parents of the live tasks of a project form no cycle, they form none after `update_task`,
  -- whatever its arguments and its outcome.
  pub update_task-IsAcyclic :
      (now : ℕ) (actor task_id project_id : String) (u : Changes) (s : c.Store)
      → IsAcyclic (HasParent c s project_id)
      → IsAcyclic (
          HasParent c
            (update_task c may locked valid_id user_found parse_date now actor task_id u s).1
            project_id)
  update_task-IsAcyclic now actor task_id project_id u s acyclic =
      update_task_cases (λ s'. IsAcyclic (HasParent c s' project_id)) now actor task_id u s acyclic
        (λ task due_date stored parent_ok.
          let changed = updated_task actor now u due_date task in
          let plain =
            IsAcyclic-added (HasParent c s project_id)
              (HasParent c (c.save s (touch now changed)).1 project_id) task_id
              (or_blank u.parent_task_id) (grows task due_date stored parent_ok) acyclic in
          write_update_cases (λ s'. IsAcyclic (HasParent c s' project_id)) now actor u changed s
            plain
            (IsAcyclic-added (HasParent c (c.save s (touch now changed)).1 project_id) _ "" ""
              (λ a b e. inl (
                cascade-HasParent c actor now (c.save s (touch now changed)).1 changed.id project_id
                  a b e))
              plain))
    where
      grows :
          (task : Task) (due_date : Option (Option ℕ))
          → c.get s task_id ≡ some task
          → check_parent c may locked valid_id user_found parse_date s task task_id u.parent_task_id
            ≡ none
          → (a b : String)
          → HasParent c
              (c.save s (touch now (updated_task actor now u due_date task))).1
              project_id
              a
              b
          → HasParent c s project_id a b
            ⊎ ((a ≡ task_id)
                × (b ≡ or_blank u.parent_task_id)
                × (¬ Reach (HasParent c s project_id) (or_blank u.parent_task_id) task_id))
      grows task due_date stored parent_ok a b e =
          elim (save-HasParent c s (touch now (updated_task actor now u due_date task)) project_id a
            b e) [
              | inl old ↦ inl old
              | inr (at, parent, live) ↦
                  let at_task : task_id ≡ a = sym (c.get_id s task_id task stored) ∙ at in
                  let in_project : task.project_id ≡ project_id =
                    live_in_project task project_id live in
                  elim (new_edge s task task_id b u.parent_task_id parent_ok parent) [
                    | inl kept ↦ inl (record {
                      task = task;
                      stored = subst (λ z. c.get s z ≡ some task) at_task stored;
                      live = live;
                      parent = kept;
                    })
                    | inr (same, none_below) ↦ inr (
                      sym at_task,
                      sym same,
                      subst (λ p. ¬ Reach (HasParent c s p) (or_blank u.parent_task_id) task_id)
                          in_project
                          (subst (λ z. ¬ Reach (HasParent c s task.project_id) z task_id) (sym same)
                            none_below),
                    )
                  ]
            ]
