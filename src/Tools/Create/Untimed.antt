-- ===== src/Tools/Create/Untimed.antt =====
-- The completion time of a task that `create_task` makes.
use claude_todo.Prelude.{
  ℕ, String, ◌≡◌, ◌↔◌, refl, sym, ap, subst, ◌∙◌, inl, inr, Bool, false, not, Option, none, some,
  string_eq, Bool-cases, arith,
}
use claude_todo.Tasks.Model.{Task, TaskStatus, TaskPriority, TaskType, is_done}
use claude_todo.Tasks.Model.Timed.{is_some}
use claude_todo.Tasks.Collection.{Collection}
use claude_todo.Tools.Update.{UpdateError, status_of, priority_of, type_of, check_user}
use claude_todo.Tools.Update.Kept.{IsSettled}
use claude_todo.Tools.Create.{
  CreateError, created, NewTask, new_document, of_names, check_new, date_of, insert_new, with_user,
  with_date, in_project, unless_failed, create_task,
}

module _ (c : Collection) (may locked valid_id user_found : String → Bool)
    (parse_date : String → Option ℕ) where
  -- A task as `create_task` makes it.
  abbrev pub IsNew : Task → Type 0
  IsNew t = (t.completed_at ≡ none) × (t.approved ≡ false)

  insert_new-IsNew :
      (s : c.Store) (make : TaskPriority → TaskStatus → TaskType → Task) (p : Option TaskPriority)
      (st : Option TaskStatus) (ty : Option TaskType) (t : Task)
      → ((a : TaskPriority) (b : TaskStatus) (d : TaskType) → IsNew (make a b d))
      → (insert_new c may locked valid_id user_found parse_date s (of_names make p st ty)).0
        ≡ created t
      → IsNew t
  insert_new-IsNew s make none st ty t new h = cc
  insert_new-IsNew s make (some a) none ty t new h = cc
  insert_new-IsNew s make (some a) (some b) none t new h = cc
  insert_new-IsNew s make (some a) (some b) (some d) t new h =
      elim (Bool-cases (c.save s (make a b d)).0) [
        | inl done ↦ let e : make a b d ≡ t = cc (rw done at h) in subst IsNew e (new a b d)
        | inr raised ↦ cc (rw raised at h)
      ]

  with_user-IsNew :
      (now : ℕ) (id project_id creator : String) (args : NewTask) (s : c.Store)
      (due_date : Option ℕ) (o : Option UpdateError) (t : Task)
      → (with_user c may locked valid_id user_found parse_date now id project_id creator args s
          due_date o).0
        ≡ created t
      → IsNew t
  with_user-IsNew now id project_id creator args s due_date (some e) t h = cc
  with_user-IsNew now id project_id creator args s due_date none t h =
      insert_new-IsNew s (new_document now id project_id creator args due_date)
        (priority_of args.priority) (status_of args.status) (type_of args.task_type) t
        (λ a b d. (refl, refl)) h

  with_date-IsNew :
      (now : ℕ) (id project_id creator : String) (args : NewTask) (s : c.Store)
      (o : Option (Option ℕ)) (t : Task)
      → (with_date c may locked valid_id user_found parse_date now id project_id creator args s o).0
        ≡ created t
      → IsNew t
  with_date-IsNew now id project_id creator args s none t h = cc
  with_date-IsNew now id project_id creator args s (some due_date) t h =
      with_user-IsNew now id project_id creator args s due_date
        (check_user c may locked valid_id user_found parse_date args.decider_id) t h

  in_project-IsNew :
      (now : ℕ) (id creator : String) (args : NewTask) (s : c.Store) (o : Option String) (t : Task)
      → (in_project c may locked valid_id user_found parse_date now id creator args s o).0
        ≡ created t
      → IsNew t
  in_project-IsNew now id creator args s none t h = cc
  in_project-IsNew now id creator args s (some project_id) t h =
      elim (Bool-cases (not (may project_id))) [
        | inl refused ↦ cc (rw refused at h)
        | inr allowed ↦ elim (Bool-cases (locked project_id)) [
          | inl is_locked ↦ cc (rw (allowed, is_locked) at h)
          | inr free ↦
              with_date-IsNew now id project_id creator args s
                (date_of c may locked valid_id user_found parse_date args.due_date) t
                (rw (allowed, free) at h)
        ]
      ]

  -- A task that `create_task` makes has a completion time exactly when it is done, and is not both
  -- approved and in need of detail, exactly when its status is another than done: a task that is
  -- created as done gets no completion time.
  pub create_task-IsSettled :
      (resolve : String → Option String) (now : ℕ) (id creator project : String) (args : NewTask)
      (s : c.Store) (t : Task)
      → (create_task c may locked valid_id user_found parse_date resolve now id creator project args
          s).0
        ≡ created t
      → IsSettled t ↔ (is_done t.status ≡ false)
  unfolding create_task
  create_task-IsSettled resolve now id creator project args s t h =
      let new = through (check_new args) h in
      (
        λ settled. sym settled.timed ∙ ap is_some new.0,
        λ other. record { timed = ap is_some new.0 ∙ sym other; decided = ground (arith, new.1) },
      )
    where
      through :
          (o : Option CreateError)
          → (unless_failed c may locked valid_id user_found parse_date s o (
              in_project c may locked valid_id user_found parse_date now id creator args s
                (resolve project))).0
            ≡ created t
          → IsNew t
      through none e = in_project-IsNew now id creator args s (resolve project) t e
      through (some failure) e = cc
