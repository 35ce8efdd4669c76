-- ===== src/Tools/Bulk/Tally.antt =====
-- Which ids the tools for several tasks report.
use claude_todo.Prelude.{
  ℕ, String, ◌≡◌, refl, sym, ap, ◌∙◌, ◌+◌, inl, inr, Bool, Option, none, some, List, [], ◌∷◌, ◌++◌,
  map, string_eq, ◌==◌, if◌then◌else◌, arith, Bool-cases, All,
}
use claude_todo.Tasks.Model.{Task, is_done, option_eq, touch}
use claude_todo.Tasks.Collection.{Collection, gather_saves, saved_of}
use claude_todo.Tools.{Answer, answer, error, check_task}
use claude_todo.Tools.Status.{report}
use claude_todo.Tools.Status.Times.{check_task-stored}
use claude_todo.Tools.Update.{due_of}
use claude_todo.Tools.Bulk.{
  BulkError, Changed, changed, rejected, Job, BulkReply, Prepared, BatchItem, add_changed,
  failed_saves, completed_now, archived_now, with_due, change_item, has_others, has_parent_field,
  bad_value, item_id, job_of, change_checked, prepare_one, prepare, run_jobs, bulk_complete_tasks,
  bulk_archive_tasks, batch_update_tasks,
}

-- How often an id, or none, is that of a member of a list.
abbrev pub tally : {A : Type 0} → (A → Option String) → Option String → List A → ℕ
tally f o [] = 0
tally f o (x ∷ xs) = (if option_eq (f x) o then 1 else 0) + tally f o xs

abbrev pub id_of : Task → Option String
id_of t = some t.id

abbrev pub id_of_failed : Option String × BulkError → Option String
id_of_failed p = p.0

-- The id that an item is reported under: that of its task, and none where it has an empty one.
abbrev pub id_of_item : BatchItem → Option String
id_of_item item = elim item.task_id [
  | none ↦ none
  | some text ↦ if text == "" then none else some text
]

-- Every id is reported as often as it is given, as saved or as failed.
abbrev pub Reports : {A : Type 0} → (A → Option String) → List A → BulkReply → Type 0
Reports f given reply =
    (o : Option String)
    → tally id_of o reply.saved + tally id_of_failed o reply.failed ≡ tally f o given

tally-append :
    {A : Type 0} (f : A → Option String) (o : Option String) (xs ys : List A)
    → tally f o (xs ++ ys) ≡ tally f o xs + tally f o ys
tally-append f o [] ys = omega arith
tally-append f o (x ∷ xs) ys = omega (arith, tally-append f o xs ys)

tally-map :
    {A B : Type 0} (f : A → Option String) (g : B → Option String) (h : A → B) (o : Option String)
    (xs : List A)
    → ((a : A) → g (h a) ≡ f a)
    → tally g o (map h xs) ≡ tally f o xs
tally-map f g h o [] same = refl
tally-map f g h o (x ∷ xs) same = rw (same x, tally-map f g h o xs same) refl

-- A change that leaves the id of a task as it is.
abbrev pub KeepsId : (Task → Changed) → Type 0
KeepsId change = (t u : Task) → change t ≡ changed u → u.id ≡ t.id

changed_injective : (t u : Task) → changed t ≡ changed u → t ≡ u
changed_injective t u h = cc

module _ (c : Collection) (may locked : String → Bool) where
  prepare_one-id :
      (s : c.Store) (task_id : Option String) (change : Task → Changed) (u : Task)
      → KeepsId change
      → prepare_one c may locked s task_id change ≡ changed u
      → id_of u ≡ task_id
  prepare_one-id s none change u keeps e = cc e
  prepare_one-id s (some task_id) change u keeps e = go (check_task c may locked s task_id) refl e
    where
      go :
          (o : Answer Task)
          → check_task c may locked s task_id ≡ o
          → change_checked c may locked change o ≡ changed u
          → id_of u ≡ some task_id
      go (error failure) checked made = cc
      go (answer task) checked made =
          ap (λ z. some z)
            (keeps task u made
              ∙ c.get_id s task_id task (check_task-stored c may locked task_id s task checked))

  add_changed-tally :
      (task_id : Option String) (r : Changed) (p : Prepared) (o : Option String)
      → ((u : Task) → r ≡ changed u → id_of u ≡ task_id)
      → tally id_of o (add_changed task_id r p).ready
          + tally id_of_failed o (add_changed task_id r p).failed
        ≡ (if option_eq task_id o then 1 else 0)
          + (tally id_of o p.ready + tally id_of_failed o p.failed)
  add_changed-tally task_id (changed task) p o named = rw (← named task refl) (omega arith)
  add_changed-tally task_id (rejected e) p o named = omega arith

  prepare-tally :
      (s : c.Store) (jobs : List Job) (o : Option String)
      → All (λ (j : Job). KeepsId j.change) jobs
      → tally id_of o (prepare c may locked s jobs).ready
          + tally id_of_failed o (prepare c may locked s jobs).failed
        ≡ tally (λ (j : Job). j.task_id) o jobs
  unfolding prepare
  prepare-tally s [] o keeps = omega arith
  prepare-tally s (job ∷ jobs) o keeps = omega (
    arith,
    add_changed-tally job.task_id (prepare_one c may locked s job.task_id job.change)
        (prepare c may locked s jobs) o
        (λ u made. prepare_one-id s job.task_id job.change u keeps.0 made),
    prepare-tally s jobs o keeps.1,
  )

  saves-tally :
      (now : ℕ) (s : c.Store) (ts : List Task) (o : Option String)
      → tally id_of o (saved_of (map (touch now) ts) (gather_saves c now s ts).0)
          + tally id_of_failed o (failed_saves ts (gather_saves c now s ts).0)
        ≡ tally id_of o ts
  unfolding gather_saves
  saves-tally now s [] o = omega arith
  saves-tally now s (t ∷ ts) o =
      let later = saves-tally now (c.save s (touch now t)).1 ts o in
      elim (Bool-cases (c.save s (touch now t)).0) [
        | inl saved ↦ simp saved (omega (arith, later))
        | inr raised ↦ simp raised (omega (arith, later))
      ]

  run_jobs-tally :
      (now : ℕ) (s : c.Store) (jobs : List Job)
      → All (λ (j : Job). KeepsId j.change) jobs
      → Reports (λ (j : Job). j.task_id) jobs (run_jobs c may locked now s jobs).0
  unfolding run_jobs
  run_jobs-tally now s jobs keeps o =
      let p = prepare c may locked s jobs in
      omega (
        arith,
        prepare-tally s jobs o keeps,
        saves-tally now s p.ready o,
        tally-append id_of_failed o p.failed
            (failed_saves p.ready (gather_saves c now s p.ready).0),
      )

  completed_now-KeepsId :
      (now : ℕ) (completion_report : Option String) → KeepsId (completed_now now completion_report)
  completed_now-KeepsId now r t u e =
      ap (λ (z : Task). z.id) (sym (changed_injective _ u e))
      ∙ reported r _
      ∙ elim (Bool-cases (is_done t.status)) [
        | inl was ↦ simp was refl
        | inr open_still ↦ simp open_still refl
      ]
    where
      reported : (o : Option String) (x : Task) → (report o x).id ≡ x.id
      reported none x = refl
      reported (some text) x = refl

  archived_now-KeepsId : KeepsId archived_now
  archived_now-KeepsId t u e = ap (λ (z : Task). z.id) (sym (changed_injective _ u e))

  change_item-KeepsId :
      (parse_date : String → Option ℕ) (now : ℕ) (item : BatchItem)
      → KeepsId (change_item parse_date now item)
  change_item-KeepsId parse_date now item t u e = elim (Bool-cases (has_others item.other_fields)) [
    | inl others ↦ cc (rw others at e)
    | inr no_others ↦ elim (Bool-cases (has_parent_field item.changes.parent_task_id)) [
      | inl parent ↦ cc (rw (no_others, parent) at e)
      | inr no_parent ↦ elim (Bool-cases (bad_value item.changes)) [
        | inl bad ↦ cc (rw (no_others, no_parent, bad) at e)
        | inr good ↦
            made (due_of parse_date item.changes.due_date) (rw (no_others, no_parent, good) at e)
      ]
    ]
  ]
    where
      made :
          (o : Option (Option (Option ℕ)))
          → with_due parse_date now item t o ≡ changed u
          → u.id ≡ t.id
      made none k = cc
      made (some due_date) k = ap (λ (z : Task). z.id) (sym (changed_injective _ u k))

  keeping :
      {A : Type 0} (f : A → Job) (xs : List A)
      → ((a : A) → KeepsId (f a).change)
      → All (λ (j : Job). KeepsId j.change) (map f xs)
  keeping f [] keeps = tt
  keeping f (x ∷ xs) keeps = (keeps x, keeping f xs keeps)

  job_of-id :
      (parse_date : String → Option ℕ) (now : ℕ) (item : BatchItem)
      → (job_of parse_date now item).task_id ≡ id_of_item item
  job_of-id parse_date now item = go item.task_id
    where
      go :
          (o : Option String)
          → item_id o ≡ elim o [ none ↦ none | some text ↦ if text == "" then none else some text ]
      go none = refl
      go (some text) = refl

  -- `bulk_complete_tasks`, `bulk_archive_tasks` and `batch_update_tasks` report every id that is
  -- given, as often as it is given and no other, each time as saved or as failed, whatever is refused
  -- and whichever writes raise; an item of `batch_update_tasks` without an id or with an empty one is
  -- reported as a failure that names no id.
  pub bulk_tools-Reports :
      (parse_date : String → Option ℕ) (now : ℕ) (actor : String) (task_ids : List String)
      (completion_report : Option String) (items : List BatchItem) (s : c.Store)
      → Reports
          (λ task_id. some task_id)
          task_ids
          (bulk_complete_tasks c may locked now task_ids completion_report s).0
        × Reports
            (λ task_id. some task_id)
            task_ids
            (bulk_archive_tasks c may locked now task_ids s).0
        × Reports id_of_item items (batch_update_tasks c may locked parse_date now actor items s).0
  bulk_tools-Reports parse_date now actor task_ids completion_report items s = (
    λ o.
        run_jobs-tally now s _
          (keeping _ task_ids (λ task_id. completed_now-KeepsId now completion_report)) o
        ∙ tally-map _ _ _ o task_ids (λ task_id. refl),
    λ o.
        run_jobs-tally now s _ (keeping _ task_ids (λ task_id. archived_now-KeepsId)) o
        ∙ tally-map _ _ _ o task_ids (λ task_id. refl),
    λ o.
        run_jobs-tally now s _
          (keeping (job_of parse_date now) items (λ item. change_item-KeepsId parse_date now item))
          o
        ∙ tally-map id_of_item _ _ o items (job_of-id parse_date now),
  )
