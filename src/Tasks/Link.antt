-- ===== src/Tasks/Link.antt =====
-- backend/app/services/task_links.py: `link`, `unlink`, `list_dependents` and
-- `cleanup_dependents`. Each returns its result, or the exception that it raises, beside the
-- collection that it leaves. `now` is the reading of the clock.
mod Writes
pub mod Check
pub mod Acyclic
pub mod Patch
pub mod Mutual
pub mod Undo
pub mod Cleanup
use Prim.Native.String.{◌++◌ as append}
use claude_todo.Prelude.{
  ℕ, String, ◌≡◌, refl, ◌⊎◌, inl, inr, Bool, true, false, not, ◌&&◌, ◌||◌, Option, none, some, List,
  [], ◌∷◌, ◌++◌, ◌==◌, string_eq, if◌then◌else◌, contains, without,
}
use claude_todo.Tasks.Model.{Task, human, record_change, touch}
use claude_todo.Tasks.Collection.{Collection, gather_saves, all_done}
use claude_todo.Tasks.Graph.{live_in}
use claude_todo.Tasks.Search.{has_cycle}

-- The classes of exceptions, and what a failed write raises.
pub data Failure : Type 0 where
  unsupported_relation self_reference cross_project duplicate_link link_not_found save_raised :
      Failure
  target_not_found : String → Failure
  cycle_detected : List String → Failure

pub data Result (A : Type 0) : Type 0 where
  ok : A → Result A
  err : Failure → Result A

pub Result-cases :
    {A : Type 0} (r : Result A) → ((a : A) × (r ≡ ok a)) ⊎ ((e : Failure) × (r ≡ err e))
Result-cases (ok a) = inl (a, refl)
Result-cases (err e) = inr (e, refl)

infixl 5 ◌>>=◌ ◌>>◌
abbrev pub ◌>>=◌ : {A B : Type 0} → Result A → (A → Result B) → Result B
ok a >>= f = f a
err e >>= f = err e

abbrev pub ◌>>◌ : {B : Type 0} → Result (Unit {0}) → Result B → Result B
m >> k = m >>= λ _. k

abbrev pub raise_if : Bool → Failure → Result (Unit {0})
raise_if true e = err e
raise_if false e = ok tt

-- `str` of a list of ids, which hold no quotes.
str_rest : List String → String
str_rest [] = "]"
str_rest (x ∷ xs) = append ", '" (append x (append "'" (str_rest xs)))

unfoldable pub str_ids : List String → String
unfolding str_rest
str_ids [] = "[]"
str_ids (x ∷ xs) = append "['" (append x (append "'" (str_rest xs)))

abbrev pub change_ids : String → List String → List String → String → ℕ → Task → Task
change_ids field old new changed_by now =
    record_change field (some (str_ids old)) (some (str_ids new)) changed_by human now

module _ (c : Collection) where
  open c use {Store, get, find}

  -- `Task.get`, and the tests that follow it.
  abbrev pub fetch_live : Store → String → Result Task
  fetch_live s i = elim (get s i) [
    | none ↦ err (target_not_found i)
    | some t ↦ if t.is_deleted then err (target_not_found i) else ok t
  ]

  abbrev pub raise_cycle : Option (List String) → Result (Unit {0})
  raise_cycle none = ok tt
  raise_cycle (some path) = err (cycle_detected path)

  -- The part of `link` that reads.
  unfoldable pub check_link : String → String → String → Store → Result (Task × Task)
  check_link relation source_id target_id s = do
    raise_if (not (relation == "blocks")) unsupported_relation
    raise_if (source_id == target_id) self_reference
    source ← fetch_live s source_id
    target ← fetch_live s target_id
    raise_if (not (source.project_id == target.project_id)) cross_project
    raise_if (contains source.blocks target_id) duplicate_link
    raise_cycle (has_cycle c s source.project_id source_id target_id)
    ok (source, target)

  -- `await asyncio.gather(source.save_updated(), target.save_updated())`
  unfoldable pub save_both : ℕ → Task → Task → Store → Result (Task × Task) × Store
  unfolding gather_saves
  save_both now source target s =
      let (done, s') = gather_saves c now s (source ∷ target ∷ []) in
      (if all_done done then ok (touch now source, touch now target) else err save_raised, s')

  abbrev pub add_block : String → ℕ → String → Task → Task
  add_block changed_by now target_id source =
      change_ids "blocks" source.blocks (source.blocks ++ target_id ∷ []) changed_by now
        (record source { blocks = source.blocks ++ target_id ∷ [] })

  abbrev pub add_blocker : String → ℕ → String → Task → Task
  add_blocker changed_by now source_id target =
      let new =
        if contains target.blocked_by source_id
        then target.blocked_by
        else target.blocked_by ++ source_id ∷ [] in
      change_ids "blocked_by" target.blocked_by new changed_by now
        (record target { blocked_by = new })

  unfoldable pub link : ℕ → String → String → String → String → Store → Result (Task × Task) × Store
  unfolding save_both
  link now changed_by relation source_id target_id s =
      elim (check_link relation source_id target_id s) [
        | err e ↦ (err e, s)
        | ok (source, target) ↦
            save_both now (add_block changed_by now target_id source)
              (add_blocker changed_by now source_id target) s
      ]

  abbrev pub fetch_linked : Store → String → Result Task
  fetch_linked s i = elim (get s i) [
    | none ↦ err link_not_found
    | some t ↦ if t.is_deleted then err link_not_found else ok t
  ]

  unfoldable pub check_unlink : String → String → String → Store → Result (Task × Task)
  check_unlink relation source_id target_id s = do
    raise_if (not (relation == "blocks")) unsupported_relation
    source ← fetch_linked s source_id
    target ← fetch_linked s target_id
    raise_if (not (contains source.blocks target_id) && not (contains target.blocked_by source_id))
        link_not_found
    ok (source, target)

  abbrev pub drop_block : String → ℕ → String → Task → Task
  drop_block changed_by now target_id source =
      change_ids "blocks" source.blocks (without target_id source.blocks) changed_by now
        (record source { blocks = without target_id source.blocks })

  abbrev pub drop_blocker : String → ℕ → String → Task → Task
  drop_blocker changed_by now source_id target =
      change_ids "blocked_by" target.blocked_by (without source_id target.blocked_by) changed_by now
        (record target { blocked_by = without source_id target.blocked_by })

  -- The tests `old != new` around `record_change` repeat the one inside it.
  unfoldable pub unlink :
      ℕ → String → String → String → String → Store → Result (Task × Task) × Store
  unfolding save_both
  unlink now changed_by relation source_id target_id s =
      elim (check_unlink relation source_id target_id s) [
        | err e ↦ (err e, s)
        | ok (source, target) ↦
            save_both now (drop_block changed_by now target_id source)
              (drop_blocker changed_by now source_id target) s
      ]

  abbrev pub depends_on : String → String → Task → Bool
  depends_on project_id task_id t = live_in project_id t && contains t.blocked_by task_id

  unfoldable pub list_dependents : String → String → Store → List Task
  list_dependents project_id task_id s = find s (depends_on project_id task_id)

  abbrev pub map_tasks : (Task → Task) → List Task → List Task
  map_tasks f [] = []
  map_tasks f (t ∷ ts) = f t ∷ map_tasks f ts

  -- With no dependents nothing is written and the list is empty, which is the early return.
  unfoldable pub cleanup_dependents :
      ℕ → String → String → String → Store → Result (List Task) × Store
  unfolding list_dependents gather_saves
  cleanup_dependents now task_id project_id changed_by s =
      let dependents =
        map_tasks (drop_blocker changed_by now task_id) (list_dependents project_id task_id s) in
      let (done, s') = gather_saves c now s dependents in
      (if all_done done then ok (map_tasks (touch now) dependents) else err save_raised, s')
