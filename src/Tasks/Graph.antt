-- ===== src/Tasks/Graph.antt =====
-- The graph that backend/app/services/task_links.py keeps acyclic, as relations on ids.
use claude_todo.Prelude.{
  String, ◌≡◌, sym, ◌∙◌, subst, ◌⊎◌, inl, inr, Bool, false, not, ◌&&◌, some, true, List, [], ◌∷◌,
  ◌==◌, string_eq, Elem,
}
use claude_todo.Tasks.Model.{Task}
use claude_todo.Tasks.Collection.{Collection}

-- `{"project_id": project_id, "is_deleted": False}`
abbrev pub live_in : String → Task → Bool
live_in project_id t = t.project_id == project_id && not t.is_deleted

-- Generic walks along a relation of ids.
module _ (E : String → String → Type 0) where
  pub data Reach (a : String) : String → Type 0 where
    here : Reach a a
    next : {b d : String} → Reach a b → E b d → Reach a d

  -- One step at least.
  abbrev pub Reach₊ : String → String → Type 0
  Reach₊ a d = (b : String) × Reach a b × E b d

  -- The list of the ids on a walk from `a` to `d`, both ends included.
  abbrev pub IsTrail : String → List String → String → Type 0
  IsTrail a [] d = ⊥
  IsTrail a (x ∷ []) d = (a ≡ x) × (x ≡ d)
  IsTrail a (x ∷ y ∷ r) d = (a ≡ x) × E x y × IsTrail y (y ∷ r) d

-- `blocks` of a live task of the project.
module _ (c : Collection) (s : c.Store) (project_id : String) where
  pub record Blocks (a b : String) : Type 0 where
    pub task : Task
    pub stored : c.get s a ≡ some task
    pub live : live_in project_id task ≡ true
    pub lists : Elem b task.blocks

module _ (E : String → String → Type 0) where
  pub Reach-trans : {a b d : String} → Reach E a b → Reach E b d → Reach E a d
  Reach-trans r here = r
  Reach-trans r (next q e) = next (Reach-trans r q) e

  Reach-cons : {a b d : String} → E a b → Reach E b d → Reach E a d
  Reach-cons e r = Reach-trans (next here e) r

  pub IsTrail-Reach :
      (a : String) (path : List String) (d : String) → IsTrail E a path d → Reach E a d
  IsTrail-Reach a [] d h = elim h [ ]
  IsTrail-Reach a (x ∷ []) d h = subst (Reach E a) (h.0 ∙ h.1) here
  IsTrail-Reach a (x ∷ y ∷ r) d h =
      subst (λ z. Reach E z d) (sym h.0) (Reach-cons h.1 (IsTrail-Reach y (y ∷ r) d h.2))

-- No walk of one step or more comes back.
abbrev pub IsAcyclic : (String → String → Type 0) → Type 0
IsAcyclic E = (a : String) → ¬ Reach₊ E a a

-- A graph with one more edge, from `u` to `v`, where `u` could not be reached from `v`.
module _ (E E' : String → String → Type 0) (u v : String)
    (grows : (a b : String) → E' a b → E a b ⊎ ((a ≡ u) × (b ≡ v) × (¬ Reach E v u))) where
  Reach-added :
      {a b : String} → Reach E' a b → Reach E a b ⊎ (Reach E a u × Reach E v b × (¬ Reach E v u))
  Reach-added here = inl here
  Reach-added {a} (next {b = m} {d = b} r e) = elim (Reach-added r) [
    | inl old ↦ elim (grows m b e) [
      | inl edge ↦ inl (next old edge)
      | inr (at_u, at_v, absent) ↦
          inr (subst (Reach E a) at_u old, subst (Reach E v) (sym at_v) here, absent)
    ]
    | inr (to_u, from_v, never) ↦ elim (grows m b e) [
      | inl edge ↦ inr (to_u, next from_v edge, never)
      | inr (at_u, at_v, absent) ↦ absurd (absent (subst (Reach E v) at_u from_v))
    ]
  ]

  pub IsAcyclic-added : IsAcyclic E → IsAcyclic E'
  IsAcyclic-added acyclic a (m, r, e) = elim (Reach-added r) [
    | inl old ↦ elim (grows m a e) [
      | inl edge ↦ acyclic a (m, old, edge)
      | inr (at_u, at_v, absent) ↦
          absent (subst (Reach E v) at_u (subst (λ z. Reach E z m) at_v old))
    ]
    | inr (to_u, from_v, never) ↦ elim (grows m a e) [
      | inl edge ↦ never (Reach-trans E from_v (Reach-cons E edge to_u))
      | inr (at_u, at_v, absent) ↦ absent (subst (Reach E v) at_u from_v)
    ]
  ]

-- `parent_task_id` of a live task of the project.
module _ (c : Collection) (s : c.Store) (project_id : String) where
  pub record HasParent (a b : String) : Type 0 where
    pub task : Task
    pub stored : c.get s a ≡ some task
    pub live : live_in project_id task ≡ true
    pub parent : task.parent_task_id ≡ some b

-- `b` is a live task with the parent `a`, in whatever project.
module _ (c : Collection) (s : c.Store) where
  pub record HasChild (a b : String) : Type 0 where
    pub task : Task
    pub stored : c.get s b ≡ some task
    pub live : task.is_deleted ≡ false
    pub parent : task.parent_task_id ≡ some a
