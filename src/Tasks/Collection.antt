-- ===== src/Tasks/Collection.antt =====
-- The MongoDB collection of tasks, as the services use it through Beanie and Motor.
-- The database is not part of the repository: it is an interface with its documented behaviour.
use claude_todo.Prelude.{
  ℕ, suc, String, ◌≡◌, refl, ap, ◌∙◌, ◌≢◌, ◌⊎◌, inl, inr, Bool, true, false, ◌&&◌, Option, none,
  some, List, [], ◌∷◌, nat_eq, string_eq, ◌==◌, if◌then◌else◌, Bool-cases, length, Elem, All,
}
use claude_todo.Tasks.Model.{Task, touch}

abbrev pub ids : List Task → List String
ids [] = []
ids (t ∷ ts) = t.id ∷ ids ts

pub Elem-ids : (t : Task) (ts : List Task) → Elem t ts → Elem t.id (ids ts)
Elem-ids t [] m = elim m [ ]
Elem-ids t (u ∷ us) (inl e) = inl (ap (λ (v : Task). v.id) e)
Elem-ids t (u ∷ us) (inr m) = inr (Elem-ids t us m)

pub length-ids : (ts : List Task) → length (ids ts) ≡ length ts
length-ids [] = refl
length-ids (t ∷ ts) = ap suc (length-ids ts)

-- The tasks whose write did not raise.
abbrev pub saved_of : List Task → List Bool → List Task
saved_of [] results = []
saved_of (t ∷ ts) [] = []
saved_of (t ∷ ts) (done ∷ results) =
    let rest = saved_of ts results in if done then t ∷ rest else rest

-- `gather` raises if one of its parts does.
abbrev pub all_done : List Bool → Bool
all_done [] = true
all_done (b ∷ bs) = b && all_done bs

-- No two documents of a list have one id.
abbrev pub DistinctIds : List Task → Type 0
DistinctIds [] = Unit
DistinctIds (t ∷ ts) = All (λ u. u.id ≢ t.id) ts × DistinctIds ts

-- `get` fetches by `_id`, `find` runs a query, and `save` writes one document or raises
-- (`false`), which leaves the collection as it was.
pub record Collection : Type 1 where
  pub Store : Type 0
  pub get : Store → String → Option Task
  pub find : Store → (Task → Bool) → List Task
  pub save : Store → Task → Bool × Store
  pub get_id : (s : Store) (i : String) (t : Task) → get s i ≡ some t → t.id ≡ i
  pub find_sound :
      (s : Store) (p : Task → Bool) (t : Task)
      → Elem t (find s p)
      → (get s t.id ≡ some t) × (p t ≡ true)
  pub find_complete :
      (s : Store) (p : Task → Bool) (i : String) (t : Task)
      → get s i ≡ some t
      → p t ≡ true
      → Elem t (find s p)
  pub find_distinct : (s : Store) (p : Task → Bool) → DistinctIds (find s p)
  pub save_ok :
      (s : Store) (t : Task) (i : String)
      → (save s t).0 ≡ true
      → get (save s t).1 i ≡ (if t.id == i then some t else get s i)
  pub save_raises : (s : Store) (t : Task) → (save s t).0 ≡ false → (save s t).1 ≡ s

module _ (c : Collection) where
  open c use {Store, get, find, save}

  -- `find_one`: some document that the query fits, if there is one.
  abbrev pub find_one : Store → (Task → Bool) → Option Task
  find_one s p = elim (find s p) [ [] ↦ none | t ∷ _ ↦ some t ]

  -- `asyncio.gather` of `save_updated` calls: each is made whatever the others do, and has its
  -- outcome.
  unfoldable pub gather_saves : ℕ → Store → List Task → List Bool × Store
  gather_saves now s [] = ([], s)
  gather_saves now s (t ∷ ts) =
      let (done, s') = save s (touch now t) in
      let (rest, s'') = gather_saves now s' ts in (done ∷ rest, s'')

  -- A write, made or not, leaves each document as it was or stores the new one.
  pub save_cases :
      (s : Store) (t : Task) (i : String)
      → (get (save s t).1 i ≡ get s i) ⊎ ((t.id ≡ i) × (get (save s t).1 i ≡ some t))
  save_cases s t i = elim (Bool-cases (save s t).0) [
    | inl done ↦ elim (Bool-cases (t.id == i)) [
      | inl same ↦ inr ((string_eq.beq_iff t.id i).0 same, c.save_ok s t i done ∙ (rw same))
      | inr other ↦ inl (c.save_ok s t i done ∙ (rw other))
    ]
    | inr raised ↦ inl (ap (λ s'. get s' i) (c.save_raises s t raised))
  ]
