-- ===== src/Tasks/Gather.antt =====
-- `asyncio.gather` of several writes: what each leaves, whichever raise.
use claude_todo.Prelude.{
  ℕ, String, ◌≡◌, refl, sym, ap, ◌∙◌, subst, ◌⊎◌, inl, inr, true, some, List, [], ◌∷◌, map, nat_eq,
  string_eq, Bool-cases, Elem, beq_refl,
}
use claude_todo.Tasks.Model.{Task, touch}
use claude_todo.Tasks.Collection.{Collection, gather_saves, save_cases, saved_of, all_done}

-- Writes of documents of which no two differ and have one id.
module _ (c : Collection) (now : ℕ) where
  abbrev pub after : c.Store → List Task → c.Store
  after s ms = (gather_saves c now s ms).1

  abbrev pub saved : c.Store → List Task → List Task
  saved s ms = saved_of (map (touch now) ms) (gather_saves c now s ms).0

  pub gather_cases :
      (s : c.Store) (ms : List Task) (i : String)
      → (c.get (after s ms) i ≡ c.get s i)
        ⊎ ((m : Task) × Elem m ms × (m.id ≡ i) × (c.get (after s ms) i ≡ some (touch now m)))
  unfolding gather_saves
  gather_cases s [] i = inl refl
  gather_cases s (t ∷ ts) i = elim (gather_cases (c.save s (touch now t)).1 ts i) [
    | inr (m, listed, at, wrote) ↦ inr (m, inr listed, at, wrote)
    | inl same ↦ elim (save_cases c s (touch now t) i) [
      | inl kept ↦ inl (same ∙ kept)
      | inr (at, wrote) ↦ inr (t, inl refl, at, same ∙ wrote)
    ]
  ]

  abbrev pub Unique : List Task → Type 0
  Unique ms = (a b : Task) → Elem a ms → Elem b ms → a.id ≡ b.id → a ≡ b

  abbrev pub Stored : c.Store → List Task → Task → Type 0
  Stored s ms m = (t : Task) × Elem t ms × (m ≡ touch now t) × (c.get (after s ms) m.id ≡ some m)

  -- The first write is not undone by the later ones.
  first_stored :
      (s : c.Store) (t : Task) (ts : List Task)
      → Unique (t ∷ ts)
      → (c.save s (touch now t)).0 ≡ true
      → c.get (after s (t ∷ ts)) t.id ≡ some (touch now t)
  unfolding gather_saves
  first_stored s t ts unique done = elim (gather_cases (c.save s (touch now t)).1 ts t.id) [
    | inl same ↦ same ∙ c.save_ok s (touch now t) t.id done ∙ rw (beq_refl t.id)
    | inr (m, listed, at, wrote) ↦
        wrote ∙ ap (λ u. some (touch now u)) (unique m t (inr listed) (inl refl) at)
  ]

  pub gather-Stored :
      (s : c.Store) (ms : List Task) (m : Task) → Unique ms → Elem m (saved s ms) → Stored s ms m
  unfolding gather_saves
  gather-Stored s [] m unique listed = elim listed [ ]
  gather-Stored s (t ∷ ts) m unique listed =
      go (gather-Stored (c.save s (touch now t)).1 ts m (λ a b ha hb. unique a b (inr ha) (inr hb)))
    where
      go :
          (Elem m (saved (c.save s (touch now t)).1 ts) → Stored (c.save s (touch now t)).1 ts m)
          → Stored s (t ∷ ts) m
      go rest = elim (Bool-cases (c.save s (touch now t)).0) [
        | inr raised ↦ let (u, at, e, got) = rest (simp raised at listed) in (u, inr at, e, got)
        | inl done ↦ elim (simp done at listed) [
          | inr later ↦ let (u, at, e, got) = rest later in (u, inr at, e, got)
          | inl e ↦ (
            t,
            inl refl,
            e,
            subst (λ (z : Task). c.get (after s (t ∷ ts)) z.id ≡ some z) (sym e)
                (first_stored s t ts unique done),
          )
        ]
      ]

  -- Where no write raises, every document is saved.
  pub all_saved :
      (s : c.Store) (ms : List Task) (m : Task)
      → ((s' : c.Store) (t : Task) → (c.save s' t).0 ≡ true)
      → Elem m ms
      → Elem (touch now m) (saved s ms)
  unfolding gather_saves
  all_saved s [] m works listed = elim listed [ ]
  all_saved s (t ∷ ts) m works listed = simp (works s (touch now t)) (elim listed [
    | inl e ↦ inl (ap (touch now) e)
    | inr later ↦ inr (all_saved (c.save s (touch now t)).1 ts m works later)
  ])

  -- Where none of the writes raised, every document is saved.
  pub done_saved :
      (s : c.Store) (ms : List Task) (m : Task)
      → all_done (gather_saves c now s ms).0 ≡ true
      → Elem m ms
      → Elem (touch now m) (saved s ms)
  unfolding gather_saves
  done_saved s [] m done listed = elim listed [ ]
  done_saved s (t ∷ ts) m done listed = elim (Bool-cases (c.save s (touch now t)).0) [
    | inr raised ↦ absurd (cc (simp raised at done))
    | inl saves ↦ simp saves (elim listed [
      | inl e ↦ inl (ap (touch now) e)
      | inr later ↦ inr (done_saved (c.save s (touch now t)).1 ts m (simp saves at done) later)
    ])
  ]
