-- ===== src/Tasks/Link/Writes.antt =====
-- What two writes leave in the collection, whether they are made or raise.
use claude_todo.Prelude.{
  ℕ, String, ◌≡◌, ap, ◌∙◌, ◌⊎◌, inl, inr, Option, some, arith, nat_eq, string_eq, ◌==◌,
  if◌then◌else◌,
}
use claude_todo.Tasks.Model.{Task, touch}
use claude_todo.Tasks.Collection.{Collection, save_cases}
use claude_todo.Tasks.Link.{ok, save_both}

module _ (c : Collection) where
  open c use {Store, get, save}

  module _ (now : ℕ) (source target : Task) (s : Store) (i : String) where
    abbrev after : Option Task
    after = get (save_both c now source target s).1 i

    -- Each document is as before, or is one of the two.
    pub save_both_cases :
        (after ≡ get s i)
        ⊎ ((source.id ≡ i) × (after ≡ some (touch now source))
            ⊎ (target.id ≡ i) × (after ≡ some (touch now target)))
    unfolding save_both
    save_both_cases =
        let s' = (save s (touch now source)).1 in
        elim (save_cases c s' (touch now target) i) [
          | inr wrote ↦ inr (inr wrote)
          | inl kept ↦ elim (save_cases c s (touch now source) i) [
            | inl same ↦ inl (kept ∙ same)
            | inr wrote ↦ inr (inl (wrote.0, kept ∙ wrote.1))
          ]
        ]

    pub save_both_ok :
        {a b : Task}
        → (save_both c now source target s).0 ≡ ok (a, b)
        → (after ≡ (
            if target.id == i
            then some (touch now target)
            else if source.id == i
            then some (touch now source)
            else get s i))
          × (a ≡ touch now source)
          × (b ≡ touch now target)
    unfolding save_both
    save_both_ok h =
        let s' = (save s (touch now source)).1 in
        (
          c.save_ok s' (touch now target) i (ground arith)
              ∙ ap (λ o. if target.id == i then some (touch now target) else o)
                  (c.save_ok s (touch now source) i (ground arith)),
          ground arith,
          ground arith,
        )
