-- ===== src/Tasks/Link/Patch.antt =====
-- The collection after a successful `link` or `unlink`, document by document.
use claude_todo.Prelude.{
  ℕ, String, ◌≡◌, refl, sym, ap, ◌∙◌, subst, ◌≢◌, inl, inr, true, false, Option, none, some, List,
  [], ◌∷◌, ◌++◌, arith, nat_eq, string_eq, ◌==◌, if◌then◌else◌, Bool-cases, contains, without,
}
use claude_todo.Tasks.Model.{Task, touch}
use claude_todo.Tasks.Collection.{Collection}
use claude_todo.Tasks.Link.{
  ok, add_block, add_blocker, drop_block, drop_blocker, save_both, link, unlink,
}
use claude_todo.Tasks.Link.Writes.{save_both_ok}
use claude_todo.Tasks.Link.Check.{
  check_link-IsLinkable, check_unlink-IsUnlinkable, link_ok, unlink_ok,
}

-- `blocks` becomes `f blocks` at the source and `blocked_by` becomes `g blocked_by` at the target;
-- all else is as it was, but for the log and the time of the last write.
module _ (f g : List String → List String) (source_id target_id : String) where
  abbrev pub patched : String → Task → Task → Task
  patched i t t' = record t {
    blocks = if source_id == i then f t.blocks else t.blocks;
    blocked_by = if target_id == i then g t.blocked_by else t.blocked_by;
    activity_log = t'.activity_log;
    updated_at = t'.updated_at;
  }

  abbrev pub Kept : String → Option Task → Option Task → Type 0
  Kept i none none = Unit
  Kept i (some t) (some t') = t' ≡ patched i t t'
  Kept i _ _ = ⊥

  pub record IsPatch (c : Collection) (s s' : c.Store) : Type 0 where
    pub at : (i : String) → Kept i (c.get s i) (c.get s' i)

  Kept-same :
      (i : String) (o : Option Task)
      → (source_id == i) ≡ false
      → (target_id == i) ≡ false
      → Kept i o o
  Kept-same i none h k = tt
  Kept-same i (some t) h k = rw h (rw k refl)

  Kept-some :
      (i : String) (o o' : Option Task) (t t' : Task)
      → o ≡ some t
      → o' ≡ some t'
      → t' ≡ patched i t t'
      → Kept i o o'
  Kept-some i o o' t t' h h' made = rw h (rw h' made)

  module _ (c : Collection) (now : ℕ) (source target source' target' : Task) (s : c.Store)
      (distinct : source_id ≢ target_id) (source_stored : c.get s source_id ≡ some source)
      (target_stored : c.get s target_id ≡ some target)
      (source_made : source'
        ≡ record source { blocks = f source.blocks; activity_log = source'.activity_log })
      (target_made : target' ≡ record target {
        blocked_by = g target.blocked_by;
        activity_log = target'.activity_log;
      }) where
    source'_id : source'.id ≡ source_id
    source'_id = ap (λ (t : Task). t.id) source_made ∙ c.get_id s source_id source source_stored

    target'_id : target'.id ≡ target_id
    target'_id = ap (λ (t : Task). t.id) target_made ∙ c.get_id s target_id target target_stored

    apart : (i : String) → (target_id == i) ≡ true → (source_id == i) ≡ false
    apart i h =
        ground (arith, string_eq.beq_iff target_id i, string_eq.beq_iff source_id i, distinct)

    target_Kept :
        (i : String)
        → (target_id == i) ≡ true
        → touch now target' ≡ patched i target (touch now target')
    target_Kept i h = rw h (rw (apart i h) (ap (touch now) target_made))

    source_Kept :
        (i : String)
        → (source_id == i) ≡ true
        → (target_id == i) ≡ false
        → touch now source' ≡ patched i source (touch now source')
    source_Kept i h k = rw h (rw k (ap (touch now) source_made))

    save_both-IsPatch :
        {a b : Task}
        → (save_both c now source' target' s).0 ≡ ok (a, b)
        → IsPatch c s (save_both c now source' target' s).1
    save_both-IsPatch h = record {
      at = λ i.
          let got = (save_both_ok c now source' target' s i h).0 in
          elim (Bool-cases (target_id == i)) [
            | inl at_target ↦
                let old : c.get s i ≡ some target =
                  subst (λ z. c.get s z ≡ some target) ((string_eq.beq_iff target_id i).0 at_target)
                    target_stored in
                Kept-some i _ _ target (touch now target') old
                  (got ∙ rw target'_id (rw at_target refl)) (target_Kept i at_target)
            | inr not_target ↦ elim (Bool-cases (source_id == i)) [
              | inl at_source ↦
                  let old : c.get s i ≡ some source =
                    subst (λ z. c.get s z ≡ some source)
                      ((string_eq.beq_iff source_id i).0 at_source) source_stored in
                  Kept-some i _ _ source (touch now source') old
                    (got ∙ rw target'_id (rw not_target (rw source'_id (rw at_source refl))))
                    (source_Kept i at_source not_target)
              | inr not_source ↦
                  subst (λ o. Kept i (c.get s i) o)
                    (sym (got ∙ rw target'_id (rw not_target (rw source'_id (rw not_source refl)))))
                    (Kept-same i (c.get s i) not_source not_target)
            ]
          ];
    }

-- The lists after `link`.
abbrev pub add_target : String → List String → List String
add_target target_id blocks = blocks ++ target_id ∷ []

abbrev pub add_source : String → List String → List String
add_source source_id blocked_by =
    if contains blocked_by source_id then blocked_by else blocked_by ++ source_id ∷ []

module _ (c : Collection) (now : ℕ) (changed_by relation source_id target_id : String)
    (s : c.Store) where
  pub link-IsPatch :
      {a b : Task}
      → (link c now changed_by relation source_id target_id s).0 ≡ ok (a, b)
      → IsPatch
          (add_target target_id)
          (add_source source_id)
          source_id
          target_id
          c
          s
          (link c now changed_by relation source_id target_id s).1
  link-IsPatch {a} {b} h =
      let (source, target, checked, wrote) =
        link_ok c now changed_by relation source_id target_id s h in
      let l = check_link-IsLinkable c relation source_id target_id s source target checked in
      rw wrote (
        save_both-IsPatch (add_target target_id) (add_source source_id) source_id target_id c now
          source target (add_block c changed_by now target_id source)
          (add_blocker c changed_by now source_id target) s l.distinct l.source_stored
          l.target_stored refl refl (rw wrote at h))

  pub unlink-IsPatch :
      {a b : Task}
      → source_id ≢ target_id
      → (unlink c now changed_by relation source_id target_id s).0 ≡ ok (a, b)
      → IsPatch
          (without target_id)
          (without source_id)
          source_id
          target_id
          c
          s
          (unlink c now changed_by relation source_id target_id s).1
  unlink-IsPatch {a} {b} distinct h =
      let (source, target, checked, wrote) =
        unlink_ok c now changed_by relation source_id target_id s h in
      let l = check_unlink-IsUnlinkable c relation source_id target_id s source target checked in
      rw wrote (
        save_both-IsPatch (without target_id) (without source_id) source_id target_id c now source
          target (drop_block c changed_by now target_id source)
          (drop_blocker c changed_by now source_id target) s distinct l.source_stored
          l.target_stored refl refl (rw wrote at h))
