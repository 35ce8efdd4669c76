-- ===== src/Tasks/Link/Undo.antt =====
-- `unlink` undoes `link`.
use claude_todo.Prelude.{
  ℕ, String, ◌≡◌, refl, sym, ap, ◌∙◌, subst, Bool, true, false, Option, none, some, List, [], ◌∷◌,
  ◌++◌, nat_eq, string_eq, ◌==◌, if◌then◌else◌, some_injective, contains, without, without-snoc,
}
use claude_todo.Tasks.Model.{Task}
use claude_todo.Tasks.Collection.{Collection}
use claude_todo.Tasks.Link.{ok, link, unlink}
use claude_todo.Tasks.Link.Check.{check_link-IsLinkable, link_ok}
use claude_todo.Tasks.Link.Patch.{Kept, add_target, add_source, link-IsPatch, unlink-IsPatch}
use claude_todo.Tasks.Link.Mutual.{IsMutual}

-- The same documents, with the same links.
abbrev pub SameLinks : Option Task → Option Task → Type 0
SameLinks none none = Unit
SameLinks (some t) (some t') = (t'.blocks ≡ t.blocks) × (t'.blocked_by ≡ t.blocked_by)
SameLinks _ _ = ⊥

without-added :
    (b : Bool) (add : List String → List String) (x : String) (l l' l'' : List String)
    → (contains l x ≡ false → add l ≡ l ++ x ∷ [])
    → l' ≡ (if b then add l else l)
    → l'' ≡ (if b then without x l' else l')
    → (b ≡ true → contains l x ≡ false)
    → l'' ≡ l
without-added false add x l l' l'' h e e' absent = e' ∙ e
without-added true add x l l' l'' h e e' absent =
    e' ∙ ap (without x) (e ∙ h (absent refl)) ∙ without-snoc x l (absent refl)

module _ (source_id target_id : String) where
  restored :
      (i : String) (o o' o'' : Option Task)
      → ((t : Task) → o ≡ some t → source_id ≡ i → contains t.blocks target_id ≡ false)
      → ((t : Task) → o ≡ some t → target_id ≡ i → contains t.blocked_by source_id ≡ false)
      → Kept (add_target target_id) (add_source source_id) source_id target_id i o o'
      → Kept (without target_id) (without source_id) source_id target_id i o' o''
      → SameLinks o o''
  restored i none none none fs gs k k' = tt
  restored i (some t) (some t') (some t'') fs gs k k' = (
    without-added (source_id == i) (add_target target_id) target_id t.blocks t'.blocks t''.blocks
        (λ _. refl) (ap (λ (u : Task). u.blocks) k) (ap (λ (u : Task). u.blocks) k')
        (λ h. fs t refl ((string_eq.beq_iff source_id i).0 h)),
    without-added (target_id == i) (add_source source_id) source_id t.blocked_by t'.blocked_by
        t''.blocked_by (λ h. rw h) (ap (λ (u : Task). u.blocked_by) k)
        (ap (λ (u : Task). u.blocked_by) k') (λ h. gs t refl ((string_eq.beq_iff target_id i).0 h)),
  )
  restored i none none (some u) fs gs k k' = elim k' [ ]
  restored i none (some u) o fs gs k k' = elim k [ ]
  restored i (some t) none o fs gs k k' = elim k [ ]
  restored i (some t) (some t') none fs gs k k' = elim k' [ ]

-- If `blocks` and `blocked_by` of the live tasks agree, and a `link` and then an `unlink` of the
-- same tasks succeed, every document has the links that it had before.
pub unlink-link :
    (c : Collection) (now later : ℕ) (linker unlinker relation source_id target_id : String)
    (s : c.Store) (source target source' target' : Task)
    → IsMutual c s
    → (link c now linker relation source_id target_id s).0 ≡ ok (source, target)
    → (unlink c later unlinker relation source_id target_id
        (link c now linker relation source_id target_id s).1).0
      ≡ ok (source', target')
    → (i : String)
    → SameLinks (c.get s i) (
        c.get
          (unlink c later unlinker relation source_id target_id
            (link c now linker relation source_id target_id s).1).1
          i)
unlink-link c now later linker unlinker relation source_id target_id s source target source' target'
      m h h' i =
    let s' = (link c now linker relation source_id target_id s).1 in
    let (old_source, old_target, checked, _) =
      link_ok c now linker relation source_id target_id s h in
    let l = check_link-IsLinkable c relation source_id target_id s old_source old_target checked in
    let apart : contains old_target.blocked_by source_id ≡ false =
      sym (
        m.at source_id target_id old_source old_target l.source_stored l.target_stored l.source_live
          l.target_live)
      ∙ l.unlinked in
    restored source_id target_id i (c.get s i) (c.get s' i) _
      (λ t stored at.
        subst (λ (u : Task). contains u.blocks target_id ≡ false)
          (some_injective (sym l.source_stored ∙ ap (c.get s) at ∙ stored)) l.unlinked)
      (λ t stored at.
        subst (λ (u : Task). contains u.blocked_by source_id ≡ false)
          (some_injective (sym l.target_stored ∙ ap (c.get s) at ∙ stored)) apart)
      ((link-IsPatch c now linker relation source_id target_id s h).at i)
      ((unlink-IsPatch c later unlinker relation source_id target_id s' l.distinct h').at i)
