-- ===== src/Tasks/Link/Check.antt =====
-- When `link` and `unlink` go on to write.
use claude_todo.Prelude.{
  ℕ, String, ◌≡◌, ◌≢◌, ◌↔◌, ◌⊎◌, inl, inr, false, some, arith, nat_eq, string_eq, contains,
}
use claude_todo.Tasks.Model.{Task}
use claude_todo.Tasks.Collection.{Collection}
use claude_todo.Tasks.Graph.{Reach, Blocks}
use claude_todo.Tasks.Search.Layers.{has_cycle-none_iff}
use claude_todo.Tasks.Link.{
  Result, unlink, drop_block, drop_blocker, ok, check_link, check_unlink, link, save_both,
  add_block, add_blocker, Result-cases,
}

module _ (c : Collection) (relation source_id target_id : String) (s : c.Store)
    (source target : Task) where
  pub record IsLinkable : Type 0 where
    pub relation_known : relation ≡ "blocks"
    pub distinct : source_id ≢ target_id
    pub source_stored : c.get s source_id ≡ some source
    pub target_stored : c.get s target_id ≡ some target
    pub source_live : source.is_deleted ≡ false
    pub target_live : target.is_deleted ≡ false
    pub one_project : source.project_id ≡ target.project_id
    pub unlinked : contains source.blocks target_id ≡ false
    pub no_cycle : ¬ Reach (Blocks c s source.project_id) target_id source_id

  pub check_link-IsLinkable :
      check_link c relation source_id target_id s ≡ ok (source, target) → IsLinkable
  unfolding check_link
  check_link-IsLinkable h = record {
    relation_known = ground (arith, string_eq.beq_iff relation "blocks");
    distinct = ground (arith, string_eq.beq_iff source_id target_id);
    source_stored = ground arith;
    target_stored = ground arith;
    source_live = ground arith;
    target_live = ground arith;
    one_project = ground (arith, string_eq.beq_iff source.project_id target.project_id);
    unlinked = ground arith;
    no_cycle = (has_cycle-none_iff c s source.project_id source_id target_id).0 (ground arith);
  }

  pub IsLinkable-check_link :
      IsLinkable → check_link c relation source_id target_id s ≡ ok (source, target)
  unfolding check_link
  IsLinkable-check_link h =
      let acyclic = (has_cycle-none_iff c s source.project_id source_id target_id).1 h.no_cycle in
      ground (
        arith,
        string_eq.beq_iff relation "blocks",
        string_eq.beq_iff source_id target_id,
        string_eq.beq_iff source.project_id target.project_id,
        acyclic,
        h.relation_known,
      )

  pub record IsUnlinkable : Type 0 where
    pub source_stored : c.get s source_id ≡ some source
    pub target_stored : c.get s target_id ≡ some target
    pub source_live : source.is_deleted ≡ false
    pub target_live : target.is_deleted ≡ false

  pub check_unlink-IsUnlinkable :
      check_unlink c relation source_id target_id s ≡ ok (source, target) → IsUnlinkable
  unfolding check_unlink
  check_unlink-IsUnlinkable h = record {
    source_stored = ground arith;
    target_stored = ground arith;
    source_live = ground arith;
    target_live = ground arith;
  }

module _ (c : Collection) (now : ℕ) (changed_by relation source_id target_id : String)
    (s : c.Store) where
  abbrev linked : Result (Task × Task) × c.Store
  linked = link c now changed_by relation source_id target_id s

  abbrev link_written : Task → Task → Result (Task × Task) × c.Store
  link_written source target =
      save_both c now (add_block c changed_by now target_id source)
        (add_blocker c changed_by now source_id target) s

  -- `link` leaves the collection alone, or makes its two writes.
  pub link_cases :
      (linked.1 ≡ s)
      ⊎ ((source : Task) × (target : Task) × (check_link c relation source_id target_id s
            ≡ ok (source, target))
          × (linked.1 ≡ (link_written source target).1))
  unfolding link
  link_cases = elim (Result-cases (check_link c relation source_id target_id s)) [
    | inr (e, h) ↦ inl (rw (h, link, linked))
    | inl ((source, target), h) ↦ inr (source, target, h, rw (h, link, linked))
  ]

  pub link_ok :
      {a b : Task}
      → linked.0 ≡ ok (a, b)
      → (source : Task) × (target : Task) × (check_link c relation source_id target_id s
          ≡ ok (source, target))
        × (linked ≡ link_written source target)
  unfolding link
  link_ok h = elim (Result-cases (check_link c relation source_id target_id s)) [
    | inr (e, failed) ↦ absurd (cc (rw (failed, link, linked) at h))
    | inl ((source, target), checked) ↦ (source, target, checked, rw (checked, link, linked))
  ]

  abbrev unlinked_state : Result (Task × Task) × c.Store
  unlinked_state = unlink c now changed_by relation source_id target_id s

  abbrev unlink_written : Task → Task → Result (Task × Task) × c.Store
  unlink_written source target =
      save_both c now (drop_block c changed_by now target_id source)
        (drop_blocker c changed_by now source_id target) s

  pub unlink_ok :
      {a b : Task}
      → unlinked_state.0 ≡ ok (a, b)
      → (source : Task) × (target : Task) × (check_unlink c relation source_id target_id s
          ≡ ok (source, target))
        × (unlinked_state ≡ unlink_written source target)
  unfolding unlink
  unlink_ok h = elim (Result-cases (check_unlink c relation source_id target_id s)) [
    | inr (e, failed) ↦ absurd (cc (rw (failed, unlink, unlinked_state) at h))
    | inl ((source, target), checked) ↦
        (source, target, checked, rw (checked, unlink, unlinked_state))
  ]

-- `link` goes on to write the two tasks exactly when the relation is `blocks`, the ids differ, both
-- are live tasks of one project, the link is not there, and the source cannot be reached from the
-- target along the `blocks` lists of the live tasks of the project.
pub check_link_iff :
    (c : Collection) (relation source_id target_id : String) (s : c.Store) (source target : Task)
    → (check_link c relation source_id target_id s ≡ ok (source, target))
      ↔ IsLinkable c relation source_id target_id s source target
check_link_iff c relation source_id target_id s source target = (
  check_link-IsLinkable c relation source_id target_id s source target,
  IsLinkable-check_link c relation source_id target_id s source target,
)
