-- ===== src/Tasks/Link/Mutual.antt =====
-- The two sides of a link: `blocks` at one task and `blocked_by` at the other.
use claude_todo.Prelude.{
  ℕ, String, ◌≡◌, refl, sym, ap, ◌∙◌, subst, ◌≢◌, inl, inr, Bool, true, false, Option, none, some,
  List, [], ◌∷◌, arith, nat_eq, string_eq, ◌==◌, if◌then◌else◌, Bool-cases, some_injective,
  contains, without, contains-append, contains-without,
}
use claude_todo.Tasks.Model.{Task}
use claude_todo.Tasks.Collection.{Collection}
use claude_todo.Tasks.Link.{ok, link, unlink}
use claude_todo.Tasks.Link.Patch.{
  patched, Kept, IsPatch, add_target, add_source, link-IsPatch, unlink-IsPatch,
}

-- Of two live tasks, one lists the other in `blocks` exactly when that lists it in `blocked_by`.
pub record IsMutual (c : Collection) (s : c.Store) : Type 0 where
  pub at :
      (a b : String) (ta tb : Task)
      → c.get s a ≡ some ta
      → c.get s b ≡ some tb
      → ta.is_deleted ≡ false
      → tb.is_deleted ≡ false
      → contains ta.blocks b ≡ contains tb.blocked_by a

module _ (f g : List String → List String) (source_id target_id : String) where
  pub Kept-old :
      (i : String) (o o' : Option Task) (t' : Task)
      → Kept f g source_id target_id i o o'
      → o' ≡ some t'
      → (t : Task) × (o ≡ some t) × (t' ≡ patched f g source_id target_id i t t')
  Kept-old i none none t' k h = cc
  Kept-old i (some t) none t' k h = cc
  Kept-old i none (some u) t' k h = elim k [ ]
  Kept-old i (some t) (some u) t' k h =
      (t, refl, subst (λ v. v ≡ patched f g source_id target_id i t v) (some_injective h) k)

  module _ (value : Bool) (c : Collection) (s s' : c.Store)
      (f_law : (l : List String) (x : String)
        → contains (f l) x ≡ (if target_id == x then value else contains l x))
      (g_law : (l : List String) (x : String)
        → contains (g l) x ≡ (if source_id == x then value else contains l x)) where
    pub IsPatch-IsMutual : IsPatch f g source_id target_id c s s' → IsMutual c s → IsMutual c s'
    IsPatch-IsMutual p m = record {
      at = λ a b ta' tb' ha hb la lb.
          let (ta, sa, ea) = Kept-old a (c.get s a) (c.get s' a) ta' (p.at a) ha in
          let (tb, sb, eb) = Kept-old b (c.get s b) (c.get s' b) tb' (p.at b) hb in
          let before : contains ta.blocks b ≡ contains tb.blocked_by a =
            m.at a b ta tb sa sb (sym (ap (λ (t : Task). t.is_deleted) ea) ∙ la)
              (sym (ap (λ (t : Task). t.is_deleted) eb) ∙ lb) in
          ap (λ (t : Task). contains t.blocks b) ea
          ∙ ground (arith, before, f_law ta.blocks b, g_law tb.blocked_by a)
          ∙ sym (ap (λ (t : Task). contains t.blocked_by a) eb);
    }

contains-add_target :
    (target_id : String) (l : List String) (x : String)
    → contains (add_target target_id l) x ≡ (if target_id == x then true else contains l x)
contains-add_target target_id l x = contains-append l (target_id ∷ []) x ∙ ground arith

contains-add_source :
    (source_id : String) (l : List String) (x : String)
    → contains (add_source source_id l) x ≡ (if source_id == x then true else contains l x)
contains-add_source source_id l x = elim (Bool-cases (contains l source_id)) [
  | inl old ↦ rw old (ground (arith, string_eq.beq_iff source_id x, old))
  | inr new ↦ rw new (contains-append l (source_id ∷ []) x ∙ ground arith)
]

-- If `blocks` and `blocked_by` of the live tasks agree, they agree after a `link` that succeeds.
pub link-IsMutual :
    (c : Collection) (now : ℕ) (changed_by relation source_id target_id : String) (s : c.Store)
    (source target : Task)
    → (link c now changed_by relation source_id target_id s).0 ≡ ok (source, target)
    → IsMutual c s
    → IsMutual c (link c now changed_by relation source_id target_id s).1
link-IsMutual c now changed_by relation source_id target_id s source target h =
    IsPatch-IsMutual (add_target target_id) (add_source source_id) source_id target_id true c s _
      (contains-add_target target_id) (contains-add_source source_id)
      (link-IsPatch c now changed_by relation source_id target_id s h)

-- If `blocks` and `blocked_by` of the live tasks agree, they agree after an `unlink` of two
-- different tasks that succeeds.
pub unlink-IsMutual :
    (c : Collection) (now : ℕ) (changed_by relation source_id target_id : String) (s : c.Store)
    (source target : Task)
    → source_id ≢ target_id
    → (unlink c now changed_by relation source_id target_id s).0 ≡ ok (source, target)
    → IsMutual c s
    → IsMutual c (unlink c now changed_by relation source_id target_id s).1
unlink-IsMutual c now changed_by relation source_id target_id s source target distinct h =
    IsPatch-IsMutual (without target_id) (without source_id) source_id target_id false c s _
      (λ l x. contains-without target_id x l) (λ l x. contains-without source_id x l)
      (unlink-IsPatch c now changed_by relation source_id target_id s distinct h)
