-- ===== src/Agents/Owners/Entry.antt =====
-- The entry of one agent: the commands and deletes that leave it with its worker.
use Prim.Native.String.{◌++◌ as append, len, slice}
use text.Mathlib.TextPositions.{len-append, slice-append_right}
use claude_todo.Prelude.{
  ℕ, ◌+◌, ◌≤◌, ◌<◌, String, ◌≡◌, refl, sym, ap, ◌∙◌, ◌≢◌, Bool, true, false, some, List, [], ◌∷◌,
  ◌==◌, string_eq, if◌then◌else◌, ltb, arith, Bool-cases, inl, inr,
}
use claude_todo.Agents.Owners.{
  Redis, AgentBus, registry_ttl_seconds, key_registry, is_owner, del_if_owner, drop_entries,
}

tail-append : (p a : String) → slice (append p a) (len p) (len (append p a)) ≡ a
tail-append p a = rw (len-append p a) (slice-append_right p a)

key_registry-injective : (a b : String) → key_registry a ≡ key_registry b → a ≡ b
key_registry-injective a b same =
    sym (tail-append "agent:registry:" a)
    ∙ ap (λ s. slice s (len "agent:registry:") (len s)) same
    ∙ tail-append "agent:registry:" b

module _ (r : Redis) (w a : String) where
  abbrev pub HeldFor : r.Store → ℕ → ℕ → Type 0
  HeldFor s from until = (t : ℕ) → from ≤ t → t < until → r.get t s (key_registry a) ≡ some w

  other_key : (b : String) → b ≢ a → key_registry b ≢ key_registry a
  other_key b differ same = differ (key_registry-injective b a same)

  pub set_kept :
      (now until : ℕ) (b v : String) (s : r.Store)
      → (b ≡ a → v ≡ w)
      → HeldFor s now until
      → HeldFor
          (r.set now (key_registry b) v registry_ttl_seconds s)
          now
          (if b == a then now + registry_ttl_seconds else until)
  set_kept now until b v s mine held t begun ends = elim (Bool-cases (b == a)) [
    | inl same ↦
        let here : b ≡ a = (string_eq.beq_iff b a).0 same in
        let before : ltb t (now + registry_ttl_seconds) ≡ true = ground (arith, rw same at ends) in
        rw (here, r.set_get now t s (key_registry a) v registry_ttl_seconds begun, before)
          (ap (λ x. some x) (mine here))
    | inr differ ↦
        r.set_other now t s (key_registry b) (key_registry a) v registry_ttl_seconds
          (other_key b (ground (arith, string_eq.beq_iff b a, differ)))
        ∙ held t begun (rw differ at ends)
  ]

  pub expire_kept :
      (now until : ℕ) (b : String) (s : r.Store)
      → now < until
      → until ≤ now + registry_ttl_seconds
      → HeldFor s now until
      → HeldFor
          (r.expire now (key_registry b) registry_ttl_seconds s)
          now
          (if b == a then now + registry_ttl_seconds else until)
  expire_kept now until b s alive within held t begun ends = elim (Bool-cases (b == a)) [
    | inl same ↦
        let here : b ≡ a = (string_eq.beq_iff b a).0 same in
        let before : ltb t (now + registry_ttl_seconds) ≡ true = ground (arith, rw same at ends) in
        rw
          (
            here,
            r.expire_get now t s (key_registry a) w registry_ttl_seconds
                (held now (omega arith) alive) begun,
            before,
          )
          refl
    | inr differ ↦
        r.expire_other now t s (key_registry b) (key_registry a) registry_ttl_seconds
          (other_key b (ground (arith, string_eq.beq_iff b a, differ)))
        ∙ held t begun (rw differ at ends)
  ]

  pub del_kept :
      (now until : ℕ) (b v : String) (undisturbed : Bool) (s : r.Store)
      → now < until
      → (v ≡ w → b ≢ a)
      → HeldFor s now until
      → HeldFor (del_if_owner r now (key_registry b) v undisturbed s).1 now until
  unfolding del_if_owner
  del_kept now until b v false s alive spares held t begun ends =
      elim (Bool-cases (is_owner (r.get now s (key_registry b)) v)) [
        | inl stored ↦ rw stored (held t begun ends)
        | inr strange ↦ rw strange (held t begun ends)
      ]
  del_kept now until b v true s alive spares held t begun ends =
      elim (Bool-cases (is_owner (r.get now s (key_registry b)) v)) [
        | inl stored ↦ rw stored (
            r.delete_other t s (key_registry b) (key_registry a) (
              other_key b (λ here.
                let owner_is : is_owner (some w) v ≡ true =
                  rw (here, held now (omega arith) alive) at stored in
                spares (sym ((string_eq.beq_iff w v).0 owner_is)) here))
            ∙ held t begun ends)
        | inr strange ↦ rw strange (held t begun ends)
      ]

  pub drop_kept :
      (now until : ℕ) (undisturbed : String → Bool) (b : AgentBus) (agent_ids : List String)
      (s : r.Store)
      → now < until
      → b.worker_id ≢ w
      → HeldFor s now until
      → HeldFor (drop_entries r now undisturbed b agent_ids s).0 now until
  unfolding drop_entries
  drop_kept now until undisturbed b [] s alive differ held = held
  drop_kept now until undisturbed b (agent_id ∷ agent_ids) s alive differ held =
      drop_kept now until undisturbed b agent_ids
        (del_if_owner r now (key_registry agent_id) b.worker_id (undisturbed agent_id) s).1 alive
        differ
        (del_kept now until agent_id b.worker_id (undisturbed agent_id) s alive
          (λ mine _. differ mine) held)
