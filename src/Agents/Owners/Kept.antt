-- ===== src/Agents/Owners/Kept.antt =====
-- What the workers do with the registry, in any order: who is found as the owner of an agent.
use claude_todo.Prelude.{
  ℕ, ◌+◌, ◌≤◌, ◌<◌, String, ◌≡◌, refl, ◌∙◌, ◌≢◌, Bool, true, false, ◌&&◌, Option, some, List, [],
  ◌∷◌, ◌==◌, string_eq, if◌then◌else◌, ltb, arith, contains, without, beq_refl, contains-append,
  contains-without, Bool-cases, inl, inr,
}
use claude_todo.Agents.Owners.{
  Redis, AgentBus, registry_ttl_seconds, key_registry, is_owner, own, on_local_register,
  on_local_unregister, refresh_agent_registration, stop_bus, get_owner,
}
use claude_todo.Agents.Owners.Entry.{HeldFor, set_kept, expire_kept, del_kept, drop_kept}

-- What a worker does, its id first; a ping with the answer of its GET, a delete with whether its
-- transaction goes through.
pub data Op : Type 0 where
  register : String → String → Op
  unregister : String → String → Bool → Op
  ping : String → String → Option String → Op
  stop : String → (String → Bool) → Op

contains-own :
    (a b : String) (owned : List String) → contains owned a ≡ true → contains (own b owned) a ≡ true
contains-own a b owned h = ground (arith, contains-append owned (b ∷ []) a)

own-contains : (a : String) (owned : List String) → contains (own a owned) a ≡ true
own-contains a owned = ground (arith, contains-append owned (a ∷ []) a, string_eq.beq_iff a a)

module _ (r : Redis) where
  -- The store and each worker's owned agents; every bus is started.
  pub record Cluster : Type 0 where
    pub store : r.Store
    pub owned : String → List String

  abbrev pub bus : String → Cluster → AgentBus
  bus w x = record { worker_id = w; has_redis = true; owned_agents = x.owned w }

  abbrev pub put_bus : String → AgentBus → Cluster → Cluster
  put_bus w b x = record x { owned = λ other. if w == other then b.owned_agents else x.owned other }

  unfoldable pub apply_op : ℕ → Op → Cluster → Cluster
  unfolding on_local_register on_local_unregister refresh_agent_registration stop_bus
  apply_op now (register w agent_id) x =
      let (b, s, events) = on_local_register r now agent_id (bus w x) x.store in
      record (put_bus w b x) { store = s }
  apply_op now (unregister w agent_id undisturbed) x =
      let (b, s, events) = on_local_unregister r now agent_id undisturbed (bus w x) x.store in
      record (put_bus w b x) { store = s }
  apply_op now (ping w agent_id seen) x = record x {
    store = refresh_agent_registration r now agent_id seen (bus w x) x.store;
  }
  apply_op now (stop w undisturbed) x = record x {
    store = (stop_bus r now undisturbed (bus w x) x.store).0;
  }

  unfoldable pub run_ops : List (ℕ × Op) → Cluster → Cluster
  unfolding apply_op
  run_ops [] x = x
  run_ops ((now, op) ∷ ops) x = run_ops ops (apply_op now op x)

  module _ (w a : String) where
    -- What does not end the ownership of the worker: no other worker's agent connects under this id,
    -- and the worker neither loses the agent nor stops.
    abbrev pub Spares : Op → Type 0
    Spares (register v b) = b ≡ a → v ≡ w
    Spares (unregister v b undisturbed) = v ≡ w → b ≢ a
    Spares (ping v b seen) = Unit
    Spares (stop v undisturbed) = v ≢ w

    -- Until when an operation keeps the entry.
    abbrev pub due_after : ℕ → ℕ → Op → ℕ
    due_after until now (register v b) = if b == a then now + registry_ttl_seconds else until
    due_after until now (unregister v b undisturbed) = until
    due_after until now (ping v b seen) =
        if v == w && b == a && is_owner seen w then now + registry_ttl_seconds else until
    due_after until now (stop v undisturbed) = until

    unfoldable pub due : ℕ → List (ℕ × Op) → ℕ
    due until [] = until
    due until ((now, op) ∷ ops) = due (due_after until now op) ops

    unfoldable pub last_time : ℕ → List (ℕ × Op) → ℕ
    last_time from [] = from
    last_time from ((now, op) ∷ ops) = last_time now ops

    -- Each operation comes before the entry lapses.
    unfoldable pub InTime : ℕ → ℕ → List (ℕ × Op) → Type 0
    InTime from until [] = Unit
    InTime from until ((now, op) ∷ ops) =
        (from ≤ now) × (now < until) × Spares op × InTime now (due_after until now op) ops

    abbrev pub IsHeld : Cluster → ℕ → ℕ → Type 0
    IsHeld x from until =
        (contains (x.owned w) a ≡ true)
        × (until ≤ from + registry_ttl_seconds)
        × HeldFor r w a x.store from until

    put-owned :
        (f : List String → List String) (v : String) (owned : String → List String)
        → contains (owned w) a ≡ true
        → (v ≡ w → contains (f (owned w)) a ≡ true)
        → contains (if v == w then f (owned v) else owned w) a ≡ true
    put-owned f v owned has keeps = elim (Bool-cases (v == w)) [
      | inl mine ↦ let same : v ≡ w = (string_eq.beq_iff v w).0 mine in rw (mine, same) (keeps same)
      | inr theirs ↦ rw theirs has
    ]

    -- A ping that does not get to the EXPIRE is none that counts.
    ping-unowned :
        (until now : ℕ) (v b : String) (seen : Option String) (owned : String → List String)
        → contains (owned w) a ≡ true
        → (contains (owned v) b && is_owner seen v) ≡ false
        → due_after until now (ping v b seen) ≡ until
    ping-unowned until now v b seen owned has skipped = elim (Bool-cases (v == w && b == a)) [
      | inl both ↦
          let mine : v ≡ w = ground (arith, string_eq.beq_iff v w, both) in
          let here : b ≡ a = ground (arith, string_eq.beq_iff b a, both) in
          let none_seen : is_owner seen w ≡ false = rw (mine, here, has) at skipped in
          ground (arith, none_seen)
      | inr other ↦ ground (arith, other)
    ]

    refresh_kept :
        (x : Cluster) (now until : ℕ) (v b : String) (seen : Option String)
        → now < until
        → until ≤ now + registry_ttl_seconds
        → contains (x.owned w) a ≡ true
        → HeldFor r w a x.store now until
        → HeldFor r w a
            (refresh_agent_registration r now b seen (bus v x) x.store)
            now
            (due_after until now (ping v b seen))
    unfolding refresh_agent_registration
    refresh_kept x now until v b seen alive within has held t begun ends =
        elim (Bool-cases (contains (x.owned v) b)) [
          | inl owned ↦ elim (Bool-cases (is_owner seen v)) [
            | inl stored ↦
                rw (owned, stored)
                  (expire_kept r w a now until b x.store alive within held t begun
                    (ground (arith, ends, within)))
            | inr strange ↦
                let skipped : (contains (x.owned v) b && is_owner seen v) ≡ false =
                  rw (owned, strange) refl in
                rw (owned, strange)
                  (held t begun (rw (ping-unowned until now v b seen x.owned has skipped) at ends))
          ]
          | inr unowned ↦
              let skipped : (contains (x.owned v) b && is_owner seen v) ≡ false = rw unowned refl in
              rw unowned
                (held t begun (rw (ping-unowned until now v b seen x.owned has skipped) at ends))
        ]

    apply_op-IsHeld :
        (x : Cluster) (from until now : ℕ) (op : Op)
        → IsHeld x from until
        → from ≤ now
        → now < until
        → Spares op
        → IsHeld (apply_op now op x) now (due_after until now op)
    unfolding apply_op on_local_register on_local_unregister stop_bus
    apply_op-IsHeld x from until now (register v b) (has, within, held) begun alive spares = (
      put-owned (own b) v x.owned has (λ _. contains-own a b (x.owned w) has),
      ground (arith, within, begun),
      set_kept r w a now until b v x.store spares (λ t h. held t (omega arith)),
    )
    apply_op-IsHeld x from until now (unregister v b undisturbed) (has, within, held) begun alive
          spares =
        (
          put-owned (without b) v x.owned has (λ mine.
              contains-without b a (x.owned w)
              ∙ (let apart : (b == a) ≡ false =
                    ground (arith, string_eq.beq_iff b a, spares mine) in
                  rw apart has)),
          omega arith,
          del_kept r w a now until b v undisturbed x.store alive spares
              (λ t h. held t (omega arith)),
        )
    apply_op-IsHeld x from until now (ping v b seen) (has, within, held) begun alive spares = (
      has,
      ground (arith, within, begun),
      refresh_kept x now until v b seen alive (omega arith) has (λ t h. held t (omega arith)),
    )
    apply_op-IsHeld x from until now (stop v undisturbed) (has, within, held) begun alive spares = (
      has,
      omega arith,
      drop_kept r w a now until undisturbed (bus v x) (x.owned v) x.store alive spares
          (λ t h. held t (omega arith)),
    )

    run_ops-IsHeld :
        (x : Cluster) (from until : ℕ) (ops : List (ℕ × Op))
        → IsHeld x from until
        → InTime from until ops
        → IsHeld (run_ops ops x) (last_time from ops) (due until ops)
    unfolding run_ops due last_time InTime
    run_ops-IsHeld x from until [] held timely = held
    run_ops-IsHeld x from until ((now, op) ∷ ops) held (begun, alive, spares, timely) =
        run_ops-IsHeld (apply_op now op x) now (due_after until now op) ops
          (apply_op-IsHeld x from until now op held begun alive spares) timely

    register-IsHeld :
        (x : Cluster) (now : ℕ)
        → IsHeld (apply_op now (register w a) x) now (now + registry_ttl_seconds)
    unfolding apply_op on_local_register
    register-IsHeld x now = (
      rw (beq_refl w) (own-contains a (x.owned w)),
      omega arith,
      λ t begun ends.
          let before : ltb t (now + registry_ttl_seconds) ≡ true = ground (arith, ends) in
          rw (r.set_get now t x.store (key_registry a) w registry_ttl_seconds begun, before) refl,
    )

    -- Once an agent has connected to a worker, the worker is found as its owner, by any worker and
    -- whatever the workers do, until 90 seconds after the connect or the last ping of it at which the
    -- worker found itself the owner, as long as every step comes before that, no other worker takes
    -- the agent over, and the worker neither loses it nor stops.
    pub get_owner-run :
        (x : Cluster) (now : ℕ) (ops : List (ℕ × Op)) (asker : String) (t : ℕ)
        → InTime now (now + registry_ttl_seconds) ops
        → last_time now ops ≤ t
        → t < due (now + registry_ttl_seconds) ops
        → (let end = run_ops ops (apply_op now (register w a) x) in
            get_owner r t a (bus asker end) end.store)
          ≡ some w
    unfolding get_owner
    get_owner-run x now ops asker t timely begun ends =
        (run_ops-IsHeld (apply_op now (register w a) x) now (now + registry_ttl_seconds) ops
            (register-IsHeld x now) timely).2
          t begun ends
