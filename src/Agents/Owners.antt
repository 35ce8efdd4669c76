-- ===== src/Agents/Owners.antt =====
-- The registry of backend/app/services/agent_bus.py: which worker holds the WebSocket of an agent.
-- Redis is a parameter, with the commands that the registry uses; times are seconds of its clock. An
-- operation stands for its command that writes: the delete of `_del_if_owner` goes through only when
-- nobody has touched the key since the GET, and the EXPIRE of a ping comes any time behind its GET.
-- The deletes of `stop` are made in one go. Commands that fail are not modelled but for such a
-- delete, nor are the tasks of the bus.
pub mod Entry
pub mod Kept
pub mod Examples
use Prim.Native.String.{◌++◌ as append}
use claude_todo.Prelude.{
  ℕ, ◌+◌, ◌≤◌, String, ◌≡◌, ◌≢◌, Bool, true, false, Option, none, some, List, [], ◌∷◌, ◌++◌, ◌==◌,
  string_eq, if◌then◌else◌, ltb, contains, without,
}
use claude_todo.Agents.{LocalAgentTransport, is_connected}
use claude_todo.Agents.Bus.{BusEvent}

-- SET with `ex`, GET, EXPIRE and DEL. SCAN gives the keys in no known order and is left out.
pub record Redis : Type 1 where
  pub Store : Type 0
  pub get : ℕ → Store → String → Option String
  pub set : ℕ → String → String → ℕ → Store → Store
  pub expire : ℕ → String → ℕ → Store → Store
  pub delete : String → Store → Store
  pub set_get :
      (now t : ℕ) (s : Store) (key v : String) (ex : ℕ)
      → now ≤ t
      → get t (set now key v ex s) key ≡ (if ltb t (now + ex) then some v else none)
  pub set_other :
      (now t : ℕ) (s : Store) (key other v : String) (ex : ℕ)
      → key ≢ other
      → get t (set now key v ex s) other ≡ get t s other
  pub expire_get :
      (now t : ℕ) (s : Store) (key v : String) (ex : ℕ)
      → get now s key ≡ some v
      → now ≤ t
      → get t (expire now key ex s) key ≡ (if ltb t (now + ex) then some v else none)
  pub expire_other :
      (now t : ℕ) (s : Store) (key other : String) (ex : ℕ)
      → key ≢ other
      → get t (expire now key ex s) other ≡ get t s other
  pub delete_other :
      (t : ℕ) (s : Store) (key other : String)
      → key ≢ other
      → get t (delete key s) other ≡ get t s other

abbrev pub registry_ttl_seconds : ℕ
registry_ttl_seconds = 90

abbrev pub key_registry : String → String
key_registry agent_id = append "agent:registry:" agent_id

-- The fields of `RedisAgentBus` that the registry needs; `has_redis` is false until `start`, where
-- no client was given.
pub record AgentBus : Type 0 where
  pub worker_id : String
  pub has_redis : Bool
  pub owned_agents : List String

abbrev pub connect_event : AgentBus → String → BusEvent
connect_event b agent_id = record {
  event_type = "connect";
  agent_id = agent_id;
  worker_id = b.worker_id;
}

abbrev pub disconnect_event : AgentBus → String → BusEvent
disconnect_event b agent_id = record {
  event_type = "disconnect";
  agent_id = agent_id;
  worker_id = b.worker_id;
}

-- A stored value against a worker's id.
abbrev pub is_owner : Option String → String → Bool
is_owner none worker_id = false
is_owner (some current) worker_id = current == worker_id

-- The set of owned agents with another one.
abbrev pub own : String → List String → List String
own agent_id owned = if contains owned agent_id then owned else owned ++ agent_id ∷ []

abbrev pub start_bus : AgentBus → AgentBus
start_bus b = record b { has_redis = true }

module _ (r : Redis) where
  open r use {Store, get, set, expire, delete}

  -- `undisturbed` is false where the transaction is refused.
  unfoldable pub del_if_owner : ℕ → String → String → Bool → Store → Bool × Store
  del_if_owner now key expected_owner undisturbed s =
      if is_owner (get now s key) expected_owner
      then (if undisturbed then (true, delete key s) else (false, s))
      else (false, s)

  unfoldable pub on_local_register :
      ℕ → String → AgentBus → Store → AgentBus × Store × List BusEvent
  on_local_register now agent_id b s =
      let b' : AgentBus = record b { owned_agents = own agent_id b.owned_agents } in
      if b.has_redis
      then (
        b',
        set now (key_registry agent_id) b.worker_id registry_ttl_seconds s,
        connect_event b agent_id ∷ [],
      )
      else (b', s, [])

  unfoldable pub on_local_unregister :
      ℕ → String → Bool → AgentBus → Store → AgentBus × Store × List BusEvent
  unfolding del_if_owner
  on_local_unregister now agent_id undisturbed b s =
      let b' : AgentBus = record b { owned_agents = without agent_id b.owned_agents } in
      if b.has_redis
      then (
        b',
        (del_if_owner now (key_registry agent_id) b.worker_id undisturbed s).1,
        disconnect_event b agent_id ∷ [],
      )
      else (b', s, [])

  unfoldable pub get_owner : ℕ → String → AgentBus → Store → Option String
  get_owner now agent_id b s = if b.has_redis then get now s (key_registry agent_id) else none

  unfoldable pub is_remotely_connected : ℕ → String → LocalAgentTransport → AgentBus → Store → Bool
  unfolding get_owner
  is_remotely_connected now agent_id t b s =
      if is_connected t agent_id
      then true
      else elim (get_owner now agent_id b s) [ none ↦ false | some owner ↦ true ]

  -- `seen` is what the GET of the ping has brought.
  unfoldable pub refresh_agent_registration : ℕ → String → Option String → AgentBus → Store → Store
  refresh_agent_registration now agent_id seen b s =
      if b.has_redis
      then (if contains b.owned_agents agent_id
          then (if is_owner seen b.worker_id
              then expire now (key_registry agent_id) registry_ttl_seconds s
              else s)
          else s)
      else s

  unfoldable pub drop_entries :
      ℕ → (String → Bool) → AgentBus → List String → Store → Store × List BusEvent
  unfolding del_if_owner
  drop_entries now undisturbed b [] s = (s, [])
  drop_entries now undisturbed b (agent_id ∷ agent_ids) s =
      let s' = (del_if_owner now (key_registry agent_id) b.worker_id (undisturbed agent_id) s).1 in
      let (s'', events) = drop_entries now undisturbed b agent_ids s' in
      (s'', disconnect_event b agent_id ∷ events)

  -- `stop` of a bus that was started.
  unfoldable pub stop_bus : ℕ → (String → Bool) → AgentBus → Store → Store × List BusEvent
  unfolding drop_entries
  stop_bus now undisturbed b s =
      if b.has_redis then drop_entries now undisturbed b b.owned_agents s else (s, [])
