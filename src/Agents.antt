-- ===== src/Agents.antt =====
-- backend/app/services/agent_local_transport.py: the state of `LocalAgentTransport` and the methods
-- that change it at one go. A WebSocket, an asyncio event and a future are objects of their own: the
-- first two are numbers, and a future goes by the id of its request. Set events and futures belong
-- to the event loop and are part of the state here. The lock of `register` and `unregister` only
-- delays other calls of these two.
pub mod Calls
pub mod Accounts
pub mod Steps
pub mod Counted
pub mod Caps
pub mod Routed
pub mod Bus
pub mod Relay
pub mod Drain
pub mod Owners
pub mod Examples
use claude_todo.Prelude.{
  ℕ, String, Bool, true, false, not, ◌&&◌, ◌||◌, Option, none, some, List, [], ◌∷◌, ◌++◌, ◌+◌, ◌-◌,
  map, ◌==◌, nat_eq, string_eq, if◌then◌else◌, leb, contains, without,
}
use claude_todo.Prelude.Dict.{lookup, insert, erase}

-- A response: the JSON text of each value of its payload, `none` where the payload is no dict; and
-- the text that names the keys of the envelope.
pub record Message : Type 0 where
  pub request_id : Option String
  pub payload : Option (List (String × String))
  pub key_names : String

pub data Future : Type 0 where
  waiting : Future
  answered : Message → Future
  failed : String → Future

pub record LocalAgentTransport : Type 0 where
  pub connections : List (String × ℕ)
  pub pending : List (String × String)
  pub pending_count : List (String × ℕ)
  pub connect_waiters : List (String × List ℕ)
  pub shutting_down : Bool
  pub drain_event : Bool
  pub futures : List (String × Future)
  pub set_events : List ℕ

abbrev pub init : LocalAgentTransport
init = record {
  connections = [];
  pending = [];
  pending_count = [];
  connect_waiters = [];
  shutting_down = false;
  drain_event = true;
  futures = [];
  set_events = [];
}

abbrev pub or_zero : Option ℕ → ℕ
or_zero none = 0
or_zero (some n) = n

-- `get(agent_id, 0)` of the pending counts.
abbrev pub pending_of : List (String × ℕ) → String → ℕ
pending_of counts agent_id = or_zero (lookup agent_id counts)

unfoldable pub increment_pending : String → LocalAgentTransport → LocalAgentTransport
increment_pending agent_id t = record t {
  pending_count = insert agent_id (pending_of t.pending_count agent_id + 1) t.pending_count;
  drain_event = false;
}

abbrev pub is_empty : {A : Type 0} → List A → Bool
is_empty [] = true
is_empty (x ∷ xs) = false

abbrev pub with_counts : List (String × ℕ) → LocalAgentTransport → LocalAgentTransport
with_counts counts t = record t {
  pending_count = counts;
  drain_event = if is_empty counts then true else t.drain_event;
}

abbrev pub lowered : String → List (String × ℕ) → List (String × ℕ)
lowered agent_id counts =
    let cur = pending_of counts agent_id in
    if leb cur 1 then erase agent_id counts else insert agent_id (cur - 1) counts

unfoldable pub decrement_pending : String → LocalAgentTransport → LocalAgentTransport
decrement_pending agent_id t = with_counts (lowered agent_id t.pending_count) t

unfoldable pub total_pending : List (String × ℕ) → ℕ
total_pending [] = 0
total_pending ((agent_id, n) ∷ counts) = n + total_pending counts

abbrev pub global_pending : LocalAgentTransport → ℕ
global_pending t = total_pending t.pending_count

-- `if not fut.done(): fut.set_exception(AgentOfflineError(agent_id))`
abbrev pub fail_future : String → Option Future → Future
fail_future agent_id none = failed agent_id
fail_future agent_id (some waiting) = failed agent_id
fail_future agent_id (some (answered msg)) = answered msg
fail_future agent_id (some (failed other)) = failed other

abbrev pub flush_one : String → String → LocalAgentTransport → LocalAgentTransport
flush_one agent_id rid t = record t {
  pending = erase rid t.pending;
  futures = insert rid (fail_future agent_id (lookup rid t.futures)) t.futures;
}

abbrev pub rids_of : String → List (String × String) → List String
rids_of agent_id [] = []
rids_of agent_id ((rid, aid) ∷ pending) =
    let rest = rids_of agent_id pending in if aid == agent_id then rid ∷ rest else rest

unfoldable pub flush_all : String → List String → LocalAgentTransport → LocalAgentTransport
flush_all agent_id [] t = t
flush_all agent_id (rid ∷ rids) t = flush_all agent_id rids (flush_one agent_id rid t)

abbrev pub flush : String → LocalAgentTransport → LocalAgentTransport
flush agent_id t = flush_all agent_id (rids_of agent_id t.pending) t

abbrev pub or_nobody : Option (List ℕ) → List ℕ
or_nobody none = []
or_nobody (some events) = events

unfoldable pub wake_connect_waiters : String → LocalAgentTransport → LocalAgentTransport
wake_connect_waiters agent_id t = record t {
  connect_waiters = erase agent_id t.connect_waiters;
  set_events = or_nobody (lookup agent_id t.connect_waiters) ++ t.set_events;
}

abbrev pub is_replaced : Option ℕ → ℕ → Bool
is_replaced none ws = false
is_replaced (some old_ws) ws = not (old_ws == ws)

-- `register` up to the close of the old WebSocket, and whether there is one to close.
abbrev pub publish : String → ℕ → LocalAgentTransport → LocalAgentTransport
publish agent_id ws t = record t { connections = insert agent_id ws t.connections }

-- `register` behind the close, which may raise.
abbrev pub after_close : String → Bool → LocalAgentTransport → LocalAgentTransport
after_close agent_id is_old t =
    wake_connect_waiters agent_id (if is_old then flush agent_id t else t)

-- `register` where nothing else happens during the close.
unfoldable pub register : String → ℕ → LocalAgentTransport → LocalAgentTransport
register agent_id ws t =
    after_close agent_id (is_replaced (lookup agent_id t.connections) ws) (publish agent_id ws t)

abbrev pub removed : String → LocalAgentTransport → LocalAgentTransport
removed agent_id t = flush agent_id (record t { connections = erase agent_id t.connections })

abbrev pub is_current : Option ℕ → ℕ → Bool
is_current none ws = false
is_current (some current) ws = current == ws

unfoldable pub unregister : String → Option ℕ → LocalAgentTransport → LocalAgentTransport
unregister agent_id none t = removed agent_id t
unregister agent_id (some ws) t =
    if is_current (lookup agent_id t.connections) ws then removed agent_id t else t

abbrev pub is_there : {A : Type 0} → Option A → Bool
is_there none = false
is_there (some a) = true

abbrev pub is_connected : LocalAgentTransport → String → Bool
is_connected t agent_id = is_there (lookup agent_id t.connections)

abbrev pub get_connected_agent_ids : LocalAgentTransport → List String
get_connected_agent_ids t = map (λ (p : String × ℕ). p.0) t.connections

-- `setdefault(agent_id, set()).add(event)`
unfoldable pub add_connect_waiter : String → ℕ → LocalAgentTransport → LocalAgentTransport
add_connect_waiter agent_id event t =
    let events = or_nobody (lookup agent_id t.connect_waiters) in
    record t {
      connect_waiters =
          insert agent_id (if contains events event then events else event ∷ events)
            t.connect_waiters;
    }

unfoldable pub discard_connect_waiter : String → ℕ → LocalAgentTransport → LocalAgentTransport
discard_connect_waiter agent_id event t =
    let rest = without event (or_nobody (lookup agent_id t.connect_waiters)) in
    record t {
      connect_waiters =
          if is_empty rest
          then erase agent_id t.connect_waiters
          else insert agent_id rest t.connect_waiters;
    }

-- `entry and not entry[1].done()`
abbrev pub can_resolve : Option String → Option Future → Bool
can_resolve (some aid) (some waiting) = true
can_resolve (some aid) (some (answered msg)) = false
can_resolve (some aid) (some (failed other)) = false
can_resolve (some aid) none = false
can_resolve none future = false

abbrev pub resolve_with : Message → String → LocalAgentTransport → Bool × LocalAgentTransport
resolve_with msg rid t =
    if can_resolve (lookup rid t.pending) (lookup rid t.futures)
    then (true, record t { futures = insert rid (answered msg) t.futures })
    else (false, t)

abbrev pub resolve_named :
    Message → Option String → LocalAgentTransport → Bool × LocalAgentTransport
resolve_named msg none t = (false, t)
resolve_named msg (some rid) t = if rid == "" then (false, t) else resolve_with msg rid t

unfoldable pub resolve_request : Message → LocalAgentTransport → Bool × LocalAgentTransport
resolve_request msg t = resolve_named msg msg.request_id t

unfoldable pub start_shutdown : LocalAgentTransport → LocalAgentTransport
start_shutdown t = if t.shutting_down then t else record t { shutting_down = true }
