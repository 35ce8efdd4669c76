-- ===== src/Agents/Calls.antt =====
-- `send_request` of backend/app/services/agent_local_transport.py as the steps of its calls between
-- two awaits, and the other methods between them, in any order. A semaphore and a send lock only
-- narrow the orders. A call has a number of its own.
use Prim.Native.String.{◌++◌ as append}
use claude_todo.Prelude.{
  ℕ, String, Bool, false, ◌||◌, Option, none, some, List, [], ◌∷◌, nat_eq, string_eq, if◌then◌else◌,
  leb,
}
use claude_todo.Prelude.Dict.{lookup, insert, erase}
use claude_todo.Agents.{
  Message, Future, waiting, answered, failed, LocalAgentTransport, init, pending_of,
  increment_pending, decrement_pending, global_pending, is_there, publish, after_close, unregister,
  wake_connect_waiters, resolve_request, start_shutdown,
}

pub data AgentError : Type 0 where
  offline : String → AgentError
  timed_out : String → ℕ → AgentError
  busy : String → ℕ → ℕ → AgentError
  shutting_down : AgentError
  runtime : String → AgentError
  -- Another exception, by its type and its text: of the WebSocket, or a cancellation.
  other : String → String → AgentError

pub data Outcome : Type 0 where
  returned : List (String × String) → Outcome
  raised : AgentError → Outcome

-- Where a call of `send_request` waits: for the agent to connect, for the semaphore, for the send
-- lock with its request's id, and for the response.
pub data Phase : Type 0 where
  connecting queued : Phase
  locking asked : String → Phase

pub record Call : Type 0 where
  pub agent_id : String
  pub timeout : ℕ
  pub phase : Phase

-- What MAX_PENDING_PER_AGENT and MAX_PENDING_GLOBAL are set to, and whether Python takes a JSON
-- value for true.
pub record Config : Type 0 where
  pub max_pending_per_agent : ℕ
  pub max_pending_global : ℕ
  pub truthy : String → Bool

-- The transport, the calls that wait, and what the others came to; `frames` are the WebSockets
-- written to, with the id of the request.
pub record World : Type 0 where
  pub transport : LocalAgentTransport
  pub calls : List (ℕ × Call)
  pub outcomes : List (ℕ × Outcome)
  pub frames : List (ℕ × String)

abbrev pub start : World
start = record { transport = init; calls = []; outcomes = []; frames = [] }

abbrev pub end_call : ℕ → Outcome → World → World
end_call n outcome w = record w { calls = erase n w.calls; outcomes = (n, outcome) ∷ w.outcomes }

-- The `finally` blocks of a call: that of the request, and that of the pending count.
abbrev pub forget : Phase → LocalAgentTransport → LocalAgentTransport
forget connecting t = t
forget queued t = t
forget (locking rid) t = record t { pending = erase rid t.pending }
forget (asked rid) t = record t { pending = erase rid t.pending }

-- A call that was counted comes to its end.
abbrev pub finish : ℕ → Call → Outcome → World → World
finish n call outcome w =
    end_call n outcome
      (record w { transport = decrement_pending call.agent_id (forget call.phase w.transport) })

-- The call is counted and goes to the semaphore.
abbrev pub enqueue : ℕ → Call → World → World
enqueue n call w = record w {
  transport = increment_pending call.agent_id w.transport;
  calls = insert n (record call { phase = queued }) w.calls;
}

abbrev pub is_busy : Config → LocalAgentTransport → String → Bool
is_busy c t agent_id =
    leb c.max_pending_per_agent (pending_of t.pending_count agent_id)
    || leb c.max_pending_global (global_pending t)

abbrev pub busy_error : LocalAgentTransport → String → AgentError
busy_error t agent_id = busy agent_id (pending_of t.pending_count agent_id) (global_pending t)

-- The connection is looked up before the call is counted, and once more after the wait for it.
abbrev pub admit : ℕ → Call → Bool → World → World
admit n call wait w =
    let offline_now = end_call n (raised (offline call.agent_id)) w in
    if is_there (lookup call.agent_id w.transport.connections)
    then enqueue n call w
    else if wait
    then record w { calls = insert n call w.calls }
    else offline_now

-- A call from its start to its first await.
unfoldable pub enter : Config → ℕ → String → ℕ → Bool → World → World
enter c n agent_id timeout wait w =
    let t = w.transport in
    let call : Call = record { agent_id = agent_id; timeout = timeout; phase = connecting } in
    if t.shutting_down
    then end_call n (raised shutting_down) w
    else if is_busy c t agent_id
    then end_call n (raised (busy_error t agent_id)) w
    else admit n call wait w

-- `wait_for_connection` is over, with its answer.
unfoldable pub connected : ℕ → Call → Bool → World → World
connected n call found w =
    if found then admit n call false w else end_call n (raised (offline call.agent_id)) w

abbrev pub ask : ℕ → Call → String → World → World
ask n call rid w =
    let t = w.transport in
    record w {
      transport = record t {
        pending = insert rid call.agent_id t.pending;
        futures = insert rid waiting t.futures;
      };
      calls = insert n (record call { phase = locking rid }) w.calls;
    }

-- The semaphore lets the call in, and `rid` is drawn.
unfoldable pub acquired : ℕ → Call → String → World → World
acquired n call rid w =
    if is_there (lookup call.agent_id w.transport.connections)
    then ask n call rid w
    else finish n call (raised (offline call.agent_id)) w

abbrev pub write_to : ℕ → Call → String → World → Option ℕ → World
write_to n call rid w none = finish n call (raised (offline call.agent_id)) w
write_to n call rid w (some ws) = record w {
  calls = insert n (record call { phase = asked rid }) w.calls;
  frames = (ws, rid) ∷ w.frames;
}

-- The send lock is got, and the frame goes out on the WebSocket of this moment.
unfoldable pub locked : ℕ → Call → String → World → World
locked n call rid w = write_to n call rid w (lookup call.agent_id w.transport.connections)

abbrev pub or_text : Option String → String
or_text none = ""
or_text (some s) = s

abbrev pub has_error : Config → Option String → Bool
has_error c none = false
has_error c (some e) = c.truthy e

-- How the payload of a response is taken.
abbrev pub read_reply : Config → Message → Option (List (String × String)) → Outcome
read_reply c msg none = raised (
    runtime (
      append "Agent response missing ``payload`` dict (envelope keys: " (append msg.key_names ")")))
read_reply c msg (some inner) =
    if has_error c (lookup "error" inner)
    then raised (runtime (or_text (lookup "error" inner)))
    else returned inner

-- `wait_for` on the future: its answer, its exception, or the timeout where it is not done.
abbrev pub outcome_of : Config → Call → String → Option Future → Outcome
outcome_of c call rid none = raised (timed_out rid call.timeout)
outcome_of c call rid (some waiting) = raised (timed_out rid call.timeout)
outcome_of c call rid (some (answered msg)) = read_reply c msg msg.payload
outcome_of c call rid (some (failed agent_id)) = raised (offline agent_id)

unfoldable pub replied : Config → ℕ → Call → String → World → World
replied c n call rid w = finish n call (outcome_of c call rid (lookup rid w.transport.futures)) w

-- What can happen next: a step of a call, which may also be broken off where it waits, or a method
-- that is called from elsewhere. `register` is two events, before and behind the close of the old
-- WebSocket, and the second may come at any time.
pub data Move : Type 0 where
  connection_over : Bool → Move
  semaphore_got : String → Move
  lock_got wait_over : Move
  broken : AgentError → Move

pub data Event : Type 0 where
  entering : ℕ → String → ℕ → Bool → Event
  moving : ℕ → Move → Event
  publishing : String → ℕ → Event
  old_closed : String → Bool → Event
  unregistering : String → Option ℕ → Event
  waking : String → Event
  responding : Message → Event
  stopping : Event

abbrev pub break_off : ℕ → Call → AgentError → World → Phase → World
break_off n call e w connecting = end_call n (raised e) w
break_off n call e w queued = finish n call (raised e) w
break_off n call e w (locking rid) = finish n call (raised e) w
break_off n call e w (asked rid) = finish n call (raised e) w

-- The step of a call that waits in its phase; `none` where the move does not fit.
abbrev pub step_call : Config → Move → ℕ → Call → Phase → World → Option World
step_call c (connection_over found) n call connecting w = some (connected n call found w)
step_call c (semaphore_got rid) n call queued w = some (acquired n call rid w)
step_call c lock_got n call (locking rid) w = some (locked n call rid w)
step_call c wait_over n call (asked rid) w = some (replied c n call rid w)
step_call c (broken e) n call phase w = some (break_off n call e w phase)
step_call c move n call phase w = none

abbrev pub step_found : Config → Move → ℕ → World → Option Call → Option World
step_found c move n w none = none
step_found c move n w (some call) = step_call c move n call call.phase w

abbrev pub enter_new : Config → ℕ → String → ℕ → Bool → World → Option Call → Option World
enter_new c n agent_id timeout wait w none = some (enter c n agent_id timeout wait w)
enter_new c n agent_id timeout wait w (some call) = none

abbrev pub on_transport : (LocalAgentTransport → LocalAgentTransport) → World → World
on_transport f w = record w { transport = f w.transport }

unfoldable pub step : Config → Event → World → Option World
unfolding enter connected acquired locked replied unregister wake_connect_waiters resolve_request
    start_shutdown
step c (entering n agent_id timeout wait) w =
    enter_new c n agent_id timeout wait w (lookup n w.calls)
step c (moving n move) w = step_found c move n w (lookup n w.calls)
step c (publishing agent_id ws) w = some (on_transport (publish agent_id ws) w)
step c (old_closed agent_id is_old) w = some (on_transport (after_close agent_id is_old) w)
step c (unregistering agent_id ws) w = some (on_transport (unregister agent_id ws) w)
step c (waking agent_id) w = some (on_transport (wake_connect_waiters agent_id) w)
step c (responding msg) w = some (on_transport (λ t. (resolve_request msg t).1) w)
step c stopping w = some (on_transport start_shutdown w)

abbrev pub next_world : (World → Option World) → Option World → Option World
next_world f none = none
next_world f (some w) = f w

-- A course of events, each of which fits where it stands.
unfoldable pub run : Config → List Event → World → Option World
unfolding step
run c [] w = some w
run c (event ∷ events) w = next_world (run c events) (step c event w)
