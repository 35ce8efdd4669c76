-- ===== src/Agents/Bus.antt =====
-- backend/app/services/agent_bus.py: a request to an agent whose WebSocket another worker holds. The
-- caller's worker pushes a command to the owner and waits for the response that the owner publishes.
-- Redis carries both unchanged; JSON texts are not modelled. Times are the numbers of a clock.
use Prim.Native.String.{◌++◌ as append}
use claude_todo.Prelude.{
  ℕ, String, ◌≡◌, Bool, false, not, ◌&&◌, Option, none, some, List, [], ◌∷◌, ◌+◌, ◌==◌, string_eq,
  if◌then◌else◌, leb,
}
use claude_todo.Prelude.Dict.{lookup}
use claude_todo.Agents.{LocalAgentTransport, is_connected, wake_connect_waiters, or_zero}
use claude_todo.Agents.Calls.{
  AgentError, offline, timed_out, busy, shutting_down, runtime, other, Outcome, returned, raised,
}

-- The texts that Python makes of an exception and of a number; that of a RuntimeError is its
-- argument.
pub record Texts : Type 0 where
  pub str : AgentError → String
  pub str_runtime : (s : String) → str (runtime s) ≡ s
  pub seconds : ℕ → String

-- What the owner publishes; the numbers of a busy payload are fields of their own.
pub record BusResponse : Type 0 where
  pub payload : List (String × String)
  pub per_agent : Option ℕ
  pub global_pending : Option ℕ
  pub error_kind : Option String
  pub timeout : Option ℕ

abbrev pub of_payload : List (String × String) → Option String → BusResponse
of_payload payload kind = record {
  payload = payload;
  per_agent = none;
  global_pending = none;
  error_kind = kind;
  timeout = none;
}

abbrev pub error_payload : String → List (String × String)
error_payload text = ("error", text) ∷ []

module _ (x : Texts) where
  -- The handlers of `_dispatch_remote_command`, in their order.
  abbrev pub response_of_error : String → AgentError → BusResponse
  response_of_error agent_id (busy own per_agent total) =
      record (of_payload (error_payload (x.str (busy own per_agent total))) (some "busy")) {
        per_agent = some per_agent;
        global_pending = some total;
      }
  response_of_error agent_id (offline own) =
      of_payload (error_payload (append "Agent " (append agent_id " is offline"))) (some "offline")
  response_of_error agent_id shutting_down =
      of_payload (error_payload "Worker is shutting down") (some "shutting_down")
  response_of_error agent_id (timed_out rid seconds) =
      record (of_payload
        (error_payload (append "Timed out after " (append (x.seconds seconds) "s")))
        (some "timeout")) { timeout = some seconds }
  response_of_error agent_id (runtime text) =
      of_payload (error_payload (x.str (runtime text))) (some "runtime")
  response_of_error agent_id (other type_name text) =
      of_payload (error_payload (append type_name (append ": " text))) (some "runtime")

  abbrev pub response_of : String → Outcome → BusResponse
  response_of agent_id (returned result) = of_payload result none
  response_of agent_id (raised e) = response_of_error agent_id e

  -- What a command asks the owner's transport for.
  pub record Command : Type 0 where
    pub request_id : String
    pub agent_id : String
    pub msg_type : String

  -- `send_raw` gives an empty answer.
  abbrev pub raw_outcome : Option AgentError → Outcome
  raw_outcome none = returned []
  raw_outcome (some e) = raised e

  -- The response of the owner, whose transport sends the payload of the command by `send_raw` or by
  -- `send_request`; none is published for a command without an id.
  unfoldable pub dispatch_remote_command :
      Command → Option AgentError → Outcome → Option (String × BusResponse)
  dispatch_remote_command command raw asked =
      if command.request_id == ""
      then none
      else some (
        command.request_id,
        response_of command.agent_id
            (if command.msg_type == "__send_raw__" then raw_outcome raw else asked),
      )

abbrev pub or_default : ℕ → Option ℕ → ℕ
or_default n none = n
or_default n (some m) = m

abbrev pub or_unknown : Option String → String
or_unknown none = "unknown agent error"
or_unknown (some text) = text

-- How `send_request_remote` takes a response, by its `error_kind`; the last argument stands for the
-- text about a kind that it does not know.
abbrev pub error_of_kind : String → String → ℕ → BusResponse → String → String → AgentError
error_of_kind agent_id bus_id timeout response strange kind =
    if kind == "busy"
    then busy agent_id (or_zero response.per_agent) (or_zero response.global_pending)
    else if kind == "offline"
    then offline agent_id
    else if kind == "shutting_down"
    then shutting_down
    else if kind == "timeout"
    then timed_out bus_id (or_default timeout response.timeout)
    else if kind == "runtime"
    then runtime (or_unknown (lookup "error" response.payload))
    else runtime strange

abbrev pub of_kind : String → String → ℕ → String → BusResponse → Option String → Outcome
of_kind agent_id bus_id timeout strange response none = returned response.payload
of_kind agent_id bus_id timeout strange response (some kind) =
    if kind == ""
    then returned response.payload
    else raised (error_of_kind agent_id bus_id timeout response strange kind)

abbrev pub read_response : String → String → ℕ → String → BusResponse → Outcome
read_response agent_id bus_id timeout strange response =
    of_kind agent_id bus_id timeout strange response response.error_kind

-- The loop over the polls, each with its time and the response that it brings; when no more polls
-- are given, the deadline has passed.
unfoldable pub await_response :
    String → String → ℕ → String → ℕ → List (ℕ × Option BusResponse) → Outcome
await_response agent_id bus_id timeout strange deadline [] = raised (timed_out bus_id timeout)
await_response agent_id bus_id timeout strange deadline ((now, none) ∷ polls) =
    let rest = await_response agent_id bus_id timeout strange deadline polls in
    if leb deadline now then raised (timed_out bus_id timeout) else rest
await_response agent_id bus_id timeout strange deadline ((now, some response) ∷ polls) =
    if leb deadline now
    then raised (timed_out bus_id timeout)
    else read_response agent_id bus_id timeout strange response

-- The last argument is what the polls bring. No command goes out where no worker is known to own the
-- agent.
unfoldable pub send_request_remote :
    String → String → ℕ → String → Option String → ℕ → List (ℕ × Option BusResponse) → Outcome
unfolding await_response
send_request_remote agent_id bus_id timeout strange none now polls = raised (offline agent_id)
send_request_remote agent_id bus_id timeout strange (some owner) now polls =
    if owner == ""
    then raised (offline agent_id)
    else await_response agent_id bus_id timeout strange (now + timeout) polls

-- `send_request` of backend/app/services/agent_manager.py: where a request goes. `found` is the
-- answer of `wait_for_connection`, and `then_connected` that of `is_connected` behind it.
pub data Route : Type 0 where
  to_local : Bool → Route
  to_bus : Route

unfoldable pub route : LocalAgentTransport → String → Bool → Bool → Bool → Route
route t agent_id waits found then_connected =
    if is_connected t agent_id
    then to_local waits
    else if waits && found && then_connected
    then to_local false
    else to_bus

-- An event of `agent:events`: its type, its agent and the worker that sent it.
pub record BusEvent : Type 0 where
  pub event_type : String
  pub agent_id : String
  pub worker_id : String

-- A round of `_events_listener`.
unfoldable pub hear_event : String → BusEvent → LocalAgentTransport → LocalAgentTransport
hear_event worker_id event t =
    if not (event.agent_id == "")
      && event.event_type == "connect"
      && not (event.worker_id == worker_id)
    then wake_connect_waiters event.agent_id t
    else t
