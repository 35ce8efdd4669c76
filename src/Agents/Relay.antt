-- ===== src/Agents/Relay.antt =====
-- A caller on another worker against one on the worker that holds the WebSocket.
use Prim.Native.String.{◌++◌ as append}
use claude_todo.Prelude.{
  ℕ, String, ◌≡◌, refl, sym, ap, ◌∙◌, false, Option, none, some, List, [], ◌∷◌, ◌++◌, ◌+◌, ◌<◌,
  ◌==◌, string_eq, leb, arith, All, Bool-cases, some_injective, inl, inr,
}
use claude_todo.Agents.Calls.{
  AgentError, offline, timed_out, busy, shutting_down, runtime, other, Outcome, returned, raised,
}
use claude_todo.Agents.Bus.{
  Texts, BusResponse, response_of, dispatch_remote_command, read_response, await_response,
  send_request_remote,
}

-- What the other worker makes of an exception: its own request id for that of the owner, and a
-- RuntimeError for an exception of another kind.
abbrev pub as_relayed : String → String → AgentError → AgentError
as_relayed agent_id bus_id (busy own per_agent total) = busy agent_id per_agent total
as_relayed agent_id bus_id (offline own) = offline agent_id
as_relayed agent_id bus_id shutting_down = shutting_down
as_relayed agent_id bus_id (timed_out rid seconds) = timed_out bus_id seconds
as_relayed agent_id bus_id (runtime text) = runtime text
as_relayed agent_id bus_id (other type_name text) = runtime (append type_name (append ": " text))

abbrev pub relayed : String → String → Outcome → Outcome
relayed agent_id bus_id (returned result) = returned result
relayed agent_id bus_id (raised e) = raised (as_relayed agent_id bus_id e)

module _ (x : Texts) where
  read_response-response_of :
      (agent_id bus_id : String) (timeout : ℕ) (strange : String) (o : Outcome)
      → read_response agent_id bus_id timeout strange (response_of x agent_id o)
        ≡ relayed agent_id bus_id o
  read_response-response_of agent_id bus_id timeout strange (returned result) = refl
  read_response-response_of agent_id bus_id timeout strange (raised (busy own per_agent total)) =
      refl
  read_response-response_of agent_id bus_id timeout strange (raised (offline own)) = refl
  read_response-response_of agent_id bus_id timeout strange (raised shutting_down) = refl
  read_response-response_of agent_id bus_id timeout strange (raised (timed_out rid seconds)) = refl
  read_response-response_of agent_id bus_id timeout strange (raised (runtime text)) =
      ap (λ s. raised (runtime s)) (x.str_runtime text)
  read_response-response_of agent_id bus_id timeout strange (raised (other type_name text)) = refl

  -- What the owner publishes for a request is its outcome.
  response-published :
      (agent_id bus_id msg_type : String) (asked : Outcome) (response : BusResponse)
      → (msg_type == "__send_raw__") ≡ false
      → dispatch_remote_command x
          (record { request_id = bus_id; agent_id = agent_id; msg_type = msg_type })
          none
          asked
        ≡ some (bus_id, response)
      → response_of x agent_id asked ≡ response
  unfolding dispatch_remote_command
  response-published agent_id bus_id msg_type asked response plain_type sent =
      elim (Bool-cases (bus_id == "")) [
        | inl blank ↦ cc (rw blank at sent)
        | inr given ↦
            ap (λ (p : String × BusResponse). p.1) (some_injective (rw (given, plain_type) at sent))
      ]

  await_response-silent :
      (agent_id bus_id : String) (timeout : ℕ) (strange : String) (deadline now : ℕ)
      (silent : List (ℕ × Option BusResponse)) (response : BusResponse)
      (later : List (ℕ × Option BusResponse))
      → All (λ (p : ℕ × Option BusResponse). (p.0 < deadline) × (p.1 ≡ none)) silent
      → now < deadline
      → await_response agent_id bus_id timeout strange deadline
          (silent ++ (now, some response) ∷ later)
        ≡ read_response agent_id bus_id timeout strange response
  unfolding await_response
  await_response-silent agent_id bus_id timeout strange deadline now [] response later h early =
      let open_still : leb deadline now ≡ false = ground (arith, early) in rw open_still refl
  await_response-silent agent_id bus_id timeout strange deadline now ((at, none) ∷ silent) response
        later h early =
      let open_still : leb deadline at ≡ false = ground (arith, h.0.0) in
      rw open_still (
        await_response-silent agent_id bus_id timeout strange deadline now silent response later h.1
          early)
  await_response-silent agent_id bus_id timeout strange deadline now ((at, some r) ∷ silent)
        response later h early =
      cc (h.0.1)

  -- A request that another worker owns comes to the same result as at the owner, with the same kind
  -- of exception: the owner's response, when it comes before the deadline, gives the caller what the
  -- owner's transport returned or raised, with the caller's own request id in a timeout, and as a
  -- RuntimeError what is none of the transport's exceptions.
  pub send_request_remote-relayed :
      (agent_id bus_id owner msg_type : String) (timeout start now : ℕ) (strange : String)
      (asked : Outcome) (silent : List (ℕ × Option BusResponse)) (response : BusResponse)
      (later : List (ℕ × Option BusResponse))
      → (owner == "") ≡ false
      → (msg_type == "__send_raw__") ≡ false
      → dispatch_remote_command x
          (record { request_id = bus_id; agent_id = agent_id; msg_type = msg_type })
          none
          asked
        ≡ some (bus_id, response)
      → All (λ (p : ℕ × Option BusResponse). (p.0 < start + timeout) × (p.1 ≡ none)) silent
      → now < start + timeout
      → send_request_remote agent_id bus_id timeout strange
          (some owner)
          start
          (silent ++ (now, some response) ∷ later)
        ≡ relayed agent_id bus_id asked
  unfolding send_request_remote
  send_request_remote-relayed agent_id bus_id owner msg_type timeout start now strange asked silent
        response later named plain_type sent quiet early =
      rw named (
        await_response-silent agent_id bus_id timeout strange (start + timeout) now silent response
          later quiet early
        ∙ ap (read_response agent_id bus_id timeout strange)
            (sym (response-published agent_id bus_id msg_type asked response plain_type sent))
        ∙ read_response-response_of agent_id bus_id timeout strange asked)
