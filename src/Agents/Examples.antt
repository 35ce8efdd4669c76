-- ===== src/Agents/Examples.antt =====
-- An agent that connects, is asked once and answers; and two callers that wait for an agent.
use claude_todo.Prelude.{
  String, ◌≡◌, ◌↔◌, refl, true, false, not, Option, none, some, List, [], ◌∷◌, ◌≤◌, ◌==◌, string_eq,
  nat_eq, inl, arith, Elem,
}
use claude_todo.Prelude.Totals.{total}
use claude_todo.Agents.{
  Message, is_empty, pending_of, total_pending, increment_pending, decrement_pending,
  resolve_request,
}
use claude_todo.Prelude.Dict.{lookup}
use claude_todo.Agents.Calls.{
  AgentError, busy, runtime, offline, timed_out, shutting_down, other, returned, raised, Config,
  World, start, Event, entering, moving, connection_over, semaphore_got, lock_got, wait_over,
  publishing, responding, enter, connected, acquired, locked, replied, step, run,
}
use claude_todo.Agents.Accounts.{one, one_of}
use claude_todo.Agents.Counted.{run-IsAccounted}
use claude_todo.Agents.Caps.{run-IsWithin}
use claude_todo.Agents.Routed.{Replied, run-Replied}
use claude_todo.Agents.Bus.{
  Texts, BusResponse, of_payload, dispatch_remote_command, send_request_remote,
}
use claude_todo.Agents.Relay.{relayed, send_request_remote-relayed}

abbrev config : Config
config = record { max_pending_per_agent = 1; max_pending_global = 2; truthy = λ s. not (s == "") }

abbrev inner : List (String × String)
inner = ("content", "hello") ∷ []

abbrev response : Message
response = record { request_id = some "r1"; payload = some inner; key_names = "" }

abbrev events : List Event
events =
    publishing "agent" 7
    ∷ entering 1 "agent" 60 false
    ∷ moving 1 (semaphore_got "r1")
    ∷ moving 1 lock_got
    ∷ responding response
    ∷ moving 1 wait_over
    ∷ entering 2 "agent" 60 false
    ∷ []

abbrev or_start : Option World → World
or_start none = start
or_start (some w) = w

unfoldable final : World
final = or_start (run config events start)

runs : run config events start ≡ some final
unfolding final run step enter acquired locked replied resolve_request increment_pending
    decrement_pending total_pending
runs = refl

run-IsAccounted_example :
    ((agent_id : String)
      → pending_of final.transport.pending_count agent_id ≡ total (one_of agent_id) final.calls)
    × (total_pending final.transport.pending_count ≡ total one final.calls)
    × (final.transport.drain_event ≡ is_empty final.transport.pending_count)
    × ((final.transport.drain_event ≡ true) ↔ (total one final.calls ≡ 0))
    × ((agent_id : String)
        → total (one_of agent_id) final.calls ≡ 0
        → lookup agent_id final.transport.pending_count ≡ none)
run-IsAccounted_example = run-IsAccounted config events final runs

run-IsWithin_example :
    ((agent_id : String) → total (one_of agent_id) final.calls ≤ 1) × (total one final.calls ≤ 2)
run-IsWithin_example =
    run-IsWithin config events final (tt, (refl, (tt, (tt, (tt, (tt, (refl, tt))))))) runs

returned_here : Elem (1, returned inner) final.outcomes
unfolding final run step enter acquired locked replied resolve_request increment_pending
    decrement_pending total_pending
returned_here = inl refl

run-Replied_example : Replied events 1 inner
run-Replied_example = run-Replied config events final 1 inner runs returned_here

-- Two callers wait for an agent that may have one open call; both are counted when it is there.
abbrev waiting_events : List Event
waiting_events =
    entering 1 "agent" 60 true
    ∷ entering 2 "agent" 60 true
    ∷ publishing "agent" 7
    ∷ moving 1 (connection_over true)
    ∷ moving 2 (connection_over true)
    ∷ []

above_cap :
    pending_of (or_start (run config waiting_events start)).transport.pending_count "agent" ≡ 2
unfolding run step enter connected increment_pending total_pending
above_cap = refl

abbrev str : AgentError → String
str (busy agent_id n m) = "busy"
str (runtime s) = s
str (offline agent_id) = "offline"
str (timed_out rid t) = "timeout"
str shutting_down = "shutting down"
str (other type_name text) = text

abbrev texts : Texts
texts = record { str = str; str_runtime = λ s. refl; seconds = λ n. "60" }

abbrev failure : BusResponse
failure = of_payload (("error", "no such file") ∷ []) (some "runtime")

published :
    dispatch_remote_command texts
      (record { request_id = "b1"; agent_id = "agent"; msg_type = "read_file" })
      none
      (raised (runtime "no such file"))
    ≡ some ("b1", failure)
unfolding dispatch_remote_command
published = refl

send_request_remote-relayed_example :
    send_request_remote "agent" "b1" 60 ""
      (some "worker")
      100
      ((101, none) ∷ (102, some failure) ∷ [])
    ≡ relayed "agent" "b1" (raised (runtime "no such file"))
send_request_remote-relayed_example =
    send_request_remote-relayed texts "agent" "b1" "worker" "read_file" 60 100 102 ""
      (raised (runtime "no such file")) ((101, none) ∷ []) failure [] refl refl published
      ((omega arith, refl), tt) (omega arith)
