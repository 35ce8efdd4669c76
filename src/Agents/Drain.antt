-- ===== src/Agents/Drain.antt =====
-- `drain` and `send_raw` of backend/app/services/agent_local_transport.py, in whose await any steps of
-- the other calls come.
use claude_todo.Prelude.{
  ℕ, String, ◌≡◌, refl, sym, ◌∙◌, Bool, true, false, ◌||◌, ◌&&◌, not, Option, none, some, List, [],
  ◌∷◌, ◌==◌, nat_eq, string_eq, if◌then◌else◌, arith, All, map,
}
use claude_todo.Prelude.Dict.{lookup}
use claude_todo.Prelude.Totals.{total}
use claude_todo.Agents.{LocalAgentTransport, is_empty}
use claude_todo.Agents.Calls.{AgentError, offline, shutting_down, Config, World, start, Event, run}
use claude_todo.Agents.Accounts.{one}
use claude_todo.Agents.Counted.{run-IsAccounted}

-- `wait_for` on the event of the drain: `waited` are the states that the wait sees until its timeout.
unfoldable pub is_drained : List LocalAgentTransport → Bool
is_drained [] = false
is_drained (t ∷ waited) = t.drain_event || is_drained waited

unfoldable pub drain : ℕ → LocalAgentTransport → List LocalAgentTransport → Bool
drain timeout t waited =
    if is_empty t.pending_count then true else if timeout == 0 then false else is_drained waited

-- The write of `send_raw` under the send lock, to the WebSocket that is there by then.
abbrev pub write_raw : String → (ℕ → Option AgentError) → Option ℕ → Option AgentError
write_raw agent_id send_text none = some (offline agent_id)
write_raw agent_id send_text (some ws) = send_text ws

abbrev pub raw_known :
    String → (ℕ → Option AgentError) → LocalAgentTransport → Option ℕ → Option AgentError
raw_known agent_id send_text locked none = some (offline agent_id)
raw_known agent_id send_text locked (some ws) =
    write_raw agent_id send_text (lookup agent_id locked.connections)

-- What `send_raw` raises: `locked` is the state once it has the send lock.
unfoldable pub send_raw :
    String → (ℕ → Option AgentError) → LocalAgentTransport → LocalAgentTransport → Option AgentError
send_raw agent_id send_text t locked =
    if t.shutting_down
    then some shutting_down
    else raw_known agent_id send_text locked (lookup agent_id t.connections)

module _ (c : Config) where
  abbrev Reached : World → Type 0
  Reached w = (events : List Event) × (run c events start ≡ some w)

  -- No call is counted.
  abbrev pub is_idle : World → Bool
  is_idle w = total one w.calls == 0

  unfoldable pub any_idle : List World → Bool
  any_idle [] = false
  any_idle (w ∷ ws) = is_idle w || any_idle ws

  drain_event-is_idle : (w : World) → Reached w → w.transport.drain_event ≡ is_idle w
  drain_event-is_idle w (events, h) =
      let (counted, whole, drained, idle, absent) = run-IsAccounted c events w h in
      ground (arith, idle, nat_eq.beq_iff (total one w.calls) 0)

  is_drained-any_idle :
      (ws : List World)
      → All Reached ws
      → is_drained (map (λ (w : World). w.transport) ws) ≡ any_idle ws
  unfolding is_drained any_idle
  is_drained-any_idle [] h = refl
  is_drained-any_idle (w ∷ ws) (r, rs) =
      rw (drain_event-is_idle w r, is_drained-any_idle ws rs) refl

  -- In any course of calls, `drain` answers yes exactly when no call is counted at its start, or, with
  -- time to wait, when none is counted in one of the states that it waits through.
  pub drain-is_idle :
      (timeout : ℕ) (w : World) (ws : List World)
      → Reached w
      → All Reached ws
      → drain timeout w.transport (map (λ (v : World). v.transport) ws)
        ≡ (is_idle w || (not (timeout == 0) && any_idle ws))
  unfolding drain
  drain-is_idle timeout w ws r rs =
      let (counted, whole, drained, idle, absent) = run-IsAccounted c r.0 w r.1 in
      let empty : is_empty w.transport.pending_count ≡ is_idle w =
        sym drained ∙ drain_event-is_idle w r in
      rw (empty, is_drained-any_idle ws rs) (ground arith)
