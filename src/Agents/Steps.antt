-- ===== src/Agents/Steps.antt =====
-- The steps of the transport as a relation, with what each step finds.
use claude_todo.Prelude.{
  ℕ, String, ◌≡◌, refl, inl, inr, Bool, true, false, Option, none, some, List, [], ◌∷◌, nat_eq,
  string_eq, if◌then◌else◌, Bool-cases, subst, some_injective, All, Elem,
}
use claude_todo.Prelude.Dict.{lookup, insert}
use claude_todo.Agents.{
  Message, LocalAgentTransport, is_there, publish, after_close, unregister, wake_connect_waiters,
  resolve_request, start_shutdown,
}
use claude_todo.Agents.Calls.{
  AgentError, offline, shutting_down, raised, Phase, connecting, queued, locking, asked, Call,
  Config, World, end_call, enqueue, finish, is_busy, busy_error, enter, connected, ask, acquired,
  write_to, locked, outcome_of, replied, Event, Move, moving, entering, connection_over,
  semaphore_got, lock_got, wait_over, broken, publishing, old_closed, unregistering, waking,
  responding, stopping, break_off, step_call, step_found, enter_new, on_transport, step, run,
  next_world,
}

abbrev pub new_call : String → ℕ → Call
new_call agent_id timeout = record { agent_id = agent_id; timeout = timeout; phase = connecting }

-- What an event that is no step of a call does to the transport.
pub data Outside : Event → (LocalAgentTransport → LocalAgentTransport) → Type 0 where
  is_publish : (agent_id : String) (ws : ℕ) → Outside (publishing agent_id ws) (publish agent_id ws)
  is_old_closed :
      (agent_id : String) (is_old : Bool)
      → Outside (old_closed agent_id is_old) (after_close agent_id is_old)
  is_unregister :
      (agent_id : String) (ws : Option ℕ)
      → Outside (unregistering agent_id ws) (unregister agent_id ws)
  is_wake : (agent_id : String) → Outside (waking agent_id) (wake_connect_waiters agent_id)
  is_resolve : (msg : Message) → Outside (responding msg) (λ t. (resolve_request msg t).1)
  is_shutdown : Outside stopping start_shutdown

pub data Change (c : Config) : Event → World → World → Type 0 where
  refused :
      (n : ℕ) (agent_id : String) (timeout : ℕ) (wait : Bool) (e : AgentError) (w : World)
      → lookup n w.calls ≡ none
      → Change c (entering n agent_id timeout wait) w (end_call n (raised e) w)
  noted :
      (n : ℕ) (agent_id : String) (timeout : ℕ) (w : World)
      → lookup n w.calls ≡ none
      → Change c
          (entering n agent_id timeout true)
          w
          (record w { calls = insert n (new_call agent_id timeout) w.calls })
  admitted :
      (n : ℕ) (agent_id : String) (timeout : ℕ) (wait : Bool) (w : World)
      → lookup n w.calls ≡ none
      → is_busy c w.transport agent_id ≡ false
      → Change c (entering n agent_id timeout wait) w (enqueue n (new_call agent_id timeout) w)
  arrived :
      (n : ℕ) (call : Call) (w : World)
      → lookup n w.calls ≡ some call
      → call.phase ≡ connecting
      → Change c (moving n (connection_over true)) w (enqueue n call w)
  missed :
      (event : Event) (n : ℕ) (call : Call) (e : AgentError) (w : World)
      → lookup n w.calls ≡ some call
      → call.phase ≡ connecting
      → Change c event w (end_call n (raised e) w)
  asking :
      (n : ℕ) (call : Call) (rid : String) (w : World)
      → lookup n w.calls ≡ some call
      → call.phase ≡ queued
      → Change c (moving n (semaphore_got rid)) w (ask n call rid w)
  writing :
      (n : ℕ) (call : Call) (rid : String) (ws : ℕ) (w : World)
      → lookup n w.calls ≡ some call
      → call.phase ≡ locking rid
      → lookup call.agent_id w.transport.connections ≡ some ws
      → Change c (moving n lock_got) w (record w {
        calls = insert n (record call { phase = asked rid }) w.calls;
        frames = (ws, rid) ∷ w.frames;
      })
  given_up :
      (event : Event) (n : ℕ) (call : Call) (e : AgentError) (w : World)
      → lookup n w.calls ≡ some call
      → (call.phase ≡ connecting → ⊥)
      → Change c event w (finish n call (raised e) w)
  answered_call :
      (n : ℕ) (call : Call) (rid : String) (w : World)
      → lookup n w.calls ≡ some call
      → call.phase ≡ asked rid
      → Change c
          (moving n wait_over)
          w
          (finish n call (outcome_of c call rid (lookup rid w.transport.futures)) w)
  outside :
      (event : Event) (f : LocalAgentTransport → LocalAgentTransport) (w : World)
      → Outside event f
      → Change c event w (on_transport f w)

-- An event that fits makes a change.
abbrev pub Stepped : Config → Event → World → Option World → Type 0
Stepped c event w none = Unit
Stepped c event w (some w') = Change c event w w'

module _ (c : Config) where
  enter-Stepped :
      (n : ℕ) (agent_id : String) (timeout : ℕ) (wait : Bool) (w : World)
      → lookup n w.calls ≡ none
      → Change c (entering n agent_id timeout wait) w (enter c n agent_id timeout wait w)
  unfolding enter
  enter-Stepped n agent_id timeout wait w absent = elim (Bool-cases w.transport.shutting_down) [
    | inl stopped ↦ simp stopped (refused n agent_id timeout wait shutting_down w absent)
    | inr open_still ↦ elim (Bool-cases (is_busy c w.transport agent_id)) [
      | inl full ↦
          simp (open_still, full)
            (refused n agent_id timeout wait (busy_error w.transport agent_id) w absent)
      | inr free ↦ elim (Bool-cases (is_there (lookup agent_id w.transport.connections))) [
        | inl there ↦
            simp (open_still, free, there) (admitted n agent_id timeout wait w absent free)
        | inr away ↦ simp (open_still, free, away) (go wait)
      ]
    ]
  ]
    where
      go :
          (b : Bool)
          → Change c (entering n agent_id timeout b) w (
              if b
              then record w { calls = insert n (new_call agent_id timeout) w.calls }
              else end_call n (raised (offline agent_id)) w)
      go true = noted n agent_id timeout w absent
      go false = refused n agent_id timeout false (offline agent_id) w absent

  connected-Stepped :
      (n : ℕ) (call : Call) (found : Bool) (w : World)
      → lookup n w.calls ≡ some call
      → call.phase ≡ connecting
      → Change c (moving n (connection_over found)) w (connected n call found w)
  unfolding connected
  connected-Stepped n call false w at phase =
      missed (moving n (connection_over false)) n call (offline call.agent_id) w at phase
  connected-Stepped n call true w at phase =
      elim (Bool-cases (is_there (lookup call.agent_id w.transport.connections))) [
        | inl there ↦ simp there (arrived n call w at phase)
        | inr away ↦
            simp away
              (missed (moving n (connection_over true)) n call (offline call.agent_id) w at phase)
      ]

  acquired-Stepped :
      (n : ℕ) (call : Call) (rid : String) (w : World)
      → lookup n w.calls ≡ some call
      → call.phase ≡ queued
      → Change c (moving n (semaphore_got rid)) w (acquired n call rid w)
  unfolding acquired
  acquired-Stepped n call rid w at phase =
      elim (Bool-cases (is_there (lookup call.agent_id w.transport.connections))) [
        | inl there ↦ simp there (asking n call rid w at phase)
        | inr away ↦
            simp away (
              given_up (moving n (semaphore_got rid)) n call (offline call.agent_id) w at (λ e. cc))
      ]

  locked-Stepped :
      (n : ℕ) (call : Call) (rid : String) (w : World)
      → lookup n w.calls ≡ some call
      → call.phase ≡ locking rid
      → Change c (moving n lock_got) w (locked n call rid w)
  unfolding locked
  locked-Stepped n call rid w at phase = go (lookup call.agent_id w.transport.connections) refl
    where
      go :
          (o : Option ℕ)
          → lookup call.agent_id w.transport.connections ≡ o
          → Change c (moving n lock_got) w (write_to n call rid w o)
      go none found = given_up (moving n lock_got) n call (offline call.agent_id) w at (λ e. cc)
      go (some ws) found = writing n call rid ws w at phase found

  broken-Stepped :
      (n : ℕ) (call : Call) (e : AgentError) (w : World) (phase : Phase)
      → lookup n w.calls ≡ some call
      → call.phase ≡ phase
      → Change c (moving n (broken e)) w (break_off n call e w phase)
  broken-Stepped n call e w connecting at phase = missed (moving n (broken e)) n call e w at phase
  broken-Stepped n call e w queued at phase = given_up (moving n (broken e)) n call e w at (λ e. cc)
  broken-Stepped n call e w (locking rid) at phase =
      given_up (moving n (broken e)) n call e w at (λ e. cc)
  broken-Stepped n call e w (asked rid) at phase =
      given_up (moving n (broken e)) n call e w at (λ e. cc)

  step_call-Stepped :
      (move : Move) (n : ℕ) (call : Call) (phase : Phase) (w : World)
      → lookup n w.calls ≡ some call
      → call.phase ≡ phase
      → Stepped c (moving n move) w (step_call c move n call phase w)
  unfolding replied
  step_call-Stepped (connection_over found) n call connecting w at here =
      connected-Stepped n call found w at here
  step_call-Stepped (connection_over found) n call queued w at here = tt
  step_call-Stepped (connection_over found) n call (locking rid) w at here = tt
  step_call-Stepped (connection_over found) n call (asked rid) w at here = tt
  step_call-Stepped (semaphore_got rid) n call connecting w at here = tt
  step_call-Stepped (semaphore_got rid) n call queued w at here =
      acquired-Stepped n call rid w at here
  step_call-Stepped (semaphore_got rid) n call (locking own) w at here = tt
  step_call-Stepped (semaphore_got rid) n call (asked own) w at here = tt
  step_call-Stepped lock_got n call connecting w at here = tt
  step_call-Stepped lock_got n call queued w at here = tt
  step_call-Stepped lock_got n call (locking rid) w at here = locked-Stepped n call rid w at here
  step_call-Stepped lock_got n call (asked rid) w at here = tt
  step_call-Stepped wait_over n call connecting w at here = tt
  step_call-Stepped wait_over n call queued w at here = tt
  step_call-Stepped wait_over n call (locking rid) w at here = tt
  step_call-Stepped wait_over n call (asked rid) w at here = answered_call n call rid w at here
  step_call-Stepped (broken e) n call connecting w at here =
      broken-Stepped n call e w connecting at here
  step_call-Stepped (broken e) n call queued w at here = broken-Stepped n call e w queued at here
  step_call-Stepped (broken e) n call (locking rid) w at here =
      broken-Stepped n call e w (locking rid) at here
  step_call-Stepped (broken e) n call (asked rid) w at here =
      broken-Stepped n call e w (asked rid) at here

  step_found-Stepped :
      (move : Move) (n : ℕ) (w : World) (o : Option Call)
      → lookup n w.calls ≡ o
      → Stepped c (moving n move) w (step_found c move n w o)
  step_found-Stepped move n w none at = tt
  step_found-Stepped move n w (some call) at = step_call-Stepped move n call call.phase w at refl

  enter_new-Stepped :
      (n : ℕ) (agent_id : String) (timeout : ℕ) (wait : Bool) (w : World) (o : Option Call)
      → lookup n w.calls ≡ o
      → Stepped c (entering n agent_id timeout wait) w (enter_new c n agent_id timeout wait w o)
  enter_new-Stepped n agent_id timeout wait w none at = enter-Stepped n agent_id timeout wait w at
  enter_new-Stepped n agent_id timeout wait w (some call) at = tt

  -- Every step is one of the changes.
  pub step-Stepped : (event : Event) (w : World) → Stepped c event w (step c event w)
  unfolding step
  step-Stepped (entering n agent_id timeout wait) w =
      enter_new-Stepped n agent_id timeout wait w (lookup n w.calls) refl
  step-Stepped (moving n move) w = step_found-Stepped move n w (lookup n w.calls) refl
  step-Stepped (publishing agent_id ws) w =
      outside (publishing agent_id ws) (publish agent_id ws) w (is_publish agent_id ws)
  step-Stepped (old_closed agent_id is_old) w =
      outside (old_closed agent_id is_old) (after_close agent_id is_old) w
        (is_old_closed agent_id is_old)
  step-Stepped (unregistering agent_id ws) w =
      outside (unregistering agent_id ws) (unregister agent_id ws) w (is_unregister agent_id ws)
  step-Stepped (waking agent_id) w =
      outside (waking agent_id) (wake_connect_waiters agent_id) w (is_wake agent_id)
  step-Stepped (responding msg) w =
      outside (responding msg) (λ t. (resolve_request msg t).1) w (is_resolve msg)
  step-Stepped stopping w = outside stopping start_shutdown w is_shutdown

  -- What the change of every event of a course keeps, the course keeps.
  pub run-invariant :
      (E : Event → Type 0) (I : World → Type 0)
      → ((event : Event) (w w' : World) → E event → Change c event w w' → I w → I w')
      → (events : List Event) (w w' : World) → All E events
      → run c events w ≡ some w'
      → I w
      → I w'
  unfolding run
  run-invariant E I keeps [] w w' es h i = subst I (some_injective h) i
  run-invariant E I keeps (event ∷ events) w w' es h i =
      go (step c event w) (step-Stepped event w) (run-invariant E I keeps events) h
    where
      go :
          (o : Option World)
          → Stepped c event w o
          → ((v v' : World) → All E events → run c events v ≡ some v' → I v → I v')
          → next_world (run c events) o ≡ some w'
          → I w'
      go none change later e = cc
      go (some v) change later e = later v w' es.1 e (keeps event w v es.0 change i)

-- Every event of a course is one of its events.
pub All-self : (events : List Event) → All (λ e. Elem e events) events
All-self events = within events (λ e m. m)
  where
    within :
        (es : List Event) → ((e : Event) → Elem e es → Elem e events) → All (λ e. Elem e events) es
    within [] f = tt
    within (e ∷ es) f = (f e (inl refl), within es (λ d m. f d (inr m)))
