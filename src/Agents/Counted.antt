-- ===== src/Agents/Counted.antt =====
-- The pending counts of the transport against the list of calls that are open, in any course.
use claude_todo.Prelude.{
  ℕ, String, ◌≡◌, ◌↔◌, refl, sym, ap, subst, ◌∙◌, inl, inr, Bool, true, false, Option, none, some,
  List, [], ◌∷◌, nat_eq, string_eq, ◌==◌, ◌<◌, Bool-cases, arith, Elem,
}
use claude_todo.Prelude.Dict.{lookup, erase, AllValues}
use claude_todo.Prelude.Totals.{weight, total}
use claude_todo.Agents.{
  Message, LocalAgentTransport, is_empty, after_close, unregister, wake_connect_waiters,
  resolve_request, resolve_named, resolve_with, can_resolve, start_shutdown, increment_pending,
  decrement_pending, pending_of, total_pending, flush_all, flush_one, rids_of, is_current,
}
use claude_todo.Agents.Calls.{
  Phase, connecting, queued, locking, asked, Call, Config, World, start, forget, Event, run,
}
use claude_todo.Agents.Accounts.{
  pending_of-absent, Accounts, is_counted, one, one_of, Accounts-more, Accounts-less, Accounts-move,
  Accounts-note, Accounts-drop,
}
use claude_todo.Agents.Steps.{
  new_call, Outside, is_publish, is_old_closed, is_unregister, is_wake, is_resolve, is_shutdown,
  Change, refused, noted, admitted, arrived, missed, asking, writing, given_up, answered_call,
  outside, run-invariant, All-self,
}

-- The counts of a state are those of its calls.
abbrev pub IsAccounted : World → Type 0
IsAccounted w = Accounts w.transport.pending_count w.transport.drain_event w.calls

-- The part of the transport that the counts are in.
pub record SameCounts (t u : LocalAgentTransport) : Type 0 where
  pub counts : t.pending_count ≡ u.pending_count
  pub drain : t.drain_event ≡ u.drain_event

flush_all-SameCounts :
    (agent_id : String) (rids : List String) (t : LocalAgentTransport)
    → SameCounts t (flush_all agent_id rids t)
unfolding flush_all
flush_all-SameCounts agent_id [] t = record { counts = refl; drain = refl }
flush_all-SameCounts agent_id (rid ∷ rids) t =
    let later = flush_all-SameCounts agent_id rids (flush_one agent_id rid t) in
    record { counts = later.counts; drain = later.drain }

forget-SameCounts : (phase : Phase) (t : LocalAgentTransport) → SameCounts (forget phase t) t
forget-SameCounts connecting t = record { counts = refl; drain = refl }
forget-SameCounts queued t = record { counts = refl; drain = refl }
forget-SameCounts (locking rid) t = record { counts = refl; drain = refl }
forget-SameCounts (asked rid) t = record { counts = refl; drain = refl }

resolve_request-SameCounts :
    (msg : Message) (t : LocalAgentTransport) → SameCounts t (resolve_request msg t).1
unfolding resolve_request
resolve_request-SameCounts msg t = named msg.request_id
  where
    with_id : (rid : String) → SameCounts t (resolve_with msg rid t).1
    with_id rid = elim (Bool-cases (can_resolve (lookup rid t.pending) (lookup rid t.futures))) [
      | inl yes_there ↦ simp yes_there (record { counts = refl; drain = refl })
      | inr not_there ↦ simp not_there (record { counts = refl; drain = refl })
    ]

    named : (o : Option String) → SameCounts t (resolve_named msg o t).1
    named none = record { counts = refl; drain = refl }
    named (some rid) = elim (Bool-cases (rid == "")) [
      | inl blank ↦ simp blank (record { counts = refl; drain = refl })
      | inr given ↦ simp given (with_id rid)
    ]

after_close-SameCounts :
    (agent_id : String) (is_old : Bool) (t : LocalAgentTransport)
    → SameCounts t (after_close agent_id is_old t)
unfolding wake_connect_waiters
after_close-SameCounts agent_id false t = record { counts = refl; drain = refl }
after_close-SameCounts agent_id true t =
    let flushed = flush_all-SameCounts agent_id (rids_of agent_id t.pending) t in
    record { counts = flushed.counts; drain = flushed.drain }

unregister-SameCounts :
    (agent_id : String) (ws : Option ℕ) (t : LocalAgentTransport)
    → SameCounts t (unregister agent_id ws t)
unfolding unregister
unregister-SameCounts agent_id none t =
    let flushed =
      flush_all-SameCounts agent_id (rids_of agent_id t.pending)
        (record t { connections = erase agent_id t.connections }) in
    record { counts = flushed.counts; drain = flushed.drain }
unregister-SameCounts agent_id (some ws) t =
    elim (Bool-cases (is_current (lookup agent_id t.connections) ws)) [
      | inl current ↦
          let flushed =
            flush_all-SameCounts agent_id (rids_of agent_id t.pending)
              (record t { connections = erase agent_id t.connections }) in
          simp current (record { counts = flushed.counts; drain = flushed.drain })
      | inr stale ↦ simp stale (record { counts = refl; drain = refl })
    ]

start_shutdown-SameCounts : (t : LocalAgentTransport) → SameCounts t (start_shutdown t)
unfolding start_shutdown
start_shutdown-SameCounts t = elim (Bool-cases t.shutting_down) [
  | inl down ↦ simp down (record { counts = refl; drain = refl })
  | inr up ↦ simp up (record { counts = refl; drain = refl })
]

Outside-SameCounts :
    (event : Event) (f : LocalAgentTransport → LocalAgentTransport) (t : LocalAgentTransport)
    → Outside event f
    → SameCounts t (f t)
unfolding wake_connect_waiters
Outside-SameCounts _ _ t (is_publish agent_id ws) = record { counts = refl; drain = refl }
Outside-SameCounts _ _ t (is_old_closed agent_id is_old) = after_close-SameCounts agent_id is_old t
Outside-SameCounts _ _ t (is_unregister agent_id ws) = unregister-SameCounts agent_id ws t
Outside-SameCounts _ _ t (is_wake agent_id) = record { counts = refl; drain = refl }
Outside-SameCounts _ _ t (is_resolve msg) = resolve_request-SameCounts msg t
Outside-SameCounts _ _ t is_shutdown = start_shutdown-SameCounts t

SameCounts-Accounts :
    (t u : LocalAgentTransport) (calls : List (ℕ × Call))
    → SameCounts t u
    → Accounts t.pending_count t.drain_event calls
    → Accounts u.pending_count u.drain_event calls
SameCounts-Accounts t u calls same h =
    subst (λ d. Accounts u.pending_count d calls) same.drain
      (subst (λ m. Accounts m t.drain_event calls) same.counts h)

not_counted :
    (n : ℕ) (calls : List (ℕ × Call)) → lookup n calls ≡ none → weight one (lookup n calls) ≡ 0
not_counted n calls h = rw h refl

not_yet :
    (n : ℕ) (call : Call) (calls : List (ℕ × Call))
    → lookup n calls ≡ some call
    → call.phase ≡ connecting
    → weight one (lookup n calls) ≡ 0
not_yet n call calls h phase = ground (arith, h, ap is_counted phase)

finish-Accounts :
    (n : ℕ) (call : Call) (w : World)
    → IsAccounted w
    → lookup n w.calls ≡ some call
    → (call.phase ≡ connecting → ⊥)
    → Accounts
        (decrement_pending call.agent_id (forget call.phase w.transport)).pending_count
        (decrement_pending call.agent_id (forget call.phase w.transport)).drain_event
        (erase n w.calls)
unfolding decrement_pending
finish-Accounts n call w h at counts =
    let before =
      SameCounts-Accounts w.transport (forget call.phase w.transport) w.calls
        (let same = forget-SameCounts call.phase w.transport in
          record { counts = sym same.counts; drain = sym same.drain })
        h in
    Accounts-less n call (forget call.phase w.transport).pending_count w.calls before at
      (takes call.phase refl)
  where
    takes : (phase : Phase) → call.phase ≡ phase → is_counted phase ≡ true
    takes connecting e = absurd (counts e)
    takes queued e = refl
    takes (locking rid) e = refl
    takes (asked rid) e = refl

pub start-IsAccounted : IsAccounted start
unfolding total total_pending
start-IsAccounted = record {
  calls_unique = tt;
  counts_unique = tt;
  positive = tt;
  counted = λ a. refl;
  whole = refl;
  drained = refl;
}

is_empty-total_pending :
    (counts : List (String × ℕ)) → is_empty counts ≡ true → total_pending counts ≡ 0
unfolding total_pending
is_empty-total_pending [] h = refl
is_empty-total_pending (p ∷ counts) h = cc

total_pending-is_empty :
    (counts : List (String × ℕ))
    → AllValues (λ n. 0 < n) counts
    → total_pending counts ≡ 0
    → is_empty counts ≡ true
unfolding total_pending
total_pending-is_empty [] h e = refl
total_pending-is_empty ((agent_id, n) ∷ counts) h e = absurd (omega (arith, h.0, e))

module _ (c : Config) where
  pub Change-IsAccounted :
      (event : Event) (w w' : World) → Change c event w w' → IsAccounted w → IsAccounted w'
  unfolding increment_pending
  Change-IsAccounted _ _ _ (refused n agent_id timeout wait e w absent) h =
      Accounts-drop n w.transport.pending_count w.calls h (not_counted n w.calls absent)
  Change-IsAccounted _ _ _ (noted n agent_id timeout w absent) h =
      Accounts-note n (new_call agent_id timeout) w.transport.pending_count w.calls h
        (not_counted n w.calls absent) refl
  Change-IsAccounted _ _ _ (admitted n agent_id timeout wait w absent free) h =
      Accounts-more n (record (new_call agent_id timeout) { phase = queued })
        w.transport.pending_count w.calls h (not_counted n w.calls absent) refl
  Change-IsAccounted _ _ _ (arrived n call w at phase) h =
      Accounts-more n (record call { phase = queued }) w.transport.pending_count w.calls h
        (not_yet n call w.calls at phase) refl
  Change-IsAccounted _ _ _ (missed event n call e w at phase) h =
      Accounts-drop n w.transport.pending_count w.calls h (not_yet n call w.calls at phase)
  Change-IsAccounted _ _ _ (asking n call rid w at phase) h =
      Accounts-move n call (record call { phase = locking rid }) w.transport.pending_count w.calls h
        at refl (ap is_counted (sym phase))
  Change-IsAccounted _ _ _ (writing n call rid ws w at phase there) h =
      Accounts-move n call (record call { phase = asked rid }) w.transport.pending_count w.calls h
        at refl (ap is_counted (sym phase))
  Change-IsAccounted _ _ _ (given_up event n call e w at counts) h =
      finish-Accounts n call w h at counts
  Change-IsAccounted _ _ _ (answered_call n call rid w at phase) h =
      finish-Accounts n call w h at (λ e. cc)
  Change-IsAccounted _ _ _ (outside event f w out) h =
      SameCounts-Accounts w.transport (f w.transport) w.calls
        (Outside-SameCounts event f w.transport out) h

  -- After any course of calls, responses, connects and disconnects, the pending count of every agent
  -- is the number of its open calls that do not wait for it to connect, the global one is the number
  -- of all these, an agent without such a call has no entry, and the event that `drain` waits for is
  -- set exactly when there is no entry, and exactly when there is no such call.
  pub run-IsAccounted :
      (events : List Event) (w : World)
      → run c events start ≡ some w
      → ((agent_id : String)
          → pending_of w.transport.pending_count agent_id ≡ total (one_of agent_id) w.calls)
        × (total_pending w.transport.pending_count ≡ total one w.calls)
        × (w.transport.drain_event ≡ is_empty w.transport.pending_count)
        × ((w.transport.drain_event ≡ true) ↔ (total one w.calls ≡ 0))
        × ((agent_id : String)
            → total (one_of agent_id) w.calls ≡ 0
            → lookup agent_id w.transport.pending_count ≡ none)
  run-IsAccounted events w h =
      let a =
        run-invariant c (λ e. Elem e events) IsAccounted
          (λ event v v' m. Change-IsAccounted event v v') events start w (All-self events) h
          start-IsAccounted in
      (
        a.counted,
        a.whole,
        a.drained,
        (
          λ set. omega (
            arith,
            a.whole,
            is_empty-total_pending w.transport.pending_count (sym a.drained ∙ set),
          ),
          λ none_left.
              a.drained
              ∙ total_pending-is_empty w.transport.pending_count a.positive (a.whole ∙ none_left),
        ),
        λ agent_id idle.
            pending_of-absent agent_id w.transport.pending_count a.positive
              (a.counted agent_id ∙ idle),
      )
