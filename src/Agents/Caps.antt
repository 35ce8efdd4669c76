-- ===== src/Agents/Caps.antt =====
-- The caps on the calls that are open.
use claude_todo.Prelude.{
  ℕ, String, ◌≡◌, refl, sym, ap, subst, true, false, none, some, List, ◌≤◌, nat_eq, string_eq,
  arith, All,
}
use claude_todo.Prelude.Dict.{
  lookup, insert, erase, AllValues, AllValues-insert, AllValues-erase, AllValues-lookup,
}
use claude_todo.Prelude.Totals.{total, total-insert, total-erase}
use claude_todo.Agents.Calls.{
  connecting, queued, locking, asked, Call, Config, World, start, enqueue, Event, entering, moving,
  publishing, old_closed, unregistering, waking, responding, stopping, run, is_busy,
}
use claude_todo.Agents.Accounts.{is_counted, one, one_of}
use claude_todo.Agents.Counted.{IsAccounted, Change-IsAccounted, start-IsAccounted}
use claude_todo.Agents.Steps.{
  new_call, Change, refused, noted, admitted, arrived, missed, asking, writing, given_up,
  answered_call, outside, run-invariant,
}

-- A call that does not wait for an agent that is away.
abbrev pub NoWait : Event → Type 0
NoWait (entering n agent_id timeout wait) = wait ≡ false
NoWait (moving n move) = Unit
NoWait (publishing agent_id ws) = Unit
NoWait (old_closed agent_id is_old) = Unit
NoWait (unregistering agent_id ws) = Unit
NoWait (waking agent_id) = Unit
NoWait (responding msg) = Unit
NoWait stopping = Unit

pub record IsWithin (c : Config) (w : World) : Type 0 where
  pub accounted : IsAccounted w
  pub all_count : AllValues (λ call. is_counted call.phase ≡ true) w.calls
  pub per_agent : (agent_id : String) → total (one_of agent_id) w.calls ≤ c.max_pending_per_agent
  pub global : total one w.calls ≤ c.max_pending_global

none_connecting :
    (n : ℕ) (call : Call) (calls : List (ℕ × Call))
    → AllValues (λ call. is_counted call.phase ≡ true) calls
    → lookup n calls ≡ some call
    → call.phase ≡ connecting
    → ⊥
none_connecting n call calls h at phase =
    cc (
      AllValues-lookup (λ call. is_counted call.phase ≡ true) n call calls h at,
      ap is_counted phase,
    )

module _ (c : Config) where
  ended-IsWithin :
      (n : ℕ) (w w' : World)
      → IsAccounted w'
      → w'.calls ≡ erase n w.calls
      → IsWithin c w
      → IsWithin c w'
  ended-IsWithin n w w' accounted e h = record {
    accounted = accounted;
    all_count =
        subst (AllValues (λ call. is_counted call.phase ≡ true)) (sym e)
          (AllValues-erase (λ call. is_counted call.phase ≡ true) n w.calls h.all_count);
    per_agent = λ a. omega (
      arith,
      ap (total (one_of a)) e,
      total-erase (one_of a) n w.calls h.accounted.calls_unique,
      h.per_agent a,
    );
    global =
        omega
          (arith, ap (total one) e, total-erase one n w.calls h.accounted.calls_unique, h.global);
  }

  moved-IsWithin :
      (n : ℕ) (call moved : Call) (w w' : World)
      → IsAccounted w'
      → lookup n w.calls ≡ some call
      → moved.agent_id ≡ call.agent_id
      → is_counted moved.phase ≡ true
      → w'.calls ≡ insert n moved w.calls
      → IsWithin c w
      → IsWithin c w'
  moved-IsWithin n call moved w w' accounted at same counts e h =
      let before =
        AllValues-lookup (λ call. is_counted call.phase ≡ true) n call w.calls h.all_count at in
      record {
        accounted = accounted;
        all_count = subst (AllValues (λ call. is_counted call.phase ≡ true)) (sym e) (
            AllValues-insert (λ call. is_counted call.phase ≡ true) n moved w.calls counts
              h.all_count);
        per_agent = λ a. ground (
          arith,
          ap (total (one_of a)) e,
          total-insert (one_of a) n moved w.calls,
          at,
          same,
          counts,
          before,
          h.per_agent a,
        );
        global = ground (
          arith,
          ap (total one) e,
          total-insert one n moved w.calls,
          at,
          counts,
          before,
          h.global,
        );
      }

  added-IsWithin :
      (n : ℕ) (agent_id : String) (timeout : ℕ) (w : World)
      → IsAccounted (enqueue n (new_call agent_id timeout) w)
      → lookup n w.calls ≡ none
      → is_busy c w.transport agent_id ≡ false
      → IsWithin c w
      → IsWithin c (enqueue n (new_call agent_id timeout) w)
  added-IsWithin n agent_id timeout w accounted absent free h =
      let added : Call = record (new_call agent_id timeout) { phase = queued } in
      record {
        accounted = accounted;
        all_count =
            AllValues-insert (λ call. is_counted call.phase ≡ true) n added w.calls refl
              h.all_count;
        per_agent = λ a. ground (
          arith,
          total-insert (one_of a) n added w.calls,
          absent,
          free,
          h.accounted.counted agent_id,
          h.per_agent a,
          string_eq.beq_iff agent_id a,
        );
        global = ground (arith, total-insert one n added w.calls, absent, free, h.accounted.whole);
      }

  Change-IsWithin :
      (event : Event) (w w' : World)
      → NoWait event
      → Change c event w w'
      → IsWithin c w
      → IsWithin c w'
  Change-IsWithin event w w' no_wait change h =
      go event w w' no_wait change (Change-IsAccounted c event w w' change h.accounted) h
    where
      go :
          (event : Event) (w w' : World)
          → NoWait event
          → Change c event w w'
          → IsAccounted w'
          → IsWithin c w
          → IsWithin c w'
      go _ _ w' no_wait (refused n agent_id timeout wait e w absent) acc h =
          ended-IsWithin n w w' acc refl h
      go _ _ w' no_wait (noted n agent_id timeout w absent) acc h = cc
      go _ _ w' no_wait (admitted n agent_id timeout wait w absent free) acc h =
          added-IsWithin n agent_id timeout w acc absent free h
      go _ _ w' no_wait (arrived n call w at phase) acc h =
          absurd (none_connecting n call w.calls h.all_count at phase)
      go _ _ w' no_wait (missed event n call e w at phase) acc h =
          absurd (none_connecting n call w.calls h.all_count at phase)
      go _ _ w' no_wait (asking n call rid w at phase) acc h =
          moved-IsWithin n call (record call { phase = locking rid }) w w' acc at refl refl refl h
      go _ _ w' no_wait (writing n call rid ws w at phase there) acc h =
          moved-IsWithin n call (record call { phase = asked rid }) w w' acc at refl refl refl h
      go _ _ w' no_wait (given_up event n call e w at counts) acc h =
          ended-IsWithin n w w' acc refl h
      go _ _ w' no_wait (answered_call n call rid w at phase) acc h =
          ended-IsWithin n w w' acc refl h
      go _ _ w' no_wait (outside event f w out) acc h = record {
        accounted = acc;
        all_count = h.all_count;
        per_agent = h.per_agent;
        global = h.global;
      }

  -- Where no caller asks to wait for an agent that is away, the open calls of every agent stay within
  -- the cap for one agent, and all open calls within the global cap, in any course.
  pub run-IsWithin :
      (events : List Event) (w : World)
      → All NoWait events
      → run c events start ≡ some w
      → ((agent_id : String) → total (one_of agent_id) w.calls ≤ c.max_pending_per_agent)
        × (total one w.calls ≤ c.max_pending_global)
  unfolding total
  run-IsWithin events w no_wait h =
      let within =
        run-invariant c NoWait (IsWithin c) Change-IsWithin events start w no_wait h (record {
          accounted = start-IsAccounted;
          all_count = tt;
          per_agent = λ a. omega arith;
          global = omega arith;
        }) in
      (within.per_agent, within.global)
