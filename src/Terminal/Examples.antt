-- ===== src/Terminal/Examples.antt =====
-- A router with two WebSockets for one session, and the theorems at it.
use claude_todo.Prelude.{
  filter, not, ℕ, String, ◌≡◌, refl, ◌≢◌, ◌↔◌, Bool, true, false, some, List, [], ◌∷◌, arith,
  nat_eq, string_eq, ◌==◌, length, contains,
}
use claude_todo.Terminal.{TerminalSessionRouter, init, register, dispatch}
use claude_todo.Terminal.Registry.{holds, NoRepeat, IsClean}
use claude_todo.Terminal.Replay.{
  Request, registering, unregistering, serve_all, specified_all, serve_all-specified,
}
use claude_todo.Terminal.Dispatch.{dispatch_fan_out, dispatch_received_iff}

abbrev shared : TerminalSessionRouter
shared = register "s" 2 (register "s" 1 init)

shared-IsClean : IsClean shared
unfolding register
shared-IsClean = record { buckets = ((refl, (refl, (refl, tt))), tt) }

abbrev requests : List Request
requests = registering "s" 1 ∷ registering "s" 2 ∷ unregistering "s" (some 1) ∷ []

serve_all-specified_example :
    ((other : String) (w : ℕ)
      → holds (serve_all requests init) other w ≡ specified_all requests (λ s v. false) other w)
    × IsClean (serve_all requests init)
serve_all-specified_example = serve_all-specified requests

named : ◌≢◌ {A = String} "s" ""
named = ground (arith, string_eq.beq_iff "s" "")

abbrev flaky : ℕ → Bool
flaky w = w == 1

-- The first send fails, and the other WebSocket still gets the frame.
one_stale : (dispatch flaky (some "s") shared).received ≡ true
unfolding dispatch register
one_stale = refl

dispatch_fan_out_example :
    ((w : ℕ) → contains (dispatch flaky (some "s") shared).attempts w ≡ holds shared "s" w)
    × NoRepeat (dispatch flaky (some "s") shared).attempts
    × ((dispatch flaky (some "s") shared).ok_count
        ≡ length (filter flaky (dispatch flaky (some "s") shared).attempts))
    × ((dispatch flaky (some "s") shared).fail_count
        ≡ length (filter (λ w. not (flaky w)) (dispatch flaky (some "s") shared).attempts))
dispatch_fan_out_example = dispatch_fan_out flaky "s" shared named shared-IsClean

dispatch_received_iff_example :
    ((dispatch flaky (some "s") shared).received ≡ true)
    ↔ ((w : ℕ) × (holds shared "s" w ≡ true) × (flaky w ≡ true))
dispatch_received_iff_example = dispatch_received_iff flaky "s" shared named
