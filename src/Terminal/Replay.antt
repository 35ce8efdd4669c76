-- ===== src/Terminal/Replay.antt =====
-- The router against the set of the pairs of a session and a WebSocket that are registered.
use claude_todo.Prelude.{
  ℕ, String, ◌≡◌, refl, ◌∙◌, ap, Bool, false, not, ◌&&◌, ◌||◌, Option, none, some, List, [], ◌∷◌,
  nat_eq, string_eq, ◌==◌,
}
use claude_todo.Terminal.{TerminalSessionRouter, init, register, unregister}
use claude_todo.Terminal.Registry.{
  holds, IsClean, holds-register, holds-unregister, holds-unregister_session, register-IsClean,
  unregister-IsClean,
}

pub data Request : Type 0 where
  registering : String → ℕ → Request
  unregistering : String → Option ℕ → Request

abbrev pub serve : Request → TerminalSessionRouter → TerminalSessionRouter
serve (registering session_id ws) r = register session_id ws r
serve (unregistering session_id ws) r = unregister session_id ws r

abbrev pub serve_all : List Request → TerminalSessionRouter → TerminalSessionRouter
serve_all [] r = r
serve_all (q ∷ qs) r = serve_all qs (serve q r)

-- What a request does to the set: it puts the pair in, takes it out, or takes a session out.
abbrev pub Pairs : Type 0
Pairs = String → ℕ → Bool

abbrev pub specified : Request → Pairs → Pairs
specified (registering session_id ws) pairs other w =
    (session_id == other && ws == w) || pairs other w
specified (unregistering session_id (some ws)) pairs other w =
    not (session_id == other && ws == w) && pairs other w
specified (unregistering session_id none) pairs other w = not (session_id == other) && pairs other w

abbrev pub specified_all : List Request → Pairs → Pairs
specified_all [] pairs = pairs
specified_all (q ∷ qs) pairs = specified_all qs (specified q pairs)

serve-specified :
    (q : Request) (r : TerminalSessionRouter) (pairs : Pairs)
    → ((other : String) (w : ℕ) → holds r other w ≡ pairs other w)
    → (other : String) (w : ℕ) → holds (serve q r) other w ≡ specified q pairs other w
serve-specified (registering session_id ws) r pairs h other w =
    holds-register session_id other ws w r
    ∙ ap (λ b. (session_id == other && ws == w) || b) (h other w)
serve-specified (unregistering session_id (some ws)) r pairs h other w =
    holds-unregister session_id other ws w r
    ∙ ap (λ b. not (session_id == other && ws == w) && b) (h other w)
serve-specified (unregistering session_id none) r pairs h other w =
    holds-unregister_session session_id other w r
    ∙ ap (λ b. not (session_id == other) && b) (h other w)

serve-IsClean : (q : Request) (r : TerminalSessionRouter) → IsClean r → IsClean (serve q r)
serve-IsClean (registering session_id ws) r h = register-IsClean session_id ws r h
serve-IsClean (unregistering session_id ws) r h = unregister-IsClean session_id ws r h

serve_all-specified_from :
    (qs : List Request) (r : TerminalSessionRouter) (pairs : Pairs)
    → ((other : String) (w : ℕ) → holds r other w ≡ pairs other w)
    → IsClean r
    → ((other : String) (w : ℕ) → holds (serve_all qs r) other w ≡ specified_all qs pairs other w)
      × IsClean (serve_all qs r)
serve_all-specified_from [] r pairs h clean = (h, clean)
serve_all-specified_from (q ∷ qs) r pairs h clean =
    serve_all-specified_from qs (serve q r) (specified q pairs) (serve-specified q r pairs h)
      (serve-IsClean q r clean)

-- After any requests the router holds exactly the pairs of the abstract set that the same requests
-- make of the empty one, and each bucket is without repetition and has at least one WebSocket.
pub serve_all-specified :
    (qs : List Request)
    → ((other : String) (w : ℕ)
        → holds (serve_all qs init) other w ≡ specified_all qs (λ s v. false) other w)
      × IsClean (serve_all qs init)
serve_all-specified qs =
    serve_all-specified_from qs init (λ s v. false) (λ other w. refl) (record { buckets = tt })
