-- ===== src/Session.antt =====
-- backend/app/mcp/session_state.py: the lock that lets one worker at a time hold the event stream
-- of a session. Times are seconds. Redis is a parameter, with the commands that the lock uses. A
-- refresh and a release are two commands each, a GET and an EXPIRE or DEL: the second takes what the
-- GET has brought as an argument, and any commands of other workers may come between the two.
pub mod Exclusive
mod Refresh
mod State
pub mod Examples
use Prim.Native.String.{◌++◌ as append}
use claude_todo.Prelude.{
  ℕ, ◌+◌, ◌≤◌, String, ◌≡◌, Bool, true, false, Option, none, some, List, [], ◌∷◌, ◌==◌, string_eq,
  if◌then◌else◌, ltb,
}

-- SET with `nx` and `ex` answers whether it has set the key.
pub record Locks : Type 1 where
  pub Store : Type 0
  pub get : ℕ → Store → String → Option String
  pub set_nx : ℕ → String → String → ℕ → Store → Bool × Store
  pub expire : ℕ → String → ℕ → Store → Store
  pub delete : String → Store → Store
  pub set_nx_free :
      (now t : ℕ) (s : Store) (key v : String) (ex : ℕ)
      → get now s key ≡ none
      → now ≤ t
      → get t (set_nx now key v ex s).1 key ≡ (if ltb t (now + ex) then some v else none)
  pub set_nx_held :
      (now : ℕ) (s : Store) (key v w : String) (ex : ℕ)
      → get now s key ≡ some w
      → set_nx now key v ex s ≡ (false, s)
  pub expire_get :
      (now t : ℕ) (s : Store) (key v : String) (ex : ℕ)
      → get now s key ≡ some v
      → now ≤ t
      → get t (expire now key ex s) key ≡ (if ltb t (now + ex) then some v else none)
  pub delete_get : (t : ℕ) (s : Store) (key : String) → get t (delete key s) key ≡ none

abbrev pub sse_holder_ttl : ℕ
sse_holder_ttl = 60

abbrev pub sse_holder_key : String → String
sse_holder_key sid = append "mcp:v1:sse_holder:" sid

abbrev pub is_holder : Option String → String → Bool
is_holder none holder_id = false
is_holder (some current) holder_id = current == holder_id

module _ (r : Locks) (sid : String) where
  open r use {Store, get, set_nx, expire, delete}

  unfoldable pub acquire_sse_holder : ℕ → String → Store → Bool × Store
  acquire_sse_holder now holder_id s = set_nx now (sse_holder_key sid) holder_id sse_holder_ttl s

  -- The GET of a refresh or a release.
  abbrev pub get_holder : ℕ → Store → Option String
  get_holder now s = get now s (sse_holder_key sid)

  -- `current` is what the GET has brought, and `now` the time of the EXPIRE.
  unfoldable pub refresh_sse_holder : Option String → ℕ → String → Store → Bool × Store
  refresh_sse_holder current now holder_id s =
      if is_holder current holder_id
      then (true, expire now (sse_holder_key sid) sse_holder_ttl s)
      else (false, s)

  -- `current` is what the GET has brought.
  unfoldable pub release_sse_holder_if_owner : Option String → String → Store → Store
  release_sse_holder_if_owner current holder_id s =
      if is_holder current holder_id then delete (sse_holder_key sid) s else s

  -- A round of the loop: the times of its GET and its EXPIRE, and what the other workers do with the
  -- store before the one and before the other.
  pub record Round : Type 0 where
    pub read_at : ℕ
    pub write_at : ℕ
    pub asleep : Store → Store
    pub between : Store → Store

  -- `run_holder_refresh_loop` for a number of rounds: false once the lock is lost.
  unfoldable pub run_holder_refresh_loop : List Round → String → Store → Bool × Store
  unfolding refresh_sse_holder
  run_holder_refresh_loop [] holder_id s = (true, s)
  run_holder_refresh_loop (n ∷ rounds) holder_id s =
      let s' = n.asleep s in
      let (still_owner, s'') =
        refresh_sse_holder (get_holder n.read_at s') n.write_at holder_id (n.between s') in
      let rest = run_holder_refresh_loop rounds holder_id s'' in
      if still_owner then rest else (false, s'')
