-- ===== src/Session/State.antt =====
-- backend/app/mcp/session_state.py: the hash and the event stream of a session. Redis is a
-- parameter, with the commands that these functions send; the uuid of a new session is an argument.
use Prim.Native.String.{◌++◌ as append}
use claude_todo.Prelude.{ℕ, String, Option, List, [], ◌∷◌}

pub record SessionHash : Type 0 where
  pub initialized_at_ms : ℕ
  pub protocol_init_params : String
  pub auth_kind : String
  pub auth_key_hash : String
  pub capabilities_json : String

pub record Commands : Type 1 where
  pub Store : Type 0
  pub hset : String → SessionHash → Store → Store
  pub hgetall : ℕ → Store → String → Option SessionHash
  pub expire : ℕ → String → ℕ → Store → Store
  pub delete : String → Store → Store
  pub xadd : String → List ℕ → ℕ → Store → String × Store

abbrev session_ttl : ℕ
session_ttl = 3600

abbrev event_stream_maxlen : ℕ
event_stream_maxlen = 5000

abbrev session_key : String → String
session_key sid = append "mcp:v1:session:" sid

abbrev events_key : String → String
events_key sid = append "mcp:v1:events:" sid

abbrev holder_key : String → String
holder_key sid = append "mcp:v1:sse_holder:" sid

module _ (r : Commands) where
  open r use {Store, hset, hgetall, expire, delete, xadd}

  -- `now_ms` is the clock in milliseconds, and `now` in seconds.
  unfoldable create_session :
      ℕ → ℕ → String → String → String → String → String → Store → String × Store
  create_session now now_ms sid auth_kind auth_key_hash params capabilities s =
      let hash : SessionHash = record {
        initialized_at_ms = now_ms;
        protocol_init_params = params;
        auth_kind = auth_kind;
        auth_key_hash = auth_key_hash;
        capabilities_json = capabilities;
      } in
      (sid, expire now (session_key sid) session_ttl (hset (session_key sid) hash s))

  unfoldable load_session : ℕ → String → Store → Option SessionHash
  load_session now sid s = hgetall now s (session_key sid)

  unfoldable touch_session : ℕ → String → Store → Store
  touch_session now sid s =
      expire now (events_key sid) session_ttl (expire now (session_key sid) session_ttl s)

  unfoldable delete_session : String → Store → Store
  delete_session sid s =
      delete (holder_key sid) (delete (events_key sid) (delete (session_key sid) s))

  unfoldable append_event : ℕ → String → List ℕ → Store → String × Store
  append_event now sid data_bytes s =
      let (entry_id, s') = xadd (events_key sid) data_bytes event_stream_maxlen s in
      (entry_id, expire now (events_key sid) session_ttl s')

  -- The times at which the loop wakes until it is cancelled.
  unfoldable run_ttl_refresh_loop : List ℕ → String → Store → Store
  unfolding touch_session
  run_ttl_refresh_loop [] sid s = s
  run_ttl_refresh_loop (now ∷ times) sid s =
      run_ttl_refresh_loop times sid (touch_session now sid s)
