-- ===== src/Oauth/Model.antt =====
-- backend/app/mcp/oauth: the keys and lifetimes of `_redis.py`, the tokens and codes, and Redis as
-- a parameter.
use Prim.Native.String.{◌++◌ as append}
use claude_todo.Prelude.{
  ℕ, ◌+◌, ◌-◌, ◌*◌, ◌/◌, ◌≤◌, String, ◌≡◌, ◌↔◌, ap, Bool, true, false, ◌&&◌, Option, none, some,
  List, [], ◌∷◌, ◌==◌, Eq, string_eq, if◌then◌else◌, ltb, contains, arith,
}

abbrev pub Key : Type 0
Key = String × String

abbrev pub key_same : Key → Key → Bool
key_same a b = a.0 == b.0 && a.1 == b.1

pub key_same_iff : (a b : Key) → (key_same a b ≡ true) ↔ (a ≡ b)
key_same_iff (x, m) (y, n) = (
  λ h. cc (
    (string_eq.beq_iff x y).0 (ground (arith, h)),
    (string_eq.beq_iff m n).0 (ground (arith, h)),
  ),
  λ e. ground (
    arith,
    (string_eq.beq_iff x y).1 (ap (λ (k : Key). k.0) e),
    (string_eq.beq_iff m n).1 (ap (λ (k : Key). k.1) e),
  ),
)

instance abbrev pub key_eq : Eq Key
key_eq = record { beq = key_same; beq_iff = key_same_iff }

abbrev pub key_auth_code : String → Key
key_auth_code code = ("todo:mcp:auth_code:", code)

abbrev pub key_access_token : String → Key
key_access_token token = ("todo:mcp:access_token:", token)

abbrev pub key_refresh_token : String → Key
key_refresh_token token = ("todo:mcp:refresh_token:", token)

abbrev pub key_a2r : String → Key
key_a2r token = ("todo:mcp:a2r:", token)

abbrev pub key_r2a : String → Key
key_r2a token = ("todo:mcp:r2a:", token)

-- The claims hold a user or nothing.
pub record AccessToken : Type 0 where
  pub token : String
  pub client_id : String
  pub scopes : List String
  pub expires_at : Option ℕ
  pub claims : Option String

pub record RefreshToken : Type 0 where
  pub token : String
  pub client_id : String
  pub scopes : List String
  pub expires_at : Option ℕ

-- The fields that are read here; only a `TodoAuthorizationCode` has a user.
pub record AuthorizationCode : Type 0 where
  pub code : String
  pub client_id : String
  pub scopes : List String
  pub expires_at : ℕ
  pub user_id : Option String

pub data Stored : Type 0 where
  access_stored : AccessToken → Stored
  refresh_stored : RefreshToken → Stored
  code_stored : AuthorizationCode → Stored
  text_stored : String → Stored

abbrev pub second : ℕ
second = 1000000

-- SET with `ex`, GET and DEL, as Redis documents them. GET is asked at a time.
pub record TokenStore : Type 1 where
  pub Store : Type 0
  pub get : ℕ → Store → Key → Option Stored
  pub set : ℕ → Key → Stored → ℕ → Store → Store
  pub del : List Key → Store → Store
  pub get_set :
      (t now : ℕ) (s : Store) (key other : Key) (v : Stored) (ex : ℕ)
      → now ≤ t
      → get t (set now key v ex s) other ≡ (
          if key == other
          then (if ltb t (now + ex * second) then some v else none)
          else get t s other)
  pub get_del :
      (t : ℕ) (s : Store) (keys : List Key) (key : Key)
      → get t (del keys s) key ≡ (if contains keys key then none else get t s key)

pub data TokenError : Type 0 where
  invalid_grant invalid_client invalid_scope user_disabled : TokenError

pub data Granted (A : Type 0) : Type 0 where
  granted : A → Granted A
  refused : TokenError → Granted A

pub record OAuthToken : Type 0 where
  pub access_token : String
  pub expires_in : ℕ
  pub refresh_token : String
  pub scope : Option String

abbrev pub default_access_token_expiry : ℕ
default_access_token_expiry = 604800

abbrev pub fallback_ttl : ℕ
fallback_ttl = 2592000

-- A text that is not empty.
abbrev pub filled : Option String → Option String
filled none = none
filled (some text) = if text == "" then none else some text

abbrev pub join : List String → String
join [] = ""
join (x ∷ []) = x
join (x ∷ y ∷ rest) = append x (append " " (join (y ∷ rest)))

abbrev pub as_text : Option Stored → Option String
as_text (some (text_stored text)) = some text
as_text _ = none

abbrev pub as_access : Option Stored → Option AccessToken
as_access (some (access_stored token)) = some token
as_access _ = none

abbrev pub as_refresh : Option Stored → Option RefreshToken
as_refresh (some (refresh_stored token)) = some token
as_refresh _ = none

abbrev pub as_code : Option Stored → Option AuthorizationCode
as_code (some (code_stored code)) = some code
as_code _ = none

-- `int(time.time() + DEFAULT_ACCESS_TOKEN_EXPIRY)`
abbrev pub access_expires_at : ℕ → ℕ
access_expires_at now = (now + default_access_token_expiry * second) / second

-- `max(int(expires_at - time.time()), 1)`
abbrev pub ttl_from_expires : ℕ → ℕ → ℕ
ttl_from_expires expires_at now =
    let remaining = (expires_at * second - now) / second in if ltb remaining 1 then 1 else remaining

abbrev pub is_expired : Option ℕ → ℕ → Bool
is_expired none now = false
is_expired (some expires_at) now = ltb (expires_at * second) now

abbrev pub all_in : List String → List String → Bool
all_in [] original = true
all_in (x ∷ xs) original = contains original x && all_in xs original

abbrev pub same_client : Option String → String → Bool
same_client none id = false
same_client (some own) id = own == id
