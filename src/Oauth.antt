-- ===== src/Oauth.antt =====
-- backend/app/mcp/oauth: `_tokens.py` and the codes of `_authorization.py`. A time is a number of
-- microseconds, read once in each operation, and `expires_at` of a token is in seconds as in the
-- source. A Redis key is the pair of its prefix and its name: no prefix begins another. Redis is a
-- parameter; a JSON text in it is the value that it was printed from.
mod Model
pub mod Issue
pub mod Rotate
pub mod Examples
pub use Model.*
use Prim.Native.String.{◌++◌ as append}
use claude_todo.Prelude.{
  ℕ, ◌+◌, ◌-◌, ◌*◌, ◌/◌, ◌≤◌, String, ◌≡◌, ◌↔◌, ap, Bool, true, false, not, ◌&&◌, Option, none,
  some, List, [], ◌∷◌, ◌++◌, ◌==◌, Eq, string_eq, if◌then◌else◌, ltb, contains, arith,
}

module _ (r : TokenStore) where
  open r use {Store, get, set, del}

  abbrev pub redis_del : List Key → Store → Store
  redis_del [] s = s
  redis_del (k ∷ ks) s = del (k ∷ ks) s

  -- The two tokens and the two links between them, in one pipeline.
  unfoldable pub issue :
      ℕ → String → List String → Option String → String → String → Store → OAuthToken × Store
  issue now client_id scopes user_id access_value refresh_value s =
      let expires_at = access_expires_at now in
      let at_ttl = ttl_from_expires expires_at now in
      let access : AccessToken = record {
        token = access_value;
        client_id = client_id;
        scopes = scopes;
        expires_at = some expires_at;
        claims = filled user_id;
      } in
      let refresh : RefreshToken = record {
        token = refresh_value;
        client_id = client_id;
        scopes = scopes;
        expires_at = none;
      } in
      let s1 = set now (key_access_token access_value) (access_stored access) at_ttl s in
      let s2 = set now (key_refresh_token refresh_value) (refresh_stored refresh) fallback_ttl s1 in
      let s3 = set now (key_a2r access_value) (text_stored refresh_value) fallback_ttl s2 in
      let s4 = set now (key_r2a refresh_value) (text_stored access_value) at_ttl s3 in
      (
        record {
          access_token = access_value;
          expires_in = default_access_token_expiry;
          refresh_token = refresh_value;
          scope = filled (some (join scopes));
        },
        s4,
      )

  -- The check of `client.client_id`, and the new tokens.
  abbrev pub issue_for :
      Option String
      → ℕ
      → List String
      → Option String
      → String
      → String
      → Store
      → Granted OAuthToken × Store
  issue_for none now scopes user_id access_value refresh_value s = (refused invalid_client, s)
  issue_for (some client_id) now scopes user_id access_value refresh_value s =
      let (token, s') = issue now client_id scopes user_id access_value refresh_value s in
      (granted token, s')

  -- The last but one argument is what GETDEL returned.
  abbrev pub exchange_found :
      ℕ
      → Option String
      → AuthorizationCode
      → String
      → String
      → Option Stored
      → Store
      → Granted OAuthToken × Store
  exchange_found now client_id code access_value refresh_value none s = (refused invalid_grant, s)
  exchange_found now client_id code access_value refresh_value (some raw) s =
      issue_for client_id now code.scopes code.user_id access_value refresh_value
        (del (key_auth_code code.code ∷ []) s)

  -- `secrets.token_hex` makes the last two texts.
  unfoldable pub exchange_authorization_code :
      ℕ → Option String → AuthorizationCode → String → String → Store → Granted OAuthToken × Store
  exchange_authorization_code now client_id code access_value refresh_value s =
      exchange_found now client_id code access_value refresh_value
        (get now s (key_auth_code code.code)) s

  abbrev pub keys_of_access : String → Option String → List Key
  keys_of_access token none = key_access_token token ∷ key_a2r token ∷ []
  keys_of_access token (some assoc_refresh) =
      key_access_token token
      ∷ key_a2r token
      ∷ key_refresh_token assoc_refresh
      ∷ key_r2a assoc_refresh
      ∷ []

  abbrev pub keys_of_refresh : String → Option String → List Key
  keys_of_refresh token none = key_refresh_token token ∷ key_r2a token ∷ []
  keys_of_refresh token (some assoc_access) =
      key_refresh_token token
      ∷ key_r2a token
      ∷ key_access_token assoc_access
      ∷ key_a2r assoc_access
      ∷ []

  abbrev pub linked : ℕ → Store → Key → Option String
  linked now s key = filled (as_text (get now s key))

  unfoldable pub revoke_internal : ℕ → Option String → Option String → Store → Store
  revoke_internal now access_token_str refresh_token_str s =
      redis_del
        (elim (filled access_token_str) [
          | none ↦ []
          | some token ↦ keys_of_access token (linked now s (key_a2r token))
        ]
          ++ elim (filled refresh_token_str) [
            | none ↦ []
            | some token ↦ keys_of_refresh token (linked now s (key_r2a token))
          ])
        s

  unfoldable pub load_access_token : ℕ → String → Store → Option AccessToken × Store
  unfolding revoke_internal
  load_access_token now token s = elim (as_access (get now s (key_access_token token))) [
    | none ↦ (none, s)
    | some o ↦
        if is_expired o.expires_at now
        then (none, revoke_internal now (some token) none s)
        else (some o, s)
  ]

  unfoldable pub load_refresh_token :
      ℕ → Option String → String → Store → Option RefreshToken × Store
  unfolding revoke_internal
  load_refresh_token now client_id refresh_token s =
      elim (as_refresh (get now s (key_refresh_token refresh_token))) [
        | none ↦ (none, s)
        | some o ↦
            if not (same_client client_id o.client_id)
            then (none, s)
            else if is_expired o.expires_at now
            then (none, revoke_internal now none (some o.token) s)
            else (some o, s)
      ]

  -- The user in the claims of the access token that the refresh token is linked to.
  unfoldable pub old_user : ℕ → String → Store → Option String
  old_user now refresh_token s = elim (linked now s (key_r2a refresh_token)) [
    | none ↦ none
    | some old_access_str ↦ elim (as_access (get now s (key_access_token old_access_str))) [
      | none ↦ none
      | some old_access ↦ old_access.claims
    ]
  ]

  -- `is_active` says of an id whether it is that of an active user.
  abbrev pub refresh_for :
      (String → Bool)
      → Option String
      → ℕ
      → List String
      → Option String
      → String
      → String
      → Store
      → Granted OAuthToken × Store
  refresh_for is_active client_id now scopes none access_value refresh_value s =
      issue_for client_id now scopes none access_value refresh_value s
  refresh_for is_active client_id now scopes (some user) access_value refresh_value s =
      if not (is_active user)
      then (refused user_disabled, s)
      else issue_for client_id now scopes (some user) access_value refresh_value s

  unfoldable pub exchange_refresh_token :
      (String → Bool)
      → ℕ
      → Option String
      → RefreshToken
      → List String
      → String
      → String
      → Store
      → Granted OAuthToken × Store
  unfolding revoke_internal old_user
  exchange_refresh_token is_active now client_id refresh_token scopes access_value refresh_value s =
      let after =
        refresh_for is_active client_id now scopes (filled (old_user now refresh_token.token s))
          access_value refresh_value (revoke_internal now none (some refresh_token.token) s) in
      if not (all_in scopes refresh_token.scopes) then (refused invalid_scope, s) else after

  -- An expired code is deleted.
  unfoldable pub load_authorization_code :
      ℕ → Option String → String → Store → Option AuthorizationCode × Store
  load_authorization_code now client_id code s = elim (as_code (get now s (key_auth_code code))) [
    | none ↦ (none, s)
    | some o ↦
        if not (same_client client_id o.client_id)
        then (none, s)
        else if ltb o.expires_at now
        then (none, del (key_auth_code code ∷ []) s)
        else (some o, s)
  ]

  unfoldable pub store_authorization_code : ℕ → AuthorizationCode → Store → Store
  store_authorization_code now code s =
      let remaining = (code.expires_at - now) / second in
      set now (key_auth_code code.code) (code_stored code)
        (if ltb remaining 1 then 1 else remaining) s

  -- `revoke_token` of an access token, and of a refresh token.
  abbrev pub revoke_access_token : ℕ → AccessToken → Store → Store
  revoke_access_token now token s = revoke_internal now (some token.token) none s

  abbrev pub revoke_refresh_token : ℕ → RefreshToken → Store → Store
  revoke_refresh_token now token s = revoke_internal now none (some token.token) s
