-- ===== src/Oauth/Issue.antt =====
-- What the exchange of an authorization code leaves.
use claude_todo.Prelude.{
  ℕ, ◌+◌, ◌*◌, ◌≤◌, ◌<◌, String, ◌≡◌, refl, ap, ◌∙◌, sym, true, false, Option, none, some, List, [],
  ◌∷◌, ◌==◌, string_eq, ltb, contains, arith, beq_refl,
}
use claude_todo.Oauth.{
  Key, key_eq, key_auth_code, key_access_token, key_refresh_token, key_a2r, key_r2a,
  AuthorizationCode, Stored, access_stored, second, TokenStore, granted, refused, OAuthToken,
  filled, access_expires_at, ttl_from_expires, issue, exchange_found, exchange_authorization_code,
  load_access_token, invalid_grant, is_expired,
}

-- A week, less one second.
abbrev pub valid_for : ℕ
valid_for = 604799 * second

ttl_long : (now : ℕ) → 604799 ≤ ttl_from_expires (access_expires_at now) now
ttl_long now = ground arith

ttl_test :
    (now t : ℕ)
    → t < now + valid_for
    → ltb t (now + ttl_from_expires (access_expires_at now) now * second) ≡ true
ttl_test now t h = go (ttl_from_expires (access_expires_at now) now) (ttl_long now)
  where
    go : (n : ℕ) → 604799 ≤ n → ltb t (now + n * second) ≡ true
    go n k = ground (arith, h, k)

pub not_expired :
    (now t : ℕ) → t < now + valid_for → is_expired (some (access_expires_at now)) t ≡ false
not_expired now t h = ground (arith, h)

module _ (r : TokenStore) where
  -- An issued access token is stored for a week less a second.
  pub issue_access :
      (now t : ℕ) (client_id : String) (scopes : List String) (user_id : Option String)
      (access_value refresh_value : String) (s : r.Store)
      → now ≤ t
      → t < now + valid_for
      → r.get t
          (issue r now client_id scopes user_id access_value refresh_value s).1
          (key_access_token access_value)
        ≡ some (
            access_stored (record {
              token = access_value;
              client_id = client_id;
              scopes = scopes;
              expires_at = some (access_expires_at now);
              claims = filled user_id;
            }))
  unfolding issue
  issue_access now t client_id scopes user_id access_value refresh_value s h k =
      rw
        (
          r.get_set t now _ (key_r2a refresh_value) (key_access_token access_value) _ _ h,
          r.get_set t now _ (key_a2r access_value) (key_access_token access_value) _ _ h,
          r.get_set t now _ (key_refresh_token refresh_value) (key_access_token access_value) _ _ h,
          r.get_set t now s (key_access_token access_value) (key_access_token access_value) _ _ h,
          beq_refl (key_access_token access_value),
        )
        (rw (ttl_test now t k) refl)

  -- The keys that an issue writes.
  abbrev pub issued : String → String → List Key
  issued access_value refresh_value =
      key_access_token access_value
      ∷ key_refresh_token refresh_value
      ∷ key_a2r access_value
      ∷ key_r2a refresh_value
      ∷ []

  deleted : (t : ℕ) (key : Key) (s : r.Store) → r.get t (r.del (key ∷ []) s) key ≡ none
  deleted t key s = r.get_del t s (key ∷ []) key ∙ (rw (beq_refl key) refl)

  set_other :
      (now t : ℕ) (s : r.Store) (key other : Key) (v : Stored) (ex : ℕ)
      → now ≤ t
      → (key == other) ≡ false
      → r.get t (r.set now key v ex s) other ≡ r.get t s other
  set_other now t s key other v ex h k = r.get_set t now s key other v ex h ∙ (rw k refl)

  not_held :
      (key other : Key) (keys : List Key)
      → contains (key ∷ keys) other ≡ false
      → ((key == other) ≡ false) × (contains keys other ≡ false)
  not_held key other keys h = ground (arith, h)

  pub issue_others :
      (now t : ℕ) (client_id : String) (scopes : List String) (user_id : Option String)
      (access_value refresh_value : String) (s : r.Store) (key : Key)
      → now ≤ t
      → contains (issued access_value refresh_value) key ≡ false
      → r.get t (issue r now client_id scopes user_id access_value refresh_value s).1 key
        ≡ r.get t s key
  unfolding issue
  issue_others now t client_id scopes user_id access_value refresh_value s key h k =
      let last = key_r2a refresh_value ∷ [] in
      let links = key_a2r access_value ∷ last in
      let at =
        not_held (key_access_token access_value) key (key_refresh_token refresh_value ∷ links) k in
      let rt = not_held (key_refresh_token refresh_value) key links at.1 in
      let a2r = not_held (key_a2r access_value) key last rt.1 in
      let r2a = not_held (key_r2a refresh_value) key [] a2r.1 in
      set_other now t _ (key_r2a refresh_value) key _ _ h r2a.0
      ∙ set_other now t _ (key_a2r access_value) key _ _ h a2r.0
      ∙ set_other now t _ (key_refresh_token refresh_value) key _ _ h rt.0
      ∙ set_other now t s (key_access_token access_value) key _ _ h at.0

  pub granted_injective : {x y : OAuthToken} → granted x ≡ granted y → x ≡ y
  granted_injective h = cc

  pub issue_value :
      (now : ℕ) (client_id : String) (scopes : List String) (user_id : Option String)
      (access_value refresh_value : String) (s : r.Store)
      → (issue r now client_id scopes user_id access_value refresh_value s).0.access_token
        ≡ access_value
  unfolding issue
  issue_value now client_id scopes user_id access_value refresh_value s = refl

  code_gone :
      (now t : ℕ) (client_id : Option String) (code : AuthorizationCode)
      (access_value refresh_value : String) (s : r.Store) (o : Option Stored)
      → now ≤ t
      → r.get now s (key_auth_code code.code) ≡ o
      → (r.get now s (key_auth_code code.code) ≡ none → r.get t s (key_auth_code code.code) ≡ none)
      → r.get t
          (exchange_found r now client_id code access_value refresh_value o s).1
          (key_auth_code code.code)
        ≡ none
  code_gone now t client_id code access_value refresh_value s none h at gone = gone at
  code_gone now t none code access_value refresh_value s (some raw) h at gone =
      deleted t (key_auth_code code.code) s
  code_gone now t (some client) code access_value refresh_value s (some raw) h at gone =
      let key = key_auth_code code.code in
      issue_others now t client code.scopes code.user_id access_value refresh_value
        (r.del (key ∷ []) s) key h refl
      ∙ deleted t key s

  -- The access token that an exchange of an authorization code returns loads for a week less a
  -- second, with the client, the scopes and the user of the code.
  pub load_access_token-exchange_authorization_code :
      (now t : ℕ) (client_id : String) (code : AuthorizationCode)
      (access_value refresh_value : String) (s : r.Store) (token : OAuthToken)
      → (exchange_authorization_code r now (some client_id) code access_value refresh_value s).0
        ≡ granted token
      → now ≤ t
      → t < now + valid_for
      → (token.access_token ≡ access_value)
        × ((load_access_token r t access_value
              (exchange_authorization_code r now
                (some client_id)
                code
                access_value
                refresh_value
                s).1).0
            ≡ some (record {
              token = access_value;
              client_id = client_id;
              scopes = code.scopes;
              expires_at = some (access_expires_at now);
              claims = filled code.user_id;
            }))
  unfolding exchange_authorization_code load_access_token
  load_access_token-exchange_authorization_code now t client_id code access_value refresh_value s
        token h now_le soon =
      go (r.get now s (key_auth_code code.code)) h
    where
      go :
          (o : Option Stored)
          → (exchange_found r now (some client_id) code access_value refresh_value o s).0
            ≡ granted token
          → (token.access_token ≡ access_value)
            × ((load_access_token r t access_value
                  (exchange_found r now (some client_id) code access_value refresh_value o s).1).0
                ≡ some (record {
                  token = access_value;
                  client_id = client_id;
                  scopes = code.scopes;
                  expires_at = some (access_expires_at now);
                  claims = filled code.user_id;
                }))
      go none k = cc
      go (some raw) k =
          let s' = r.del (key_auth_code code.code ∷ []) s in
          let stored =
            issue_access now t client_id code.scopes code.user_id access_value refresh_value s'
              now_le soon in
          (
            ap (λ (x : OAuthToken). x.access_token) (sym (granted_injective k))
                ∙ issue_value now client_id code.scopes code.user_id access_value refresh_value s',
            rw (load_access_token, stored, not_expired now t soon) refl,
          )

  -- After an exchange of an authorization code, whatever its outcome, any later exchange of a code
  -- with the same text is refused, where a code that was not stored is not stored meanwhile.
  pub exchange_authorization_code_once :
      (now t : ℕ) (client_id other_client : Option String) (code again : AuthorizationCode)
      (access_value refresh_value access_value' refresh_value' : String) (s : r.Store)
      → now ≤ t
      → again.code ≡ code.code
      → (r.get now s (key_auth_code code.code) ≡ none → r.get t s (key_auth_code code.code) ≡ none)
      → (exchange_authorization_code r t other_client again access_value' refresh_value'
          (exchange_authorization_code r now client_id code access_value refresh_value s).1).0
        ≡ refused invalid_grant
  unfolding exchange_authorization_code
  exchange_authorization_code_once now t client_id other_client code again access_value
        refresh_value access_value' refresh_value' s h same gone =
      rw (same, code_gone now t client_id code access_value refresh_value s _ h refl gone) refl
