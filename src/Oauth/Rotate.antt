-- ===== src/Oauth/Rotate.antt =====
-- What the exchange of a refresh token revokes, checks and leaves.
use claude_todo.Prelude.{
  ℕ, ◌+◌, ◌≤◌, ◌<◌, String, ◌≡◌, refl, ap, ◌∙◌, Bool, true, false, Option, none, some, List, ◌==◌,
  string_eq, contains, arith, beq_refl, inl, inr, ◌≢◌, Bool-cases, ◌↔◌, sym, [], ◌∷◌, Elem,
  contains-Elem, Elem-contains,
}
use claude_todo.Oauth.{
  Key, key_eq, key_access_token, key_refresh_token, key_r2a, RefreshToken, TokenStore, refused,
  filled, access_expires_at, issue, issue_for, load_access_token, exchange_refresh_token, all_in,
  refresh_for, revoke_internal, old_user, invalid_scope, user_disabled, load_refresh_token,
  redis_del, keys_of_refresh, linked,
}
use claude_todo.Oauth.Issue.{valid_for, issued, not_expired, issue_access, issue_others}

all_in-Elem :
    (scopes original : List String)
    → all_in scopes original ≡ true
    → (scope : String) → Elem scope scopes
    → Elem scope original
all_in-Elem [] original h scope asked = elim asked [ ]
all_in-Elem (x ∷ xs) original h scope (inl e) =
    contains-Elem original scope (ground (arith, rw (sym e) at h))
all_in-Elem (x ∷ xs) original h scope (inr later) =
    all_in-Elem xs original (ground (arith, h)) scope later

all_in-foreign :
    (scopes original : List String)
    → all_in scopes original ≡ false
    → (scope : String) × Elem scope scopes × (¬ Elem scope original)
all_in-foreign [] original h = cc
all_in-foreign (x ∷ xs) original h = elim (Bool-cases (contains original x)) [
  | inl listed ↦
      let (scope, asked, foreign) = all_in-foreign xs original (rw listed at h) in
      (scope, inr asked, foreign)
  | inr missing ↦ (x, inl refl, λ there. cc (Elem-contains original x there, missing))
]

module _ (r : TokenStore) where
  revoked :
      (now : ℕ) (token : String) (s : r.Store)
      → token ≢ ""
      → revoke_internal r now none (some token) s
        ≡ redis_del r (keys_of_refresh r token (linked r now s (key_r2a token))) s
  unfolding revoke_internal
  revoked now token s named =
      let test : (token == "") ≡ false = ground (arith, string_eq.beq_iff token "", named) in
      rw test refl

  -- A refresh token that is revoked is not stored, nor is the access token that it is linked to.
  revoke_refresh :
      (now t : ℕ) (token : String) (s : r.Store)
      → token ≢ ""
      → r.get t (revoke_internal r now none (some token) s) (key_refresh_token token) ≡ none
  revoke_refresh now t token s named =
      ap (λ x. r.get t x (key_refresh_token token)) (revoked now token s named)
      ∙ go (linked r now s (key_r2a token))
    where
      go :
          (o : Option String)
          → r.get t (redis_del r (keys_of_refresh r token o) s) (key_refresh_token token) ≡ none
      go none = r.get_del t s _ (key_refresh_token token) ∙ (rw (beq_refl token) refl)
      go (some a) = r.get_del t s _ (key_refresh_token token) ∙ (rw (beq_refl token) refl)

  revoke_linked :
      (now t : ℕ) (token access : String) (s : r.Store)
      → token ≢ ""
      → linked r now s (key_r2a token) ≡ some access
      → r.get t (revoke_internal r now none (some token) s) (key_access_token access) ≡ none
  revoke_linked now t token access s named at =
      ap (λ x. r.get t x (key_access_token access)) (revoked now token s named)
      ∙ ap (λ o. r.get t (redis_del r (keys_of_refresh r token o) s) (key_access_token access)) at
      ∙ r.get_del t s _ (key_access_token access)
      ∙ (rw (beq_refl access) refl)

  -- A key that the revocation has removed, and that the new tokens do not write, stays away.
  after_gone :
      (is_active : String → Bool) (client_id : Option String) (now t : ℕ) (scopes : List String)
      (user : Option String) (access_value refresh_value : String) (s : r.Store) (key : Key)
      → now ≤ t
      → contains (issued r access_value refresh_value) key ≡ false
      → r.get t s key ≡ none
      → r.get t
          (refresh_for r is_active client_id now scopes user access_value refresh_value s).1
          key
        ≡ none
  after_gone is_active client_id now t scopes user access_value refresh_value s key h k gone =
      go client_id user
    where
      ended :
          (o u : Option String)
          → r.get t (issue_for r o now scopes u access_value refresh_value s).1 key ≡ none
      ended none u = gone
      ended (some c) u = issue_others r now t c scopes u access_value refresh_value s key h k ∙ gone

      go :
          (o u : Option String)
          → r.get t (refresh_for r is_active o now scopes u access_value refresh_value s).1 key
            ≡ none
      go o none = ended o none
      go o (some user) = elim (Bool-cases (is_active user)) [
        | inl active ↦ rw active (ended o (some user))
        | inr disabled ↦ rw disabled gone
      ]

  -- An exchange of a refresh token for scopes that it has, whatever comes of it, leaves neither the
  -- old refresh token nor the access token that it is linked to: at no later time are they loaded.
  -- The new tokens are other texts.
  pub exchange_refresh_token_revokes :
      (is_active : String → Bool) (now t : ℕ) (client_id other : Option String)
      (refresh_token : RefreshToken) (scopes : List String)
      (access_value refresh_value old_access : String) (s : r.Store)
      → all_in scopes refresh_token.scopes ≡ true
      → now ≤ t
      → refresh_token.token ≢ ""
      → refresh_value ≢ refresh_token.token
      → access_value ≢ old_access
      → linked r now s (key_r2a refresh_token.token) ≡ some old_access
      → ((load_refresh_token r t other refresh_token.token
            (exchange_refresh_token r is_active now client_id refresh_token scopes access_value
              refresh_value s).1).0
          ≡ none)
        × ((load_access_token r t old_access
              (exchange_refresh_token r is_active now client_id refresh_token scopes access_value
                refresh_value s).1).0
            ≡ none)
  unfolding exchange_refresh_token load_refresh_token load_access_token
  exchange_refresh_token_revokes is_active now t client_id other refresh_token scopes access_value
        refresh_value old_access s allowed h named new_refresh new_access at =
      let s' = revoke_internal r now none (some refresh_token.token) s in
      let user = filled (old_user r now refresh_token.token s) in
      let no_refresh =
        after_gone is_active client_id now t scopes user access_value refresh_value s'
          (key_refresh_token refresh_token.token) h
          (ground (arith, string_eq.beq_iff refresh_value refresh_token.token, new_refresh))
          (revoke_refresh now t refresh_token.token s named) in
      let no_access =
        after_gone is_active client_id now t scopes user access_value refresh_value s'
          (key_access_token old_access) h
          (ground (arith, string_eq.beq_iff access_value old_access, new_access))
          (revoke_linked now t refresh_token.token old_access s named at) in
      (
        rw (load_refresh_token, allowed, no_refresh) refl,
        rw (load_access_token, allowed, no_access) refl,
      )

  not_for_scopes_issue :
      (client_id : Option String) (now : ℕ) (scopes : List String) (user access_value : String)
      (refresh_value : String) (s : r.Store)
      → (issue_for r client_id now scopes (some user) access_value refresh_value s).0
        ≢ refused invalid_scope
  not_for_scopes_issue none now scopes user access_value refresh_value s h = cc
  not_for_scopes_issue (some c) now scopes user access_value refresh_value s h = cc

  no_user :
      (now : ℕ) (token : String) (s : r.Store)
      → r.get now s (key_r2a token) ≡ none
      → filled (old_user r now token s) ≡ none
  unfolding old_user
  no_user now token s gone = rw (filled, old_user, gone) refl

  not_for_scopes :
      (is_active : String → Bool) (client_id : Option String) (now : ℕ) (scopes : List String)
      (user : Option String) (access_value refresh_value : String) (s : r.Store)
      → (refresh_for r is_active client_id now scopes user access_value refresh_value s).0
        ≢ refused invalid_scope
  not_for_scopes is_active none now scopes none access_value refresh_value s h = cc
  not_for_scopes is_active (some c) now scopes none access_value refresh_value s h = cc
  not_for_scopes is_active client_id now scopes (some user) access_value refresh_value s h =
      elim (Bool-cases (is_active user)) [
        | inl active ↦
            not_for_scopes_issue client_id now scopes user access_value refresh_value s
              (simp active at h)
        | inr disabled ↦ absurd (cc (simp disabled at h))
      ]

  -- An exchange of a refresh token is refused for its scopes exactly when one of the scopes asked
  -- for is none of the token's, and then the store is left as it is.
  pub exchange_refresh_token_scopes :
      (is_active : String → Bool) (now : ℕ) (client_id : Option String)
      (refresh_token : RefreshToken) (scopes : List String) (access_value refresh_value : String)
      (s : r.Store)
      → (((exchange_refresh_token r is_active now client_id refresh_token scopes access_value
              refresh_value s).0
            ≡ refused invalid_scope)
          ↔ ((scope : String) × Elem scope scopes × (¬ Elem scope refresh_token.scopes)))
        × ((exchange_refresh_token r is_active now client_id refresh_token scopes access_value
                refresh_value s).0
              ≡ refused invalid_scope
            → (exchange_refresh_token r is_active now client_id refresh_token scopes access_value
                refresh_value s).1
              ≡ s)
  unfolding exchange_refresh_token
  exchange_refresh_token_scopes is_active now client_id refresh_token scopes access_value
        refresh_value s =
      elim (Bool-cases (all_in scopes refresh_token.scopes)) [
        | inl allowed ↦ rw allowed (
          (
            λ h.
                absurd
                  (not_for_scopes is_active client_id now scopes _ access_value refresh_value _ h),
            λ (scope, asked, foreign).
                absurd (foreign (all_in-Elem scopes refresh_token.scopes allowed scope asked)),
          ),
          λ h.
              absurd
                (not_for_scopes is_active client_id now scopes _ access_value refresh_value _ h),
        )
        | inr short ↦
            rw short ((λ h. all_in-foreign scopes refresh_token.scopes short, λ h. refl), λ h. refl)
      ]

  -- What the new access token loads as.
  loads_as :
      (now t : ℕ) (client : String) (scopes : List String) (user : Option String)
      (access_value refresh_value : String) (s : r.Store)
      → now ≤ t
      → t < now + valid_for
      → (load_access_token r t access_value
          (issue r now client scopes user access_value refresh_value s).1).0
        ≡ some (record {
          token = access_value;
          client_id = client;
          scopes = scopes;
          expires_at = some (access_expires_at now);
          claims = filled user;
        })
  unfolding load_access_token
  loads_as now t client scopes user access_value refresh_value s h soon =
      rw
        (
          load_access_token,
          issue_access r now t client scopes user access_value refresh_value s h soon,
          not_expired now t soon,
        )
        refl

  -- An exchange of a refresh token whose linked access token is stored with a user is refused if
  -- the user is not active; else, for a client with an id and scopes of the old token, the new
  -- access token loads for a week less a second with that user, that client and those scopes.
  pub exchange_refresh_token_user :
      (is_active : String → Bool) (now t : ℕ) (client user : String) (refresh_token : RefreshToken)
      (scopes : List String) (access_value refresh_value : String) (s : r.Store)
      → all_in scopes refresh_token.scopes ≡ true
      → filled (old_user r now refresh_token.token s) ≡ some user
      → now ≤ t
      → t < now + valid_for
      → (is_active user ≡ false
          → (exchange_refresh_token r is_active now
              (some client)
              refresh_token
              scopes
              access_value
              refresh_value
              s).0
            ≡ refused user_disabled)
        × (is_active user ≡ true
            → (load_access_token r t access_value
                (exchange_refresh_token r is_active now
                  (some client)
                  refresh_token
                  scopes
                  access_value
                  refresh_value
                  s).1).0
              ≡ some (record {
                token = access_value;
                client_id = client;
                scopes = scopes;
                expires_at = some (access_expires_at now);
                claims = filled (some user);
              }))
  unfolding exchange_refresh_token
  exchange_refresh_token_user is_active now t client user refresh_token scopes access_value
        refresh_value s allowed at h soon =
      (
        λ disabled. rw (allowed, at, disabled) refl,
        λ active.
            rw (allowed, at, active)
              (loads_as now t client scopes (some user) access_value refresh_value
                (revoke_internal r now none (some refresh_token.token) s) h soon),
      )

  -- A refresh token whose link is gone, as Redis drops it with the access token, is exchanged, for
  -- a client with an id and scopes of the old token, for an access token without a user, whoever is
  -- active.
  pub exchange_refresh_token_unlinked :
      (is_active : String → Bool) (now t : ℕ) (client : String) (refresh_token : RefreshToken)
      (scopes : List String) (access_value refresh_value : String) (s : r.Store)
      → all_in scopes refresh_token.scopes ≡ true
      → r.get now s (key_r2a refresh_token.token) ≡ none
      → now ≤ t
      → t < now + valid_for
      → (load_access_token r t access_value
          (exchange_refresh_token r is_active now
            (some client)
            refresh_token
            scopes
            access_value
            refresh_value
            s).1).0
        ≡ some (record {
          token = access_value;
          client_id = client;
          scopes = scopes;
          expires_at = some (access_expires_at now);
          claims = none;
        })
  unfolding exchange_refresh_token
  exchange_refresh_token_unlinked is_active now t client refresh_token scopes access_value
        refresh_value s allowed gone h soon =
      rw (allowed, no_user now refresh_token.token s gone)
        (loads_as now t client scopes none access_value refresh_value
          (revoke_internal r now none (some refresh_token.token) s) h soon)
