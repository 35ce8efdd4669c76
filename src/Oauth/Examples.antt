-- ===== src/Oauth/Examples.antt =====
-- Redis as a function of the keys, a client that signs in and refreshes, and the theorems at it.
use claude_todo.Prelude.{
  ℕ, ◌+◌, ◌*◌, String, ◌≡◌, refl, Bool, true, false, Option, none, some, List, [], ◌∷◌, ◌==◌,
  string_eq, if◌then◌else◌, ltb, contains, arith, Bool-cases, inl, inr, ◌≢◌, ◌↔◌, Elem,
}
use claude_todo.Oauth.{
  Key, key_eq, key_auth_code, key_r2a, RefreshToken, AuthorizationCode, Stored, code_stored, second,
  TokenStore, granted, refused, OAuthToken, access_expires_at, issue, exchange_authorization_code,
  load_access_token, load_refresh_token, exchange_refresh_token, old_user, invalid_grant,
  invalid_scope, user_disabled, default_access_token_expiry, filled, linked,
}
use claude_todo.Oauth.Issue.{
  load_access_token-exchange_authorization_code, exchange_authorization_code_once,
}
use claude_todo.Oauth.Rotate.{
  exchange_refresh_token_revokes, exchange_refresh_token_scopes, exchange_refresh_token_user,
  exchange_refresh_token_unlinked,
}

abbrev Entries : Type 0
Entries = Key → Option (Stored × ℕ)

abbrev still : ℕ → Option (Stored × ℕ) → Option Stored
still t none = none
still t (some (v, until)) = if ltb t until then some v else none

abbrev put : ℕ → Key → Stored → ℕ → Entries → Entries
put now key v ex s other = if key == other then some (v, now + ex * second) else s other

abbrev drop : List Key → Entries → Entries
drop keys s key = if contains keys key then none else s key

abbrev entries : TokenStore
entries = record {
  Store = Entries;
  get = λ t s key. still t (s key);
  set = put;
  del = drop;
  get_set = λ t now s key other v ex h. elim (Bool-cases (key == other)) [
    | inl same ↦ rw same refl
    | inr differ ↦ rw differ refl
  ];
  get_del = λ t s keys key. elim (Bool-cases (contains keys key)) [
    | inl held ↦ rw held refl
    | inr absent ↦ rw absent refl
  ];
}

abbrev sign_in : AuthorizationCode
sign_in = record {
  code = "c";
  client_id = "app";
  scopes = "read" ∷ [];
  expires_at = 300000000;
  user_id = some "u";
}

abbrev s0 : Entries
s0 = put 0 (key_auth_code "c") (code_stored sign_in) 300 (λ key. none)

abbrev s1 : Entries
s1 = (exchange_authorization_code entries 0 (some "app") sign_in "a" "r" s0).1

abbrev first : OAuthToken
first = record {
  access_token = "a";
  expires_in = default_access_token_expiry;
  refresh_token = "r";
  scope = some "read";
}

s0_grants :
    (exchange_authorization_code entries 0 (some "app") sign_in "a" "r" s0).0 ≡ granted first
unfolding exchange_authorization_code issue
s0_grants = refl

abbrev old : RefreshToken
old = record { token = "r"; client_id = "app"; scopes = "read" ∷ []; expires_at = none }

s1-linked : linked entries 60000000 s1 (key_r2a "r") ≡ some "a"
unfolding exchange_authorization_code issue
s1-linked = refl

s1_user : filled (old_user entries 60000000 "r" s1) ≡ some "u"
unfolding exchange_authorization_code issue old_user
s1_user = refl

load_access_token-exchange_authorization_code_example :
    (first.access_token ≡ "a")
    × ((load_access_token entries 60000000 "a" s1).0
        ≡ some (record {
          token = "a";
          client_id = "app";
          scopes = "read" ∷ [];
          expires_at = some (access_expires_at 0);
          claims = some "u";
        }))
load_access_token-exchange_authorization_code_example =
    load_access_token-exchange_authorization_code entries 0 60000000 "app" sign_in "a" "r" s0 first
      s0_grants (omega arith) (omega arith)

exchange_authorization_code_once_example :
    (exchange_authorization_code entries 1 (some "app") sign_in "b" "q" s1).0
    ≡ refused invalid_grant
exchange_authorization_code_once_example =
    exchange_authorization_code_once entries 0 1 (some "app") (some "app") sign_in sign_in "a" "r"
      "b" "q" s0 (omega arith) refl (λ h. absurd (cc h))

differ_rq : ◌≢◌ {A = String} "q" "r"
differ_rq = ground (arith, string_eq.beq_iff "q" "r")

differ_ab : ◌≢◌ {A = String} "b" "a"
differ_ab = ground (arith, string_eq.beq_iff "b" "a")

named : ◌≢◌ {A = String} "r" ""
named = ground (arith, string_eq.beq_iff "r" "")

abbrev everyone : String → Bool
everyone user = true

exchange_refresh_token_revokes_example :
    ((load_refresh_token entries 61000000
        (some "app")
        "r"
        (exchange_refresh_token entries everyone 60000000
          (some "app")
          old
          ("read" ∷ [])
          "b"
          "q"
          s1).1).0
      ≡ none)
    × ((load_access_token entries 61000000 "a"
          (exchange_refresh_token entries everyone 60000000
            (some "app")
            old
            ("read" ∷ [])
            "b"
            "q"
            s1).1).0
        ≡ none)
exchange_refresh_token_revokes_example =
    exchange_refresh_token_revokes entries everyone 60000000 61000000 (some "app") (some "app") old
      ("read" ∷ []) "b" "q" "a" s1 refl (omega arith) named differ_rq differ_ab s1-linked

exchange_refresh_token_scopes_example :
    (((exchange_refresh_token entries everyone 60000000
          (some "app")
          old
          ("write" ∷ [])
          "b"
          "q"
          s1).0
        ≡ refused invalid_scope)
      ↔ ((scope : String) × Elem scope ("write" ∷ []) × (¬ Elem scope old.scopes)))
    × ((exchange_refresh_token entries everyone 60000000
            (some "app")
            old
            ("write" ∷ [])
            "b"
            "q"
            s1).0
          ≡ refused invalid_scope
        → (exchange_refresh_token entries everyone 60000000
            (some "app")
            old
            ("write" ∷ [])
            "b"
            "q"
            s1).1
          ≡ s1)
exchange_refresh_token_scopes_example =
    exchange_refresh_token_scopes entries everyone 60000000 (some "app") old ("write" ∷ []) "b" "q"
      s1

exchange_refresh_token_user_example :
    (everyone "u" ≡ false
      → (exchange_refresh_token entries everyone 60000000
          (some "app")
          old
          ("read" ∷ [])
          "b"
          "q"
          s1).0
        ≡ refused user_disabled)
    × (everyone "u" ≡ true
        → (load_access_token entries 61000000 "b"
            (exchange_refresh_token entries everyone 60000000
              (some "app")
              old
              ("read" ∷ [])
              "b"
              "q"
              s1).1).0
          ≡ some (record {
            token = "b";
            client_id = "app";
            scopes = "read" ∷ [];
            expires_at = some (access_expires_at 60000000);
            claims = some "u";
          }))
exchange_refresh_token_user_example =
    exchange_refresh_token_user entries everyone 60000000 61000000 "app" "u" old ("read" ∷ []) "b"
      "q" s1 refl s1_user (omega arith) (omega arith)

-- Eight days later.
s1_unlinked : entries.get 691200000000 s1 (key_r2a "r") ≡ none
unfolding exchange_authorization_code issue
s1_unlinked = refl

exchange_refresh_token_unlinked_example :
    (load_access_token entries 691200000001 "b"
      (exchange_refresh_token entries everyone 691200000000
        (some "app")
        old
        ("read" ∷ [])
        "b"
        "q"
        s1).1).0
    ≡ some (record {
      token = "b";
      client_id = "app";
      scopes = "read" ∷ [];
      expires_at = some (access_expires_at 691200000000);
      claims = none;
    })
exchange_refresh_token_unlinked_example =
    exchange_refresh_token_unlinked entries everyone 691200000000 691200000001 "app" old
      ("read" ∷ []) "b" "q" s1 refl s1_unlinked (omega arith) (omega arith)

refresh_still_stored : (load_refresh_token entries 691200000000 (some "app") "r" s1).0 ≡ some old
unfolding load_refresh_token exchange_authorization_code issue
refresh_still_stored = refl
