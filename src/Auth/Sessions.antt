-- ===== src/Auth/Sessions.antt =====
-- The tokens of src/http_api/auth.rs over the life of a server: requests to /auth, one after the
-- other, and what their replies said.
use librtbit.Base.{
  ℕ, ◌+◌, ◌≤◌, ◌≡◌, refl, ap, ◌∙◌, Bool, false, Option, none, some, List, [], ◌∷◌, arith, ltb, ◌==◌,
  if◌then◌else◌,
}
use librtbit.Base.Assoc.{
  lookup, insert, contains_key, IsMap, lookup-absent, lookup-insert, insert-IsMap, lookup-remove,
  remove-IsMap,
}
use librtbit.Auth.Tokens.{
  Text, Token, TokenEntry, TokenStore, TokenResponse, new, access_token_ttl, refresh_token_ttl,
  create_tokens, outlives, revoke_refresh_token, retain, cleanup_expired,
}
use librtbit.Auth.Gate.{
  HttpApi, Response, Moment, h_auth_setup, h_auth_change_credentials, h_auth_login, h_auth_refresh,
  h_auth_logout,
}

-- A request of /auth that can change something.
pub data Request : Type 0 where
  setup_request : Text → Text → Request
  change_request : Text → Option Text → Option Text → Request
  login_request : Text → Text → Request
  refresh_request : Token → Request
  logout_request : Token → Request

unfoldable pub serve : Moment → Request → HttpApi → Response × HttpApi
serve m (setup_request username password) api = h_auth_setup m username password api
serve m (change_request current username password) api =
    h_auth_change_credentials m current username password api
serve m (login_request username password) api = h_auth_login m username password api
serve m (refresh_request token) api = h_auth_refresh m token api
serve m (logout_request token) api = h_auth_logout token api

-- What has been seen of tokens: that a reply gave them out at a time, and that a refresh token was
-- used or given back.
pub data Event : Type 0 where
  issued : TokenResponse → ℕ → Event
  ended : Token → Event

-- The log, the latest event first, after a request and its response.
abbrev pub note_issued : Moment → Response → List Event → List Event
note_issued m r log = elim r.tokens [ none ↦ log | some t ↦ issued t m.later ∷ log ]

abbrev pub note : Moment → Request → Response → List Event → List Event
note m (setup_request username password) r log = note_issued m r log
note m (change_request current username password) r log = note_issued m r log
note m (login_request username password) r log = note_issued m r log
note m (refresh_request token) r log = elim r.tokens [
  | none ↦ log
  | some t ↦ note_issued m r (ended token ∷ log)
]
note m (logout_request token) r log = ended token ∷ log

-- By the log, the access token was last given out less than its lifetime before `now`.
abbrev pub access_valid : List Event → Token → ℕ → Bool
access_valid [] token now = false
access_valid (issued r at ∷ log) token now =
    if r.access_token == token then ltb now (at + access_token_ttl) else access_valid log token now
access_valid (ended other ∷ log) token now = access_valid log token now

-- By the log, the refresh token was last given out less than its lifetime before `now`, and was
-- neither used nor given back since.
abbrev pub refresh_valid : List Event → Token → ℕ → Bool
refresh_valid [] token now = false
refresh_valid (issued r at ∷ log) token now =
    if r.refresh_token == token
    then ltb now (at + refresh_token_ttl)
    else refresh_valid log token now
refresh_valid (ended other ∷ log) token now =
    if other == token then false else refresh_valid log token now

-- The server has started with an empty token store, and has handled requests up to a time.
pub data Run : HttpApi → List Event → ℕ → Type 0 where
  begins : (api : HttpApi) (t : ℕ) → api.token_store ≡ some new → Run api [] t
  serves :
      {api : HttpApi} {log : List Event} {t : ℕ}
      → Run api log t
      → (m : Moment) (q : Request) → t ≤ m.now
      → m.now ≤ m.later
      → Run (serve m q api).1 (note m q (serve m q api).0 log) m.later

lookup-retain :
    (token now c : ℕ) (m : List (Token × TokenEntry))
    → IsMap m
    → c ≤ now
    → outlives (lookup token (retain c m)) now ≡ outlives (lookup token m) now
unfolding lookup retain
lookup-retain token now c [] u h = refl
lookup-retain token now c ((key, entry) ∷ m) u h = ground (
  arith,
  lookup-retain token now c m u.1 h,
  lookup-absent key m u.0,
  ap (λ n. lookup n m) {x = key} {y = token},
)

contains_key-retain :
    (key c : ℕ) (m : List (Token × TokenEntry))
    → contains_key key m ≡ false
    → contains_key key (retain c m) ≡ false
unfolding retain
contains_key-retain key c [] e = refl
contains_key-retain key c ((other, entry) ∷ m) e = ground (arith, contains_key-retain key c m)

retain-IsMap : (c : ℕ) (m : List (Token × TokenEntry)) → IsMap m → IsMap (retain c m)
unfolding retain
retain-IsMap c [] u = tt
retain-IsMap c ((key, entry) ∷ m) u =
    ground (arith, retain-IsMap c m u.1, contains_key-retain key c m u.0)

-- The store is what the log says, from the time `t` on.
pub record Agrees (s : TokenStore) (log : List Event) (t : ℕ) : Type 0 where
  pub access_map : IsMap s.access_tokens
  pub refresh_map : IsMap s.refresh_tokens
  pub access :
      (token now : ℕ)
      → t ≤ now
      → outlives (lookup token s.access_tokens) now ≡ access_valid log token now
  pub refreshes :
      (token now : ℕ)
      → t ≤ now
      → outlives (lookup token s.refresh_tokens) now ≡ refresh_valid log token now

pub outlives-insert :
    (key token now expires_at : ℕ) (m : List (Token × TokenEntry))
    → outlives (lookup token (insert key (record { expires_at = expires_at }) m)) now
      ≡ (if key == token then ltb now expires_at else outlives (lookup token m) now)
outlives-insert key token now expires_at m =
    rw (lookup-insert key token (record { expires_at = expires_at }) m) (ground arith)

module _ (s : TokenStore) (log : List Event) (t : ℕ) (h : Agrees s log t) where
  pub Agrees-later : (t' : ℕ) → t ≤ t' → Agrees s log t'
  Agrees-later t' le = record {
    access_map = h.access_map;
    refresh_map = h.refresh_map;
    access = λ token now from. h.access token now (omega arith);
    refreshes = λ token now from. h.refreshes token now (omega arith);
  }

  pub create_tokens-Agrees :
      (a r now : ℕ)
      → t ≤ now
      → let (tokens, s') = create_tokens a r now s in Agrees s' (issued tokens now ∷ log) now
  unfolding create_tokens
  create_tokens-Agrees a r now le = record {
    access_map = insert-IsMap a _ s.access_tokens h.access_map;
    refresh_map = insert-IsMap r _ s.refresh_tokens h.refresh_map;
    access = λ token at from.
        rw (outlives-insert a token at (now + access_token_ttl) s.access_tokens)
          (rw (h.access token at (omega arith)) refl);
    refreshes = λ token at from.
        rw (outlives-insert r token at (now + refresh_token_ttl) s.refresh_tokens)
          (rw (h.refreshes token at (omega arith)) refl);
  }

  pub revoke-Agrees : (key : ℕ) → Agrees (revoke_refresh_token key s) (ended key ∷ log) t
  unfolding revoke_refresh_token
  revoke-Agrees key = record {
    access_map = h.access_map;
    refresh_map = remove-IsMap key s.refresh_tokens h.refresh_map;
    access = h.access;
    refreshes = λ token now from.
        rw (lookup-remove key token s.refresh_tokens h.refresh_map)
          (ground (arith, h.refreshes token now from));
  }

  pub cleanup-Agrees : (c : ℕ) → t ≤ c → Agrees (cleanup_expired c s) log c
  unfolding cleanup_expired
  cleanup-Agrees c le = record {
    access_map = retain-IsMap c s.access_tokens h.access_map;
    refresh_map = retain-IsMap c s.refresh_tokens h.refresh_map;
    access = λ token now from.
        lookup-retain token now c s.access_tokens h.access_map from
        ∙ h.access token now (omega arith);
    refreshes = λ token now from.
        lookup-retain token now c s.refresh_tokens h.refresh_map from
        ∙ h.refreshes token now (omega arith);
  }
