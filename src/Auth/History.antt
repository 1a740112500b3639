-- ===== src/Auth/History.antt =====
-- src/http_api/auth.rs: what the token store holds is what the replies said.
use librtbit.Base.{
  subst, ℕ, ◌≤◌, ◌≡◌, refl, sym, ap, Bool, true, false, ◌||◌, Option, none, some, List, ◌∷◌, arith,
  ◌==◌, if◌then◌else◌, inl, inr, Bool-cases, Option-cases, length,
}
use librtbit.Base.Assoc.{lookup}
use librtbit.Auth.Tokens.{
  Text, Token, TokenStore, new, create_tokens, validate_access_token, may_refresh,
  revoke_refresh_token, rotate, refresh, cleanup_expired, CredentialStore, StoredCredentials,
  set_credentials, has_credentials, constant_time_eq,
}
use librtbit.Auth.Gate.{
  HttpApi, Moment, plain, reply_tokens, reply_refresh, store_new_user, current_creds, change_from,
  is_some, login_valid, h_auth_setup, h_auth_change_credentials, h_auth_login, h_auth_refresh,
  h_auth_logout,
}
use librtbit.Auth.Sessions.{
  Request, setup_request, change_request, login_request, refresh_request, logout_request, serve,
  Event, ended, note_issued, note, access_valid, refresh_valid, Run, begins, serves, Agrees,
  Agrees-later, create_tokens-Agrees, revoke-Agrees, cleanup-Agrees,
}

abbrev Holds : HttpApi → List Event → ℕ → Type 0
Holds api log t = (s : TokenStore) × (api.token_store ≡ some s) × Agrees s log t

reply_tokens-Holds :
    (m : Moment) (s : TokenStore) (api : HttpApi) (log : List Event) (t : ℕ)
    → Agrees s log t
    → t ≤ m.later
    → let (r, api') = reply_tokens m s api in Holds api' (note_issued m r log) m.later
unfolding reply_tokens create_tokens
reply_tokens-Holds m s api log t h le =
    (_, refl, create_tokens-Agrees s log t h m.access_token m.refresh_token m.later le)

module _ (basic_auth : Option StoredCredentials) (s : TokenStore) (log : List Event) (t : ℕ)
    (h : Agrees s log t) (m : Moment) (past : t ≤ m.now) (on : m.now ≤ m.later) where
  unfoldable api_with : Option CredentialStore → HttpApi
  api_with cs = record { basic_auth = basic_auth; token_store = some s; credential_store = cs }

  later : Agrees s log m.later
  later = Agrees-later s log t h m.later (omega arith)

  saved-Holds :
      (saved : Bool) (creds : StoredCredentials) (cs : CredentialStore)
      → let (ok, cs') = set_credentials saved creds cs in
        let api' = api_with (some cs') in
        let (r, served) = if ok then reply_tokens m s api' else (plain 500, api') in
        Holds served (note_issued m r log) m.later
  unfolding set_credentials api_with
  saved-Holds true creds cs = reply_tokens-Holds m s _ log t h (omega arith)
  saved-Holds false creds cs = (s, refl, later)

  store_new_user-Holds :
      (creds : StoredCredentials) (cs : CredentialStore)
      → let (r, api') = store_new_user m creds cs (api_with (some cs)) in
        Holds api' (note_issued m r log) m.later
  unfolding store_new_user api_with
  store_new_user-Holds creds cs = saved-Holds m.saved creds cs

  setup-Holds :
      (username password : Text) (cs : Option CredentialStore)
      → let (r, api') = h_auth_setup m username password (api_with cs) in
        Holds api' (note_issued m r log) m.later
  unfolding h_auth_setup api_with
  setup-Holds username password none = (s, refl, later)
  setup-Holds username password (some cs) =
      elim (Bool-cases (has_credentials cs || is_some basic_auth)) [
        | inl known ↦ rw known (s, refl, later)
        | inr unknown ↦ elim (Bool-cases (length username == 0 || length password == 0)) [
          | inl empty ↦ rw (unknown, empty) (s, refl, later)
          | inr given ↦ rw (unknown, given) (store_new_user-Holds _ cs)
        ]
      ]

  change-Holds :
      (current : Text) (username password : Option Text) (cs : Option CredentialStore)
      → let (r, api') = h_auth_change_credentials m current username password (api_with cs) in
        Holds api' (note_issued m r log) m.later
  unfolding h_auth_change_credentials change_from api_with
  change-Holds current username password none = (s, refl, later)
  change-Holds current username password (some cs) =
      elim (Option-cases (current_creds cs (api_with (some cs)))) [
        | inl unknown ↦ rw (h_auth_change_credentials, unknown) (s, refl, later)
        | inr (creds, known) ↦ elim (Bool-cases (constant_time_eq current creds.password)) [
          | inl right ↦ rw (h_auth_change_credentials, known, right) (s, refl, later)
          | inr wrong ↦ rw (h_auth_change_credentials, known, wrong) (s, refl, later)
        ]
      ]

  login-Holds :
      (username password : Text) (cs : Option CredentialStore)
      → let (r, api') = h_auth_login m username password (api_with cs) in
        Holds api' (note_issued m r log) m.later
  unfolding h_auth_login api_with
  login-Holds username password cs =
      elim (Option-cases (login_valid (api_with cs) username password)) [
        | inl unknown ↦ rw (h_auth_login, unknown) (s, refl, later)
        | inr (valid, known) ↦ elim (Bool-cases valid) [
          | inl right ↦
              rw (h_auth_login, known, right)
                (reply_tokens-Holds m (cleanup_expired m.now s) _ log m.now
                  (cleanup-Agrees s log t h m.now past) on)
          | inr wrong ↦ rw (h_auth_login, known, wrong) (s, refl, later)
        ]
      ]

  refresh-Holds :
      (token : Token) (cs : Option CredentialStore)
      → let (r, api') = h_auth_refresh m token (api_with cs) in
        Holds api' (note m (refresh_request token) r log) m.later
  unfolding h_auth_refresh refresh rotate create_tokens reply_refresh api_with
  refresh-Holds token cs = elim (Bool-cases (may_refresh s token m.now)) [
    | inl fresh ↦ rw fresh (
      _,
      refl,
      create_tokens-Agrees (revoke_refresh_token token s) (ended token ∷ log) t
          (revoke-Agrees s log t h token) m.access_token m.refresh_token m.later (omega arith),
    )
    | inr stale ↦ rw stale (s, refl, later)
  ]

  logout-Holds :
      (token : Token) (cs : Option CredentialStore)
      → let (r, api') = h_auth_logout token (api_with cs) in
        Holds api' (note m (logout_request token) r log) m.later
  unfolding h_auth_logout api_with
  logout-Holds token cs = (_, refl, revoke-Agrees s log m.later later token)

  serve-Holds :
      (q : Request) (cs : Option CredentialStore)
      → let (r, api') = serve m q (api_with cs) in Holds api' (note m q r log) m.later
  unfolding serve
  serve-Holds (setup_request username password) cs = setup-Holds username password cs
  serve-Holds (change_request current username password) cs =
      change-Holds current username password cs
  serve-Holds (login_request username password) cs = login-Holds username password cs
  serve-Holds (refresh_request token) cs = refresh-Holds token cs
  serve-Holds (logout_request token) cs = logout-Holds token cs

Run-Holds : {api : HttpApi} {log : List Event} {t : ℕ} → Run api log t → Holds api log t
unfolding api_with lookup
Run-Holds (begins api t empty) = (
  new,
  empty,
  record {
    access_map = tt;
    refresh_map = tt;
    access = λ token now from. refl;
    refreshes = λ token now from. refl;
  },
)
Run-Holds (serves {api} {log} {t} run m q past on) =
    let (s, there, agrees) = Run-Holds run in
    let same : record api { token_store = some s } ≡ api =
      ap (λ ts. record api { token_store = ts }) (sym there) in
    subst (λ a. Holds (serve m q a).1 (note m q (serve m q a).0 log) m.later) same
      (serve-Holds api.basic_auth s log t agrees m past on q api.credential_store)

-- After any requests that set up, change, log in, refresh and log out, one after the other, in a
-- server that started without tokens: an access token is valid exactly if a reply gave it out, the
-- last time less than 15 minutes ago; and a refresh token can be used exactly if a reply gave it
-- out, the last time less than 30 days ago, and it was neither used nor given back since. The clock
-- does not go back.
pub Run-exact :
    {api : HttpApi} {log : List Event} {t : ℕ}
    → Run api log t
    → (token now : ℕ) → t ≤ now
    → (s : TokenStore) × (api.token_store ≡ some s)
      × (validate_access_token s token now ≡ access_valid log token now)
      × (may_refresh s token now ≡ refresh_valid log token now)
unfolding validate_access_token may_refresh
Run-exact run token now from =
    let (s, there, agrees) = Run-Holds run in
    (s, there, agrees.access token now from, agrees.refreshes token now from)
