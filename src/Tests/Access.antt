-- ===== src/Tests/Access.antt =====
-- The theorems on src/http_api/auth.rs, at a server that is set up and used.
use librtbit.Base.{ℕ, ◌≡◌, ◌↔◌, refl, inr, true, none, some, List, [], ◌∷◌, ◌*◌, arith, Returns}
use librtbit.Base.Assoc.{lookup, insert, remove}
use librtbit.Auth.Tokens.{
  has_credentials, set_credentials, validate, matches, constant_time_eq, difference, create_tokens,
  cleanup_expired, retain, revoke_refresh_token, rotate, Text, TokenStore, new, second,
  validate_access_token, may_refresh, refresh,
}
use librtbit.Auth.Gate.{
  HttpApi, Moment, neither, passed, h_auth_setup, h_auth_login, h_auth_refresh, login_valid,
  store_new_user, reply_tokens, reply_refresh,
}
use librtbit.Auth.Sessions.{
  setup_request, login_request, refresh_request, serve, Event, note, access_valid, refresh_valid,
  Run, begins, serves,
}
use librtbit.Auth.History.{Run-exact}
use librtbit.Auth.Qbit.{QbitSessions, qbit_route, admit}
use librtbit.Auth.Qbit
use librtbit.Auth.Routes.{MayPass, admit-exact}
use librtbit.Auth.Routes
use librtbit.Auth.Race.{refresh_interleaved, refresh_interleaved-passes}

abbrev ann : Text
ann = 97 ∷ 110 ∷ 110 ∷ []

abbrev word : Text
word = 119 ∷ 111 ∷ 114 ∷ 100 ∷ []

abbrev fresh_server : HttpApi
fresh_server = record {
  basic_auth = none;
  token_store = some new;
  credential_store = some (record { credentials = none });
}

abbrev moment : ℕ → ℕ → ℕ → Moment
moment at access_token refresh_token = record {
  now = at * second;
  later = at * second;
  access_token = access_token;
  refresh_token = refresh_token;
  saved = true;
}

abbrev set_up : HttpApi
set_up = (serve (moment 1 10 20) (setup_request ann word) fresh_server).1

abbrev logged_in : HttpApi
logged_in = (serve (moment 2 11 21) (login_request ann word) set_up).1

abbrev refreshed : HttpApi
refreshed = (serve (moment 3 12 22) (refresh_request 21) logged_in).1

abbrev log : List Event
log =
    note (moment 3 12 22) (refresh_request 21)
      (serve (moment 3 12 22) (refresh_request 21) logged_in).0
      (note (moment 2 11 21) (login_request ann word)
        (serve (moment 2 11 21) (login_request ann word) set_up).0
        (note (moment 1 10 20) (setup_request ann word)
          (serve (moment 1 10 20) (setup_request ann word) fresh_server).0 []))

three_requests : Run refreshed log (3 * second)
three_requests =
    serves
      (serves
        (serves (begins fresh_server 0 refl) (moment 1 10 20) (setup_request ann word) (omega arith)
          (omega arith))
        (moment 2 11 21) (login_request ann word) (omega arith) (omega arith))
      (moment 3 12 22) (refresh_request 21) (omega arith) (omega arith)

Run-exact_example :
    (s : TokenStore) × (refreshed.token_store ≡ some s)
    × (validate_access_token s 11 (9 * second) ≡ access_valid log 11 (9 * second))
    × (may_refresh s 11 (9 * second) ≡ refresh_valid log 11 (9 * second))
Run-exact_example = Run-exact three_requests 11 (9 * second) (omega arith)

-- What the log says of the tokens of the login.
login_access_valid : access_valid log 11 (9 * second) ≡ true
unfolding serve reply_refresh h_auth_refresh h_auth_login login_valid h_auth_setup has_credentials
    store_new_user set_credentials reply_tokens validate matches constant_time_eq difference refresh
    may_refresh lookup create_tokens cleanup_expired retain revoke_refresh_token rotate insert
    remove
login_access_valid = refl

-- The environment has credentials, and somebody logged in to /api/v2 with them.
abbrev env_server : HttpApi
env_server = record {
  basic_auth = some (record { username = ann; password = word });
  token_store = none;
  credential_store = none;
}

abbrev no_sessions : QbitSessions
no_sessions = record { sessions = [] }

admit-exact_example :
    (admit
        (2 * second)
        env_server
        (Qbit.h_auth_login 7 second ann word env_server no_sessions).1
        qbit_route
        neither
        (some 7)
      ≡ passed)
    ↔ MayPass (2 * second) env_server (Routes.logged_in 7 second ∷ []) qbit_route neither (some 7)
admit-exact_example =
    admit-exact (2 * second) env_server
      (Qbit.h_auth_login 7 second ann word env_server no_sessions).1
      (Routes.logged_in 7 second ∷ []) qbit_route neither (some 7) refl
      (Routes.login Routes.begins env_server refl 7 second ann word (inr (_, refl, (refl, refl))))

abbrev one_token : TokenStore
one_token = record {
  access_tokens = [];
  refresh_tokens = (21, record { expires_at = 9 * second }) ∷ [];
}

refresh_interleaved-passes_example :
    ((refresh 21 11 31 second second (refresh 21 10 30 second second one_token).1).0 ≡ none)
    × Returns
        (refresh_interleaved 21 (10, 30) (11, 31) second second second second one_token)
        (λ s'.
          (validate_access_token s' 10 (2 * second) ≡ true)
          × (validate_access_token s' 11 (2 * second) ≡ true)
          × (may_refresh s' 30 (2 * second) ≡ true)
          × (may_refresh s' 31 (2 * second) ≡ true))
unfolding may_refresh lookup
refresh_interleaved-passes_example =
    refresh_interleaved-passes 21 10 30 11 31 second second second second (2 * second) one_token
      (refl, tt) (omega arith) (omega arith) (omega arith) refl refl (omega arith) (omega arith)
