-- ===== src/Auth/Gate.antt =====
-- The handlers of src/http_api/auth.rs, and the check of src/http_api/mod.rs on
-- the main router.
use librtbit.Base.{
  ℕ, Bool, true, false, not, ◌&&◌, ◌||◌, Option, none, some, ◌==◌, if◌then◌else◌, length,
}
use librtbit.Auth.Tokens.{
  Text, Token, TokenStore, TokenResponse, create_tokens, validate_access_token, refresh,
  revoke_refresh_token, cleanup_expired, constant_time_eq, StoredCredentials, CredentialStore,
  has_credentials, set_credentials, matches, validate,
}

-- The fields of `HttpApiOptions` for authentication.
pub record HttpApi : Type 0 where
  pub basic_auth : Option StoredCredentials
  pub token_store : Option TokenStore
  pub credential_store : Option CredentialStore

-- The status code, and the tokens if the body has them.
pub record Response : Type 0 where
  pub status : ℕ
  pub tokens : Option TokenResponse

-- What the program gets from outside while it handles a request: the clock's time, a later time,
-- the two random tokens, and whether the credentials' file could be saved.
pub record Moment : Type 0 where
  pub now : ℕ
  pub later : ℕ
  pub access_token : Token
  pub refresh_token : Token
  pub saved : Bool

abbrev pub plain : ℕ → Response
plain status = record { status = status; tokens = none }

abbrev pub store_has_credentials : HttpApi → Bool
store_has_credentials api = elim api.credential_store [
  | none ↦ false
  | some cs ↦ has_credentials cs
]

abbrev pub is_some {ℓ} : {A : Type ℓ} → Option A → Bool
is_some none = false
is_some (some a) = true

-- (`auth_enabled`, `setup_required`)
unfoldable h_auth_status : HttpApi → Bool × Bool
h_auth_status api =
    let has_creds = is_some api.basic_auth || store_has_credentials api in
    (has_creds, not has_creds)

-- The reply with new tokens, of a program that has a token store.
unfoldable pub reply_tokens : Moment → TokenStore → HttpApi → Response × HttpApi
reply_tokens m ts api =
    let (tokens, ts') = create_tokens m.access_token m.refresh_token m.later ts in
    (record { status = 200; tokens = some tokens }, record api { token_store = some ts' })

unfoldable pub store_new_user :
    Moment → StoredCredentials → CredentialStore → HttpApi → Response × HttpApi
store_new_user m creds cs api =
    let (ok, cs') = set_credentials m.saved creds cs in
    let api' = record api { credential_store = some cs' } in
    if ok
    then elim api.token_store [ some ts ↦ reply_tokens m ts api' | none ↦ (plain 200, api') ]
    else (plain 500, api')

unfoldable pub h_auth_setup : Moment → Text → Text → HttpApi → Response × HttpApi
h_auth_setup m username password api = elim api.credential_store [
  | none ↦ (plain 404, api)
  | some cs ↦
      if has_credentials cs || is_some api.basic_auth
      then (plain 403, api)
      else (if length username == 0 || length password == 0
          then (plain 400, api)
          else store_new_user m (record { username = username; password = password }) cs api)
]

abbrev unwrap_or {ℓ} : {A : Type ℓ} → Option A → A → A
unwrap_or none a = a
unwrap_or (some b) a = b

-- The stored credentials, or those of the environment.
unfoldable pub current_creds : CredentialStore → HttpApi → Option StoredCredentials
current_creds cs api = elim cs.credentials [ some c ↦ some c | none ↦ api.basic_auth ]

unfoldable pub change_from :
    Moment
    → Option Text
    → Option Text
    → CredentialStore
    → StoredCredentials
    → HttpApi
    → Response × HttpApi
change_from m new_username new_password cs current api =
    let creds : StoredCredentials = record {
      username = unwrap_or new_username current.username;
      password = unwrap_or new_password current.password;
    } in
    let (ok, cs') = set_credentials m.saved creds cs in
    (plain (if ok then 200 else 500), record api { credential_store = some cs' })

unfoldable pub h_auth_change_credentials :
    Moment → Text → Option Text → Option Text → HttpApi → Response × HttpApi
h_auth_change_credentials m current_password new_username new_password api =
    elim api.credential_store [
      | none ↦ (plain 404, api)
      | some cs ↦ elim (current_creds cs api) [
        | none ↦ (plain 404, api)
        | some current ↦
            if constant_time_eq current_password current.password
            then change_from m new_username new_password cs current api
            else (plain 401, api)
      ]
    ]

-- Whether the environment's credentials are these.
abbrev pub env_matches : HttpApi → Text → Text → Bool
env_matches api username password = elim api.basic_auth [
  | none ↦ false
  | some creds ↦ matches username password creds
]

-- Whether a login is valid; `none` if no kind of authentication is configured.
unfoldable pub login_valid : HttpApi → Text → Text → Option Bool
login_valid api username password = elim api.credential_store [
  | some cs ↦ some (
      if has_credentials cs
      then validate cs username password
      else env_matches api username password)
  | none ↦ elim api.basic_auth [ some creds ↦ some (matches username password creds) | none ↦ none ]
]

unfoldable pub h_auth_login : Moment → Text → Text → HttpApi → Response × HttpApi
h_auth_login m username password api = elim (login_valid api username password) [
  | none ↦ (plain 404, api)
  | some false ↦ (plain 401, api)
  | some true ↦ elim api.token_store [
    | none ↦ (plain 404, api)
    | some ts ↦ reply_tokens m (cleanup_expired m.now ts) api
  ]
]

unfoldable pub reply_refresh : Option TokenResponse → Response
reply_refresh (some tokens) = record { status = 200; tokens = some tokens }
reply_refresh none = plain 401

unfoldable pub h_auth_refresh : Moment → Token → HttpApi → Response × HttpApi
h_auth_refresh m token api = elim api.token_store [
  | none ↦ (plain 404, api)
  | some ts ↦
      let (tokens, ts') = refresh token m.access_token m.refresh_token m.now m.later ts in
      (reply_refresh tokens, record api { token_store = some ts' })
]

unfoldable pub h_auth_logout : Token → HttpApi → Response × HttpApi
h_auth_logout token api = elim api.token_store [
  | none ↦ (plain 204, api)
  | some ts ↦ (plain 204, record api { token_store = some (revoke_refresh_token token ts) })
]

-- The path of a request to a route of the main router, which has its routes before the check is laid
-- over it: one of the four public ones, or another. `Qbit` has the routers that come after.
pub data Endpoint : Type 0 where
  public_path : Endpoint
  other_path : Endpoint

-- The `Authorization` header: a bearer token, a decoded Basic text (split at the colon if it has
-- one), or neither.
pub data Authorization : Type 0 where
  bearer : Token → Authorization
  basic : Option (Text × Text) → Authorization
  neither : Authorization

-- What becomes of a request: it is passed on, refused with a challenge, or refused; `forbidden` is
-- what the routes of /api/v2 answer.
pub data Verdict : Type 0 where
  passed : Verdict
  challenged : Verdict
  unauthorized : Verdict
  forbidden : Verdict

unfoldable pub check_basic : HttpApi → Option (Text × Text) → Verdict
check_basic api none = unauthorized
check_basic api (some (username, password)) = elim api.credential_store [
  | none ↦ if env_matches api username password then passed else unauthorized
  | some cs ↦
      if has_credentials cs && validate cs username password || env_matches api username password
      then passed
      else unauthorized
]

unfoldable pub check_header : ℕ → HttpApi → Authorization → Verdict
check_header now api neither = challenged
check_header now api (basic user_pass) = check_basic api user_pass
check_header now api (bearer token) = elim api.token_store [
  | none ↦ challenged
  | some ts ↦ if validate_access_token ts token now then passed else unauthorized
]

unfoldable pub authorize : ℕ → HttpApi → Endpoint → Authorization → Verdict
authorize now api public_path header = passed
authorize now api other_path header =
    if not (store_has_credentials api) && not (is_some api.basic_auth)
    then passed
    else check_header now api header
