-- ===== src/Auth/Admission.antt =====
-- The check of src/http_api/mod.rs on the main router: whom it lets in.
use librtbit.Base.{
  ℕ, ◌≡◌, ◌↔◌, ◌⊎◌, refl, sym, ◌∙◌, Bool, true, false, ◌&&◌, ◌||◌, none, some, arith, if◌then◌else◌,
  inl, inr, Bool-cases, Option-cases, subst,
}
use librtbit.Auth.Tokens.{
  Text, TokenStore, validate_access_token, StoredCredentials, CredentialStore, has_credentials,
  matches, validate,
}
use librtbit.Auth.Secrets.{constant_time_eq-exact}
use librtbit.Auth.Gate.{
  HttpApi, store_has_credentials, is_some, env_matches, other_path, Authorization, bearer, basic,
  neither, passed, unauthorized, check_basic, check_header, authorize,
}

-- The name and the password are these.
abbrev pub Are : Text → Text → StoredCredentials → Type 0
Are username password creds = (username ≡ creds.username) × (password ≡ creds.password)

-- They are the stored ones.
abbrev AreStored : Text → Text → HttpApi → Type 0
AreStored username password api =
    (cs : CredentialStore) × (creds : StoredCredentials) × (api.credential_store ≡ some cs)
    × (cs.credentials ≡ some creds)
    × Are username password creds

-- They are those of the environment.
abbrev pub AreEnv : Text → Text → HttpApi → Type 0
AreEnv username password api =
    (creds : StoredCredentials) × (api.basic_auth ≡ some creds) × Are username password creds

-- The header proves who sends the request.
abbrev pub Proves : ℕ → HttpApi → Authorization → Type 0
Proves now api neither = ⊥
Proves now api (basic none) = ⊥
Proves now api (basic (some (username, password))) =
    AreStored username password api ⊎ AreEnv username password api
Proves now api (bearer token) =
    (s : TokenStore) × (api.token_store ≡ some s) × (validate_access_token s token now ≡ true)

matches-exact :
    (username password : Text) (creds : StoredCredentials)
    → (matches username password creds ≡ true) ↔ Are username password creds
unfolding matches
matches-exact username password creds =
    let names = constant_time_eq-exact username creds.username in
    let words = constant_time_eq-exact password creds.password in
    (
      (λ e. (names.0 (ground arith), words.0 (ground arith))),
      λ (n, w). ground (arith, names.1 n, words.1 w),
    )

env_matches-exact :
    (api : HttpApi) (username password : Text)
    → (env_matches api username password ≡ true) ↔ AreEnv username password api
env_matches-exact api username password = elim (Option-cases api.basic_auth) [
  | inl missing ↦ rw missing ((λ e. absurd (cc)), λ (creds, e, same). absurd (cc))
  | inr (creds, there) ↦
      let known = matches-exact username password creds in
      rw there (
        (λ e. (creds, refl, known.0 e)),
        λ (creds', e, same).
            let one : creds' ≡ creds = cc in known.1 (subst (Are username password) one same),
      )
]

stored_matches : HttpApi → Text → Text → Bool
stored_matches api username password = elim api.credential_store [
  | none ↦ false
  | some cs ↦ has_credentials cs && validate cs username password
]

stored_matches-exact :
    (api : HttpApi) (username password : Text)
    → (stored_matches api username password ≡ true) ↔ AreStored username password api
unfolding stored_matches has_credentials validate
stored_matches-exact api username password = elim (Option-cases api.credential_store) [
  | inl missing ↦
      ((λ e. absurd (ground (arith, missing))), λ (cs, creds, e, full, same). absurd (cc))
  | inr (cs, there) ↦ elim (Option-cases cs.credentials) [
    | inl empty ↦ (
      (λ e. absurd (ground (arith, there, empty))),
      λ (cs', creds, e, full, same). let one : cs' ≡ cs = cc in absurd (cc),
    )
    | inr (creds, full) ↦
        let known = matches-exact username password creds in
        (
          (λ e. (cs, creds, there, full, known.0 (ground (arith, there, full)))),
          λ (cs', creds', e, full', same).
              let one : cs' ≡ cs = cc in
              let one' : creds' ≡ creds = cc in
              let found = known.1 (subst (Are username password) one' same) in
              ground (arith, there, full, found),
        )
  ]
]

check_basic-exact :
    (api : HttpApi) (username password : Text)
    → check_basic api (some (username, password)) ≡ (
        if stored_matches api username password || env_matches api username password
        then passed
        else unauthorized)
unfolding check_basic stored_matches
check_basic-exact api username password = elim (Option-cases api.credential_store) [
  | inl missing ↦ rw (check_basic, missing) refl
  | inr (cs, there) ↦ rw (check_basic, there) refl
]

admits-exact :
    (now : ℕ) (api : HttpApi) (header : Authorization)
    → (check_header now api header ≡ passed) ↔ Proves now api header
unfolding check_header check_basic
admits-exact now api neither = ((λ e. absurd (cc)), λ no. absurd no)
admits-exact now api (basic none) = ((λ e. absurd (cc)), λ no. absurd no)
admits-exact now api (basic (some (username, password))) =
    let stored = stored_matches-exact api username password in
    let env = env_matches-exact api username password in
    let made = check_basic-exact api username password in
    (
      (λ e. elim (Bool-cases (stored_matches api username password)) [
        | inl known ↦ inl (stored.0 known)
        | inr unknown ↦ inr (env.0 (ground (arith, made, e, unknown)))
      ]),
      λ proof. elim proof [
        | inl same ↦ let known = stored.1 same in made ∙ ground (arith, known)
        | inr same ↦ let known = env.1 same in made ∙ ground (arith, known)
      ],
    )
admits-exact now api (bearer token) = elim (Option-cases api.token_store) [
  | inl missing ↦ ((λ e. absurd (ground (arith, missing, e))), λ (s, there, valid). absurd (cc))
  | inr (s, there) ↦ (
    (λ e. (s, there, ground (arith, there, e))),
    λ (s', there', valid).
        let one : s' ≡ s = cc in
        ground (arith, there, subst (λ x. validate_access_token x token now ≡ true) one valid),
  )
]

-- Where credentials are stored or in the environment, a request for a path of the
-- main router that is not public is passed on exactly if it has an access token that is valid now, or a name and a password that are,
-- byte by byte, the stored ones or those of the environment.
pub authorize-exact :
    (now : ℕ) (api : HttpApi) (header : Authorization)
    → (store_has_credentials api || is_some api.basic_auth) ≡ true
    → (authorize now api other_path header ≡ passed) ↔ Proves now api header
unfolding authorize
authorize-exact now api header guarded =
    let checked : authorize now api other_path header ≡ check_header now api header =
      ground (arith, guarded) in
    let admits = admits-exact now api header in
    ((λ e. admits.0 (sym checked ∙ e)), λ proof. checked ∙ admits.1 proof)
