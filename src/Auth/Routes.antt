-- ===== src/Auth/Routes.antt =====
-- Whom the routers of src/http_api/mod.rs let in, those of
-- src/http_api/handlers/qbit_compat.rs included, given the logins to /api/v2 so far.
use librtbit.Base.{
  ℕ, ◌+◌, ◌*◌, ◌<◌, ◌≡◌, ◌↔◌, ◌⊎◌, refl, ap₂, inl, inr, true, ◌||◌, Option, none, some, List, [],
  ◌∷◌, arith, ◌==◌, if◌then◌else◌, Option-cases, Bool-cases, subst, ◌∙◌, ==→eq,
}
use librtbit.Base.Assoc.{lookup, IsMap, lookup-insert, insert-IsMap, lookup-remove, remove-IsMap}
use librtbit.Auth.Tokens.{Text, Token, second, StoredCredentials}
use librtbit.Auth.Gate.{
  HttpApi, store_has_credentials, is_some, public_path, other_path, Authorization, passed,
  authorize,
}
use librtbit.Auth.Admission.{Proves, Are, AreEnv, authorize-exact}
use librtbit.Auth.Qbit.{
  QbitSessions, create_session, is_recent, validate_session, remove_session, text_eq, auth_ok,
  h_auth_login, h_auth_logout, check_sid, check_session, Route, main_route, qbit_auth_route,
  qbit_route, upnp_route, admit,
}

-- What has happened to sessions: a login with the right credentials that was given a session at a
-- time, and a logout.
pub data Event : Type 0 where
  logged_in : Token → ℕ → Event
  logged_out : Token → Event

-- By the log, its latest event first: when the last such login was given the session, if no logout
-- came after it.
abbrev pub since : List Event → Token → Option ℕ
since [] sid = none
since (logged_in other at ∷ log) sid = if other == sid then some at else since log sid
since (logged_out other ∷ log) sid = if other == sid then none else since log sid

abbrev note_logout : Option Token → List Event → List Event
note_logout none log = log
note_logout (some sid) log = logged_out sid ∷ log

-- The name and the password may log in to /api/v2: they are those of the environment, or it has none.
abbrev IsEntitled : HttpApi → Text → Text → Type 0
IsEntitled api username password = (api.basic_auth ≡ none) ⊎ AreEnv username password api

-- The sessions after requests to /api/v2/auth, and the log of these. What else the program has for
-- authentication may change meanwhile; the environment's credentials do not.
pub data Run (env : Option StoredCredentials) : QbitSessions → List Event → Type 0 where
  begins : Run env (record { sessions = [] }) []
  login :
      {s : QbitSessions} {log : List Event}
      → Run env s log
      → (api : HttpApi) → api.basic_auth ≡ env
      → (sid now : ℕ) (username password : Text) → IsEntitled api username password
      → Run env (h_auth_login sid now username password api s).1 (logged_in sid now ∷ log)
  wrong_login :
      {s : QbitSessions} {log : List Event}
      → Run env s log
      → (api : HttpApi) → api.basic_auth ≡ env
      → (sid now : ℕ) (username password : Text) → ¬ IsEntitled api username password
      → Run env (h_auth_login sid now username password api s).1 log
  logout :
      {s : QbitSessions} {log : List Event}
      → Run env s log
      → (sid : Option Token) → Run env (h_auth_logout sid s) (note_logout sid log)

-- The sessions are what the log says.
abbrev Agree : QbitSessions → List Event → Type 0
Agree s log = IsMap s.sessions × ((sid : ℕ) → lookup sid s.sessions ≡ since log sid)

create_session-Agree :
    (s : QbitSessions) (log : List Event) (sid now : ℕ)
    → Agree s log
    → Agree (create_session sid now s) (logged_in sid now ∷ log)
unfolding create_session
create_session-Agree s log sid now (u, same) = (
  insert-IsMap sid now s.sessions u,
  λ other. lookup-insert sid other now s.sessions ∙ rw (same other) refl,
)

remove_session-Agree :
    (s : QbitSessions) (log : List Event) (sid : ℕ)
    → Agree s log
    → Agree (remove_session sid s) (logged_out sid ∷ log)
unfolding remove_session
remove_session-Agree s log sid (u, same) = (
  remove-IsMap sid s.sessions u,
  λ other. lookup-remove sid other s.sessions u ∙ rw (same other) refl,
)

text_eq-exact : (a b : Text) → (text_eq a b ≡ true) ↔ (a ≡ b)
unfolding text_eq
text_eq-exact a b = (sound a b, λ e. subst (λ x. text_eq a x ≡ true) e (same a))
  where
    sound : (a b : Text) → text_eq a b ≡ true → a ≡ b
    sound [] [] e = refl
    sound [] (y ∷ b) e = absurd (cc)
    sound (x ∷ a) [] e = absurd (cc)
    sound (x ∷ a) (y ∷ b) e =
        ap₂ (λ c cs. c ∷ cs) (==→eq x y (ground arith)) (sound a b (ground arith))

    same : (a : Text) → text_eq a a ≡ true
    same [] = refl
    same (x ∷ a) = ground (arith, same a)

auth_ok-exact :
    (api : HttpApi) (username password : Text)
    → (auth_ok api username password ≡ true) ↔ IsEntitled api username password
unfolding auth_ok
auth_ok-exact api username password = elim (Option-cases api.basic_auth) [
  | inl missing ↦ ((λ e. inl missing), λ x. ground (arith, missing))
  | inr (creds, there) ↦
      let names = text_eq-exact username creds.username in
      let words = text_eq-exact password creds.password in
      (
        (λ e. inr (
          creds,
          there,
          (names.0 (ground (arith, there, e)), words.0 (ground (arith, there, e))),
        )),
        λ x. elim x [
          | inl missing ↦ absurd (cc)
          | inr (creds', there', same) ↦
              let one : creds' ≡ creds = cc in
              let (n, w) = subst (Are username password) one same in
              let n' = names.1 n in let w' = words.1 w in ground (arith, there, n', w')
        ],
      )
]

Run-Agree :
    {env : Option StoredCredentials} {s : QbitSessions} {log : List Event}
    → Run env s log
    → Agree s log
unfolding h_auth_login h_auth_logout lookup
Run-Agree begins = (tt, λ sid. refl)
Run-Agree (login {s} {log} run api same sid now username password right) =
    let ok = (auth_ok-exact api username password).1 right in
    rw (h_auth_login, ok) (create_session-Agree s log sid now (Run-Agree run))
Run-Agree (wrong_login {s} {log} run api same sid now username password wrong) =
    elim (Bool-cases (auth_ok api username password)) [
      | inl ok ↦ absurd (wrong ((auth_ok-exact api username password).0 ok))
      | inr refused ↦ rw (h_auth_login, refused) (Run-Agree run)
    ]
Run-Agree (logout run none) = Run-Agree run
Run-Agree (logout {s} {log} run (some sid)) = remove_session-Agree s log sid (Run-Agree run)

-- The cookie has the number of a session whose login was less than an hour ago, with no logout
-- since.
abbrev HasSession : ℕ → List Event → Option Token → Type 0
HasSession now log none = ⊥
HasSession now log (some sid) = (at : ℕ) × (since log sid ≡ some at) × (now < at + 3600 * second)

-- Who is let in to a route.
abbrev pub MayPass : ℕ → HttpApi → List Event → Route → Authorization → Option Token → Type 0
MayPass now api log (main_route public_path) header sid = Unit
MayPass now api log (main_route other_path) header sid = Proves now api header
MayPass now api log qbit_auth_route header sid = Unit
MayPass now api log qbit_route header sid = (api.basic_auth ≡ none) ⊎ HasSession now log sid
MayPass now api log upnp_route header sid = Unit

is_recent-exact :
    (now : ℕ) (entry : Option ℕ)
    → (is_recent entry now ≡ true) ↔ ((at : ℕ) × (entry ≡ some at) × (now < at + 3600 * second))
is_recent-exact now none = ((λ e. absurd (cc)), λ x. absurd (cc))
is_recent-exact now (some at) = (
  (λ e. (at, refl, ground arith)),
  λ (at', e, recent). let same : at ≡ at' = cc in ground (arith, same),
)

check_sid-exact :
    (now : ℕ) (s : QbitSessions) (log : List Event) (sid : Option Token)
    → Agree s log
    → (check_sid now s sid ≡ passed) ↔ HasSession now log sid
unfolding check_sid validate_session
check_sid-exact now s log none agree = ((λ e. absurd (cc)), λ x. absurd x)
check_sid-exact now s log (some sid) agree =
    let recent = is_recent-exact now (since log sid) in
    rw (check_sid, agree.1 sid)
      ((λ e. recent.0 (ground arith)), λ x. let known = recent.1 x in ground (arith, known))

check_session-exact :
    (now : ℕ) (api : HttpApi) (s : QbitSessions) (log : List Event) (sid : Option Token)
    → Agree s log
    → (check_session now api s sid ≡ passed) ↔ ((api.basic_auth ≡ none) ⊎ HasSession now log sid)
unfolding check_session
check_session-exact now api s log sid agree =
    let held = check_sid-exact now s log sid agree in
    elim (Option-cases api.basic_auth) [
      | inl missing ↦ ((λ e. inl missing), λ x. ground (arith, missing))
      | inr (creds, there) ↦ (
        (λ e. inr (held.0 (ground (arith, there, e)))),
        λ x. elim x [
          | inl missing ↦ absurd (cc)
          | inr session ↦ let known = held.1 session in ground (arith, there, known)
        ],
      )
    ]

-- Where credentials are stored or in the environment, and after logins to and logouts from /api/v2:
-- a request for a route of the main router that is not public is passed on exactly if it has an
-- access token that is valid now, or a name and a password that are, byte by byte, the stored ones
-- or those of the environment. A request for a protected route of /api/v2 is passed on exactly if
-- the environment has no credentials, even where some are stored, or if the cookie has a session
-- that was given, less than an hour ago and with no logout since, to a login with the environment's
-- credentials. The four public routes, the login and the logout of /api/v2, and /upnp let every
-- request in.
pub admit-exact :
    (now : ℕ) (api : HttpApi) (s : QbitSessions) (log : List Event) (route : Route)
    (header : Authorization) (sid : Option Token)
    → (store_has_credentials api || is_some api.basic_auth) ≡ true
    → Run api.basic_auth s log
    → (admit now api s route header sid ≡ passed) ↔ MayPass now api log route header sid
unfolding admit authorize
admit-exact now api s log (main_route public_path) header sid guarded run = ((λ e. tt), λ x. refl)
admit-exact now api s log (main_route other_path) header sid guarded run =
    authorize-exact now api header guarded
admit-exact now api s log qbit_auth_route header sid guarded run = ((λ e. tt), λ x. refl)
admit-exact now api s log qbit_route header sid guarded run =
    check_session-exact now api s log sid (Run-Agree run)
admit-exact now api s log upnp_route header sid guarded run = ((λ e. tt), λ x. refl)
