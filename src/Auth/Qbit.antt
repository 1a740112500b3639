-- ===== src/Auth/Qbit.antt =====
-- The sessions and the check of src/http_api/handlers/qbit_compat.rs for /api/v2, and the routers that
-- src/http_api/mod.rs puts together. The session's number that the cookie has, and the name and the
-- password of the form, are taken as parsed.
use librtbit.Base.{
  ℕ, ◌-◌, ◌/◌, Bool, true, false, ◌&&◌, Option, none, some, List, [], ◌∷◌, ltb, ◌==◌, if◌then◌else◌,
}
use librtbit.Base.Assoc.{lookup, insert, remove}
use librtbit.Auth.Tokens.{Text, Token, second}
use librtbit.Auth.Gate.{
  HttpApi, is_some, Endpoint, Authorization, Verdict, passed, forbidden, authorize,
}

-- When each session was created.
pub record QbitSessions : Type 0 where
  pub sessions : List (Token × ℕ)

unfoldable pub create_session : Token → ℕ → QbitSessions → QbitSessions
create_session sid now s = record { sessions = insert sid now s.sessions }

-- `created.elapsed().as_secs() < 3600`
abbrev pub is_recent : Option ℕ → ℕ → Bool
is_recent none now = false
is_recent (some created) now = ltb ((now - created) / second) 3600

unfoldable pub validate_session : QbitSessions → Token → ℕ → Bool
validate_session s sid now = is_recent (lookup sid s.sessions) now

unfoldable pub remove_session : Token → QbitSessions → QbitSessions
remove_session sid s = record { sessions = remove sid s.sessions }

-- `==` of texts
unfoldable pub text_eq : Text → Text → Bool
text_eq [] [] = true
text_eq [] (y ∷ b) = false
text_eq (x ∷ a) [] = false
text_eq (x ∷ a) (y ∷ b) = x == y && text_eq a b

unfoldable pub auth_ok : HttpApi → Text → Text → Bool
auth_ok api username password = elim api.basic_auth [
  | some expected ↦ text_eq username expected.username && text_eq password expected.password
  | none ↦ true
]

-- Whether the login succeeds, and the sessions; `sid` is random.
unfoldable pub h_auth_login : Token → ℕ → Text → Text → HttpApi → QbitSessions → Bool × QbitSessions
h_auth_login sid now username password api s =
    if auth_ok api username password then (true, create_session sid now s) else (false, s)

unfoldable pub h_auth_logout : Option Token → QbitSessions → QbitSessions
h_auth_logout none s = s
h_auth_logout (some sid) s = remove_session sid s

-- The check that is laid over the protected routes.
unfoldable pub check_sid : ℕ → QbitSessions → Option Token → Verdict
check_sid now s none = forbidden
check_sid now s (some sid) = if validate_session s sid now then passed else forbidden

-- It is there if the environment has credentials.
unfoldable pub check_session : ℕ → HttpApi → QbitSessions → Option Token → Verdict
check_session now api s sid = if is_some api.basic_auth then check_sid now s sid else passed

-- The routes of the program: those of the main router; /api/v2/auth and the others of /api/v2; and
-- those of /upnp.
pub data Route : Type 0 where
  main_route : Endpoint → Route
  qbit_auth_route : Route
  qbit_route : Route
  upnp_route : Route

unfoldable pub admit : ℕ → HttpApi → QbitSessions → Route → Authorization → Option Token → Verdict
admit now api s (main_route path) header sid = authorize now api path header
admit now api s qbit_auth_route header sid = passed
admit now api s qbit_route header sid = check_session now api s sid
admit now api s upnp_route header sid = passed
