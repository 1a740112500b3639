-- ===== src/Auth/Tokens.antt =====
-- `TokenStore` and `CredentialStore` of src/http_api/auth.rs.
use Prim.Native.Nat.{bit_or, bit_xor}
use librtbit.Base.{
  ℕ, ◌+◌, ◌*◌, ◌/◌, Bool, true, false, not, ◌&&◌, Option, none, some, List, [], ◌∷◌, ltb, ◌==◌,
  if◌then◌else◌, length,
}
use librtbit.Base.Assoc.{lookup, insert, remove}

abbrev pub Text : Type 0
Text = List ℕ

abbrev pub Token : Type 0
Token = ℕ

abbrev pub second : ℕ
second = 1000000000

abbrev pub access_token_ttl : ℕ
access_token_ttl = 15 * 60 * second

abbrev pub refresh_token_ttl : ℕ
refresh_token_ttl = 30 * 24 * 60 * 60 * second

pub record TokenEntry : Type 0 where
  pub expires_at : ℕ

pub record TokenStore : Type 0 where
  pub access_tokens : List (Token × TokenEntry)
  pub refresh_tokens : List (Token × TokenEntry)

-- `token_type` is left out: it is always "Bearer".
pub record TokenResponse : Type 0 where
  pub access_token : Token
  pub refresh_token : Token
  pub expires_in : ℕ

abbrev pub new : TokenStore
new = record { access_tokens = []; refresh_tokens = [] }

-- `access_token` and `refresh_token` are what the two calls of `generate_token` return.
unfoldable pub create_tokens : Token → Token → ℕ → TokenStore → TokenResponse × TokenStore
create_tokens access_token refresh_token now s = (
  record {
    access_token = access_token;
    refresh_token = refresh_token;
    expires_in = access_token_ttl / second;
  },
  record {
    access_tokens =
        insert access_token (record { expires_at = now + access_token_ttl }) s.access_tokens;
    refresh_tokens =
        insert refresh_token (record { expires_at = now + refresh_token_ttl }) s.refresh_tokens;
  },
)

-- `is_some_and(|entry| entry.expires_at > now)`
abbrev pub outlives : Option TokenEntry → ℕ → Bool
outlives none now = false
outlives (some entry) now = ltb now entry.expires_at

unfoldable pub validate_access_token : TokenStore → Token → ℕ → Bool
validate_access_token s token now = outlives (lookup token s.access_tokens) now

-- The two parts of `refresh`, which take the lock one after the other.
unfoldable pub may_refresh : TokenStore → Token → ℕ → Bool
may_refresh s token now = outlives (lookup token s.refresh_tokens) now

unfoldable pub revoke_refresh_token : Token → TokenStore → TokenStore
revoke_refresh_token token s = record s { refresh_tokens = remove token s.refresh_tokens }

unfoldable pub rotate : Token → Token → Token → ℕ → TokenStore → TokenResponse × TokenStore
rotate token access_token refresh_token now s =
    create_tokens access_token refresh_token now (revoke_refresh_token token s)

-- The clock says `checked` at the test, and `now` when the tokens are made.
unfoldable pub refresh :
    Token → Token → Token → ℕ → ℕ → TokenStore → Option TokenResponse × TokenStore
refresh token access_token refresh_token checked now s =
    if may_refresh s token checked
    then (let (tokens, s') = rotate token access_token refresh_token now s in (some tokens, s'))
    else (none, s)

-- `retain(|_, entry| entry.expires_at > now)`
unfoldable pub retain : ℕ → List (Token × TokenEntry) → List (Token × TokenEntry)
retain now [] = []
retain now ((token, entry) ∷ rest) =
    if ltb now entry.expires_at then (token, entry) ∷ retain now rest else retain now rest

unfoldable pub cleanup_expired : ℕ → TokenStore → TokenStore
cleanup_expired now s = record {
  access_tokens = retain now s.access_tokens;
  refresh_tokens = retain now s.refresh_tokens;
}

-- The fold of `constant_time_eq`, from `acc` on.
unfoldable pub difference : ℕ → Text → Text → ℕ
difference acc [] b = acc
difference acc (x ∷ a) [] = acc
difference acc (x ∷ a) (y ∷ b) = difference (bit_or acc (bit_xor x y)) a b

unfoldable pub constant_time_eq : Text → Text → Bool
constant_time_eq a b = if not (length a == length b) then false else difference 0 a b == 0

pub record StoredCredentials : Type 0 where
  pub username : Text
  pub password : Text

-- The file's path is left out: it does not change.
pub record CredentialStore : Type 0 where
  pub credentials : Option StoredCredentials

unfoldable pub has_credentials : CredentialStore → Bool
has_credentials cs = elim cs.credentials [ none ↦ false | some c ↦ true ]

-- `saved`: the file was written, and its permissions were set. The first component is whether the
-- result is `Ok`.
unfoldable pub set_credentials : Bool → StoredCredentials → CredentialStore → Bool × CredentialStore
set_credentials saved creds cs =
    if saved then (true, record { credentials = some creds }) else (false, cs)

-- The test of a name and a password against known ones.
unfoldable pub matches : Text → Text → StoredCredentials → Bool
matches username password creds =
    constant_time_eq username creds.username && constant_time_eq password creds.password

unfoldable pub validate : CredentialStore → Text → Text → Bool
validate cs username password = elim cs.credentials [
  | some creds ↦ matches username password creds
  | none ↦ false
]
