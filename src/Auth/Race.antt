-- ===== src/Auth/Race.antt =====
-- `refresh` of src/http_api/auth.rs takes the lock twice: two requests with one refresh token.
use librtbit.Base.{
  ℕ, ◌+◌, ◌<◌, ◌≡◌, ◌≢◌, refl, sym, ◌∙◌, true, false, ◌&&◌, Option, none, some, arith, ltb, ◌==◌,
  if◌then◌else◌, ==_ne, ==_refl, Returns,
}
use librtbit.Base.Assoc.{remove, lookup-remove, IsMap, remove-IsMap, insert-IsMap}
use librtbit.Auth.Sessions.{outlives-insert}
use librtbit.Auth.Tokens.{
  Token, TokenStore, access_token_ttl, refresh_token_ttl, create_tokens, validate_access_token,
  may_refresh, revoke_refresh_token, rotate, refresh,
}

-- Both requests pass the test before either of them goes on; the pairs are their new tokens.
abbrev pub refresh_interleaved :
    Token → Token × Token → Token × Token → ℕ → ℕ → ℕ → ℕ → TokenStore → Option TokenStore
refresh_interleaved token (a, r) (a', r') checked checked' now now' s =
    if may_refresh s token checked && may_refresh s token checked'
    then some (rotate token a' r' now' (rotate token a r now s).1).1
    else none

validate_access_token-rotate :
    (token a r now k at : ℕ) (s : TokenStore)
    → validate_access_token (rotate token a r now s).1 k at
      ≡ (if a == k then ltb at (now + access_token_ttl) else validate_access_token s k at)
unfolding validate_access_token rotate create_tokens revoke_refresh_token
validate_access_token-rotate token a r now k at s =
    outlives-insert a k at (now + access_token_ttl) s.access_tokens

may_refresh-rotate :
    (token a r now k at : ℕ) (s : TokenStore)
    → IsMap s.refresh_tokens
    → may_refresh (rotate token a r now s).1 k at ≡ (
        if r == k
        then ltb at (now + refresh_token_ttl)
        else (if token == k then false else may_refresh s k at))
unfolding may_refresh rotate create_tokens revoke_refresh_token
may_refresh-rotate token a r now k at s u =
    outlives-insert r k at (now + refresh_token_ttl) (remove token s.refresh_tokens)
    ∙ rw (lookup-remove token k s.refresh_tokens u) (ground arith)

rotate-IsMap :
    (token a r now : ℕ) (s : TokenStore)
    → IsMap s.refresh_tokens
    → IsMap (rotate token a r now s).1.refresh_tokens
unfolding rotate create_tokens revoke_refresh_token
rotate-IsMap token a r now s u =
    insert-IsMap r _ (remove token s.refresh_tokens) (remove-IsMap token s.refresh_tokens u)

refresh_again :
    (token a r a' r' checked now checked' now' : ℕ) (s : TokenStore)
    → IsMap s.refresh_tokens
    → token ≢ r
    → may_refresh s token checked ≡ true
    → (refresh token a' r' checked' now' (refresh token a r checked now s).1).0 ≡ none
unfolding refresh
refresh_again token a r a' r' checked now checked' now' s u fresh valid =
    let other = ==_ne r token (λ e. fresh (sym e)) in
    let used : may_refresh (rotate token a r now s).1 token checked' ≡ false =
      may_refresh-rotate token a r now token checked' s u ∙ ground (arith, other, ==_refl token) in
    rw (refresh, valid, used) refl

-- A refresh token that may be used, and two requests that use it: if the second comes after the
-- first it is refused, but if both test the token before either of them goes on, both get tokens,
-- and all four are valid until the access tokens expire. The store is a map, and the new tokens are
-- other ones than each other and the old one.
pub refresh_interleaved-passes :
    (token a r a' r' checked checked' now now' at : ℕ) (s : TokenStore)
    → IsMap s.refresh_tokens
    → token ≢ r
    → a ≢ a'
    → r ≢ r'
    → may_refresh s token checked ≡ true
    → may_refresh s token checked' ≡ true
    → at < now + access_token_ttl
    → at < now' + access_token_ttl
    → ((refresh token a' r' checked' now' (refresh token a r checked now s).1).0 ≡ none)
      × Returns (refresh_interleaved token (a, r) (a', r') checked checked' now now' s) (λ s'.
        (validate_access_token s' a at ≡ true)
        × (validate_access_token s' a' at ≡ true)
        × (may_refresh s' r at ≡ true)
        × (may_refresh s' r' at ≡ true))
refresh_interleaved-passes token a r a' r' checked checked' now now' at s u old other other' valid
      valid' alive alive' =
    let once = (rotate token a r now s).1 in
    let u' = rotate-IsMap token a r now s u in
    (
      refresh_again token a r a' r' checked now checked' now' s u old valid,
      rw (valid, valid')
          (
            _,
            refl,
            (
              validate_access_token-rotate token a' r' now' a at once
                  ∙ ground (arith, validate_access_token-rotate token a r now a at s, ==_ne a' a),
              validate_access_token-rotate token a' r' now' a' at once ∙ ground arith,
              may_refresh-rotate token a' r' now' r at once u'
                  ∙ ground (arith, may_refresh-rotate token a r now r at s u),
              may_refresh-rotate token a' r' now' r' at once u' ∙ ground arith,
            ),
          ),
    )
