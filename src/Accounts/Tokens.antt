-- ===== src/Accounts/Tokens.antt =====
-- Refresh tokens: decode_token of app/core/security.py, and refresh and logout of
-- app/services/auth_service.py over the blacklist in Redis.
use store_evix.Common.{
  ℕ, ◌+◌, ◌-◌, Bool, true, false, Option, none, some, List, [], ◌∷◌, String, ltb, leb, str_eq,
  if◌then◌else◌,
}
use store_evix.Common.Session.{Result, ok, err}

pub data TokenType : Type 0 where
  access refresh_token : TokenType

-- What the JWT library reads out of a token whose signature and expiry are good.
pub record RawClaims : Type 0 where
  pub sub : Option ℕ
  pub jti : Option String
  pub kind : Option TokenType
  pub exp : Option ℕ

pub record TokenClaims : Type 0 where
  pub sub : ℕ
  pub jti : String
  pub exp : ℕ

abbrev pub same_kind : TokenType → TokenType → Bool
same_kind access access = true
same_kind access refresh_token = false
same_kind refresh_token access = false
same_kind refresh_token refresh_token = true

abbrev pub is_kind : TokenType → Option TokenType → Bool
is_kind expected none = false
is_kind expected (some k) = same_kind k expected

abbrev pub claims_of : Option ℕ → Option String → Option ℕ → Option TokenClaims
claims_of (some sub) (some jti) (some exp) = some (record { sub = sub; jti = jti; exp = exp })
claims_of _ _ _ = none

abbrev pub checked_claims : TokenType → Option RawClaims → Option TokenClaims
checked_claims expected none = none
checked_claims expected (some raw) =
    if is_kind expected raw.kind then claims_of raw.sub raw.jti raw.exp else none

-- `jwt.decode`, at an instant.
abbrev pub JwtDecode : Type 0
JwtDecode = ℕ → String → Option RawClaims

-- Keys that expire: the newest entry of a key counts, until its instant.
pub record Revocation : Type 0 where
  pub jti : String
  pub until : ℕ

abbrev pub Blacklist : Type 0
Blacklist = List Revocation

abbrev pub until_of : String → Blacklist → Option ℕ
until_of jti [] = none
until_of jti (r ∷ rs) = if str_eq r.jti jti then some r.until else until_of jti rs

abbrev pub alive : ℕ → Option ℕ → Bool
alive now none = false
alive now (some u) = ltb now u

unfoldable pub is_blacklisted : ℕ → String → Blacklist → Bool
is_blacklisted now jti redis = alive now (until_of jti redis)

-- The entry lives for what is left of the token's own life.
unfoldable pub blacklist : ℕ → TokenClaims → Blacklist → Blacklist
blacklist now c redis =
    if leb c.exp now then redis else record { jti = c.jti; until = now + (c.exp - now) } ∷ redis

-- Both are answered with 401.
pub data AuthError : Type 0 where
  invalid_token revoked : AuthError

module _ (jwt : JwtDecode) where
  unfoldable pub decode_token : TokenType → ℕ → String → Option TokenClaims
  decode_token expected now token = checked_claims expected (jwt now token)

  abbrev pub refresh_claims : ℕ → Option TokenClaims → Blacklist → Result AuthError ℕ × Blacklist
  refresh_claims now none redis = (err invalid_token, redis)
  refresh_claims now (some c) redis =
      if is_blacklisted now c.jti redis
      then (err revoked, redis)
      else (ok c.sub, blacklist now c redis)

  -- The answer names the user for whom a new pair is issued.
  unfoldable pub refresh : ℕ → String → Blacklist → Result AuthError ℕ × Blacklist
  unfolding decode_token
  refresh now token redis = refresh_claims now (decode_token refresh_token now token) redis

  abbrev pub logout_claims :
      ℕ → Option TokenClaims → Blacklist → Result AuthError (Unit {0}) × Blacklist
  logout_claims now none redis = (err invalid_token, redis)
  logout_claims now (some c) redis = (ok tt, blacklist now c redis)

  unfoldable pub logout : ℕ → String → Blacklist → Result AuthError (Unit {0}) × Blacklist
  unfolding decode_token
  logout now token redis = logout_claims now (decode_token refresh_token now token) redis
