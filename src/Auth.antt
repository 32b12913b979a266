-- ===== src/Auth.antt =====
-- internal/auth/jwt.go: access tokens. Signing and parsing are golang-jwt's: the record `Jwt` holds
-- what the service calls of it, and `IsSound` what that library documents.
pub mod Tokens
pub mod Keys
pub mod Tests
use air_fi.Base.{
  ℕ, ◌≡◌, String, Bool, true, false, not, Option, none, some, Result, ok, err, ◌>>=◌, ◌>>◌, fail_if,
  or_fail, if◌then◌else◌,
}
use air_fi.Base.Int.{ℤ, pos, ◌+ℤ◌, ◌-ℤ◌, ◌≤ℤ◌, ◌<ℤ◌, ltb_ℤ, leb_ℤ}

pub record Claims : Type 0 where
  pub session_id : String
  pub channel_id : String
  pub mac_address : String
  pub ip_address : String
  pub issuer : String
  pub subject : String
  pub issued_at : ℤ
  pub expires_at : ℤ
  pub not_before : ℤ

pub record Jwt : Type 0 where
  -- `jwt.NewNumericDate`: the instant at the precision of a token.
  pub numeric_date : ℤ → ℤ
  -- `token.SignedString(privateKey)`
  pub signed_string : Claims → Option String
  -- The header's signing method is of the ECDSA family; the claims that the token carries.
  pub decode : String → Option (Bool × Claims)
  -- The signature is good under the public key.
  pub verified : String → Bool

-- Documented: a date is not rounded up; a signed token decodes to its claims and verifies.
pub record IsSound (j : Jwt) : Type 0 where
  pub rounds_down : (t : ℤ) → j.numeric_date t ≤ℤ t
  pub decodes : (c : Claims) (s : String) → j.signed_string c ≡ some s → j.decode s ≡ some (true, c)
  pub verifies : (c : Claims) (s : String) → j.signed_string c ≡ some s → j.verified s ≡ true

pub record JwtService : Type 0 where
  pub jwt : Jwt
  pub issuer : String

pub data TokenError : Type 0 where
  sign_failed malformed unexpected_method bad_signature expired not_valid_yet : TokenError

unfoldable pub claims_for : JwtService → ℤ → String → String → String → String → ℤ → Claims
claims_for s now session_id channel_id mac ip duration = record {
  session_id = session_id;
  channel_id = channel_id;
  mac_address = mac;
  ip_address = ip;
  issuer = s.issuer;
  subject = session_id;
  issued_at = s.jwt.numeric_date now;
  expires_at = s.jwt.numeric_date (now +ℤ duration);
  not_before = s.jwt.numeric_date now;
}

pub generate_token :
    JwtService → ℤ → String → String → String → String → ℤ → Result TokenError String
unfolding claims_for
generate_token s now session_id channel_id mac ip duration =
    or_fail (s.jwt.signed_string (claims_for s now session_id channel_id mac ip duration))
      sign_failed

-- `ParseWithClaims` at the time `now`: the service's key function refuses another family of
-- methods, and the library then checks the signature and the dates.
unfoldable pub validate_token : JwtService → ℤ → String → Result TokenError Claims
validate_token s now token = do
  decoded ← or_fail (s.jwt.decode token) malformed
  fail_if (not decoded.0) unexpected_method
  fail_if (not (s.jwt.verified token)) bad_signature
  fail_if (not (ltb_ℤ now decoded.1.expires_at)) expired
  fail_if (ltb_ℤ now decoded.1.not_before) not_valid_yet
  ok decoded.1

unfoldable pub refresh_token : JwtService → ℤ → String → ℤ → Result TokenError String
unfolding validate_token generate_token
refresh_token s now token additional = do
  c ← validate_token s now token
  generate_token s now c.session_id c.channel_id c.mac_address c.ip_address
      (c.expires_at +ℤ additional -ℤ now)

unfoldable pub is_expired : JwtService → ℤ → String → Bool
unfolding validate_token
is_expired s now token = elim (validate_token s now token) [
  | err e ↦ true
  | ok c ↦ ltb_ℤ c.expires_at now
]

unfoldable pub get_remaining_time : JwtService → ℤ → String → Result TokenError ℤ
unfolding validate_token
get_remaining_time s now token = do
  c ← validate_token s now token
  let remaining = c.expires_at -ℤ now
  ok (if ltb_ℤ remaining (pos 0) then pos 0 else remaining)
