-- ===== src/Auth/Tokens.antt =====
-- What a token that the service has signed is worth, and until when.
use air_fi.Base.{
  ◌≡◌, refl, ◌⊎◌, inl, inr, String, false, some, Result, ok, err, arith, Result-cases, ap,
  if◌then◌else◌,
}
use air_fi.Base.Int.{ℤ, pos, ◌+ℤ◌, ◌-ℤ◌, ◌≤ℤ◌, ◌<ℤ◌, add_sub_self, -ℤ_parts, ltb_ℤ}
use air_fi.Auth.{
  Claims, IsSound, JwtService, TokenError, expired, claims_for, generate_token, validate_token,
  refresh_token, is_expired, get_remaining_time,
}

signed_from :
    (s : JwtService) (now : ℤ) (session_id channel_id mac ip : String) (duration : ℤ)
    (token : String)
    → generate_token s now session_id channel_id mac ip duration ≡ ok token
    → s.jwt.signed_string (claims_for s now session_id channel_id mac ip duration) ≡ some token
unfolding generate_token
signed_from s now session_id channel_id mac ip duration token e = ground arith

module _ (s : JwtService) (sound : IsSound s.jwt) where
  validate_signed :
      (c : Claims) (token : String) (later : ℤ)
      → s.jwt.signed_string c ≡ some token
      → c.not_before ≤ℤ later
      → ((later <ℤ c.expires_at) × (validate_token s later token ≡ ok c))
        ⊎ ((c.expires_at ≤ℤ later) × (validate_token s later token ≡ err expired))
  unfolding validate_token
  validate_signed c token later e h =
      ground (arith, sound.decodes c token e, sound.verifies c token e)

  -- A token that the service signs is accepted, with exactly the claims that were put in, from
  -- then on until its expiry date, and is refused as expired from that date on.
  pub validate_token-generate_token :
      (now later : ℤ) (session_id channel_id mac ip : String) (duration : ℤ) (token : String)
      → generate_token s now session_id channel_id mac ip duration ≡ ok token
      → now ≤ℤ later
      → let c = claims_for s now session_id channel_id mac ip duration in
        ((later <ℤ c.expires_at) × (validate_token s later token ≡ ok c))
        ⊎ ((c.expires_at ≤ℤ later) × (validate_token s later token ≡ err expired))
  unfolding claims_for
  validate_token-generate_token now later session_id channel_id mac ip duration token e h =
      validate_signed (claims_for s now session_id channel_id mac ip duration) token later
        (signed_from s now session_id channel_id mac ip duration token e)
        (omega (arith, sound.rounds_down now))

  -- No token outlives the duration that it was signed for.
  pub token_lifetime :
      (now later : ℤ) (session_id channel_id mac ip : String) (duration : ℤ) (token : String)
      (c : Claims)
      → generate_token s now session_id channel_id mac ip duration ≡ ok token
      → validate_token s later token ≡ ok c
      → now ≤ℤ later
      → later <ℤ now +ℤ duration
  unfolding claims_for
  token_lifetime now later session_id channel_id mac ip duration token c e v h =
      elim (validate_token-generate_token now later session_id channel_id mac ip duration token e
        h) [
          | inl (before, _) ↦ omega (arith, sound.rounds_down (now +ℤ duration))
          | inr (_, refused) ↦ cc (v, refused)
        ]

  refreshed :
      (now additional : ℤ) (token : String) (c : Claims) (renewed : String)
      → validate_token s now token ≡ ok c
      → refresh_token s now token additional ≡ ok renewed
      → generate_token s now c.session_id c.channel_id c.mac_address c.ip_address
          (c.expires_at +ℤ additional -ℤ now)
        ≡ ok renewed
  unfolding refresh_token
  refreshed now additional token c renewed v e = rw (v, refresh_token) at e

  late_absurd : (later x y : ℤ) → x ≡ y → later <ℤ y → ¬ (x ≤ℤ later)
  late_absurd later x y e h = rw e (omega arith)

  -- Refreshing a token gives one for the same session, channel and device; where it can be signed
  -- it is accepted until the old expiry plus the added time, at the precision of a token's date.
  pub refresh_token_extends :
      (now later additional : ℤ) (token : String) (c : Claims) (renewed : String)
      → validate_token s now token ≡ ok c
      → refresh_token s now token additional ≡ ok renewed
      → now ≤ℤ later
      → later <ℤ s.jwt.numeric_date (c.expires_at +ℤ additional)
      → (c' : Claims) × (validate_token s later renewed ≡ ok c')
        × (c'.session_id ≡ c.session_id)
        × (c'.channel_id ≡ c.channel_id)
        × (c'.mac_address ≡ c.mac_address)
        × (c'.ip_address ≡ c.ip_address)
        × (c'.expires_at ≡ s.jwt.numeric_date (c.expires_at +ℤ additional))
  unfolding claims_for
  refresh_token_extends now later additional token c renewed v e h before =
      let until = c.expires_at +ℤ additional in
      let exact : now +ℤ (until -ℤ now) ≡ until = add_sub_self now until in
      let c' : Claims =
        claims_for s now c.session_id c.channel_id c.mac_address c.ip_address (until -ℤ now) in
      let ends : c'.expires_at ≡ s.jwt.numeric_date until = ap s.jwt.numeric_date exact in
      elim (validate_token-generate_token now later c.session_id c.channel_id c.mac_address
        c.ip_address (until -ℤ now) renewed (refreshed now additional token c renewed v e) h) [
          | inl (_, accepted) ↦ (c', accepted, refl, refl, refl, refl, ends)
          | inr (late, _) ↦ absurd (late_absurd later c'.expires_at _ ends before late)
        ]

err_ne : {x : TokenError} (r : ℤ) → ¬ (◌≡◌ {A = Result TokenError ℤ} (err x) (ok r))
err_ne r e = cc

ok_eq : {a b : ℤ} → ◌≡◌ {A = Result TokenError ℤ} (ok a) (ok b) → a ≡ b
ok_eq e = cc

validate_token_dates :
    (s : JwtService) (now : ℤ) (token : String) (c : Claims)
    → validate_token s now token ≡ ok c
    → (now <ℤ c.expires_at) × (c.not_before ≤ℤ now)
unfolding validate_token
validate_token_dates s now token c e = ground arith

remaining_positive :
    (x now r : ℤ)
    → now <ℤ x
    → (if ltb_ℤ (x -ℤ now) (pos 0) then pos 0 else x -ℤ now) ≡ r
    → (pos 0 <ℤ r) × (r ≡ x -ℤ now)
remaining_positive x now r h e = ground (arith, -ℤ_parts x now)

-- The time left is reported for a valid token only, and is then exactly the time to its expiry,
-- which is positive; such a token does not count as expired.
pub get_remaining_time_exact :
    (s : JwtService) (now : ℤ) (token : String) (r : ℤ)
    → get_remaining_time s now token ≡ ok r
    → (c : Claims) × (validate_token s now token ≡ ok c)
      × (r ≡ c.expires_at -ℤ now)
      × (pos 0 <ℤ r)
      × (is_expired s now token ≡ false)
unfolding get_remaining_time is_expired
get_remaining_time_exact s now token r e = elim (Result-cases (validate_token s now token)) [
  | inl (x, v) ↦ absurd (err_ne r (rw (v, get_remaining_time) at e))
  | inr (c, v) ↦
      let dates = validate_token_dates s now token c v in
      let left =
        remaining_positive c.expires_at now r dates.0 (ok_eq (rw (v, get_remaining_time) at e)) in
      (c, v, left.1, left.0, rw (v, is_expired) (ground arith))
]
