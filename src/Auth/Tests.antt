-- ===== src/Auth/Tests.antt =====
-- A concrete token library and service of internal/auth, on which the theorems are run.
use air_fi.Base.{
  ◌≡◌, refl, sym, ap, subst, str_eq, eq_iff, ◌&&◌, if◌then◌else◌, Bool-cases, inl, inr, ◌⊎◌, String,
  Bool, true, Option, some, none, ok, err, arith,
}
use air_fi.Base.Int.{ℤ, pos, ◌+ℤ◌, ◌-ℤ◌, ◌<ℤ◌, ◌≤ℤ◌, leb_ℤ, eq_of_parts}
use air_fi.Auth.{
  Claims, Jwt, IsSound, JwtService, expired, claims_for, generate_token, validate_token,
  refresh_token, get_remaining_time,
}
use air_fi.Auth.Tokens.{validate_token-generate_token}

-- The library signs two sets of claims only: one until 100, and one until 130.
abbrev claims_until : ℤ → ℤ → Claims
claims_until at until = record {
  session_id = "s";
  channel_id = "c";
  mac_address = "";
  ip_address = "";
  issuer = "airfi";
  subject = "s";
  issued_at = at;
  expires_at = until;
  not_before = at;
}

abbrev same_ℤ : ℤ → ℤ → Bool
same_ℤ a b = leb_ℤ a b && leb_ℤ b a

same_ℤ_eq : (a b : ℤ) → same_ℤ a b ≡ true → a ≡ b
same_ℤ_eq a b e = eq_of_parts a b (ground arith)

abbrev same_names : Claims → Claims → Bool
same_names d c =
    str_eq c.session_id d.session_id
    && str_eq c.channel_id d.channel_id
    && str_eq c.mac_address d.mac_address
    && str_eq c.ip_address d.ip_address
    && str_eq c.issuer d.issuer
    && str_eq c.subject d.subject

abbrev same_dates : Claims → Claims → Bool
same_dates d c =
    same_ℤ c.issued_at d.issued_at
    && same_ℤ c.expires_at d.expires_at
    && same_ℤ c.not_before d.not_before

abbrev same : Claims → Claims → Bool
same d c = same_names d c && same_dates d c

same_names_eq :
    (d c : Claims)
    → same_names d c ≡ true
    → (c.session_id ≡ d.session_id)
      × (c.channel_id ≡ d.channel_id)
      × (c.mac_address ≡ d.mac_address)
      × (c.ip_address ≡ d.ip_address)
      × (c.issuer ≡ d.issuer)
      × (c.subject ≡ d.subject)
same_names_eq d c e = ground (
  arith,
  eq_iff c.session_id d.session_id,
  eq_iff c.channel_id d.channel_id,
  eq_iff c.mac_address d.mac_address,
  eq_iff c.ip_address d.ip_address,
  eq_iff c.issuer d.issuer,
  eq_iff c.subject d.subject,
)

same_dates_eq :
    (d c : Claims)
    → same_dates d c ≡ true
    → (c.issued_at ≡ d.issued_at) × (c.expires_at ≡ d.expires_at) × (c.not_before ≡ d.not_before)
same_dates_eq d c e = (
  same_ℤ_eq c.issued_at d.issued_at (ground arith),
  same_ℤ_eq c.expires_at d.expires_at (ground arith),
  same_ℤ_eq c.not_before d.not_before (ground arith),
)

same_eq : (d c : Claims) → same d c ≡ true → d ≡ c
same_eq d c e =
    let (n1, n2, n3, n4, n5, n6) = same_names_eq d c (ground arith) in
    let (d1, d2, d3) = same_dates_eq d c (ground arith) in
    sym (λ i. record {
      session_id = n1 i;
      channel_id = n2 i;
      mac_address = n3 i;
      ip_address = n4 i;
      issuer = n5 i;
      subject = n6 i;
      issued_at = d1 i;
      expires_at = d2 i;
      not_before = d3 i;
    })

abbrev old_claims : Claims
old_claims = claims_until (pos 10) (pos 100)

abbrev new_claims : Claims
new_claims = claims_until (pos 20) (pos 130)

abbrev sign_two : Claims → Option String
sign_two c = if same old_claims c then some "t" else if same new_claims c then some "u" else none

abbrev decode_two : String → Claims
decode_two s = if str_eq s "t" then old_claims else new_claims

abbrev pub jwt : Jwt
jwt = record {
  numeric_date = λ t. t;
  signed_string = sign_two;
  decode = λ s. some (true, decode_two s);
  verified = λ s. true;
}

some_eq : {a b : String} → some a ≡ some b → a ≡ b
some_eq e = cc

none_ne : {a : String} → ¬ (none ≡ some a)
none_ne e = cc

decode_signed : (c : Claims) (s : String) → sign_two c ≡ some s → decode_two s ≡ c
decode_signed c s e = elim (Bool-cases (same old_claims c)) [
  | inl first ↦ subst (λ t. decode_two t ≡ c) (some_eq (rw first at e)) (same_eq old_claims c first)
  | inr other ↦ elim (Bool-cases (same new_claims c)) [
    | inl second ↦
        subst (λ t. decode_two t ≡ c) (some_eq (rw (other, second) at e))
          (same_eq new_claims c second)
    | inr neither ↦ absurd (none_ne (rw (other, neither) at e))
  ]
]

pub jwt-IsSound : IsSound jwt
jwt-IsSound = record {
  rounds_down = λ t. omega arith;
  decodes = λ c s e. ap (λ d. some (true, d)) (decode_signed c s e);
  verifies = λ c s e. refl;
}

abbrev pub service : JwtService
service = record { jwt = jwt; issuer = "airfi" }

pub signed : generate_token service (pos 10) "s" "c" "" "" (pos 90) ≡ ok "t"
unfolding generate_token ◌+ℤ◌
signed = refl

valid : validate_token service (pos 20) "t" ≡ ok old_claims
unfolding validate_token
valid = refl

renewed : refresh_token service (pos 20) "t" (pos 30) ≡ ok "u"
unfolding refresh_token ◌+ℤ◌ ◌-ℤ◌
renewed = refl

left : get_remaining_time service (pos 20) "t" ≡ ok (pos 80)
unfolding get_remaining_time ◌-ℤ◌
left = refl

validate_token-generate_token_example :
    let c = claims_for service (pos 10) "s" "c" "" "" (pos 90) in
    ((pos 20 <ℤ c.expires_at) × (validate_token service (pos 20) "t" ≡ ok c))
    ⊎ ((c.expires_at ≤ℤ pos 20) × (validate_token service (pos 20) "t" ≡ err expired))
validate_token-generate_token_example =
    validate_token-generate_token service jwt-IsSound (pos 10) (pos 20) "s" "c" "" "" (pos 90) "t"
      signed (omega arith)

late : pos 120 <ℤ pos 100 +ℤ pos 30
unfolding ◌+ℤ◌
late = omega arith
