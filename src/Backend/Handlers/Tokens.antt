-- ===== src/Backend/Handlers/Tokens.antt =====
-- A session's token, from the request for it to its check.
use air_fi.Base.{
  ◌≡◌, refl, ap, subst, ◌∙◌, ◌⊎◌, inl, inr, String, true, false, str_eq, eq_iff, Bool-cases,
  Result-cases, ok, arith,
}
use air_fi.Base.Int.{ℤ, ◌-ℤ◌, ◌≤ℤ◌, ◌<ℤ◌, ltb_ℤ, ltb_ℤ→ge, add_sub_self, quot_ℕ}
use air_fi.Auth.{Claims, IsSound, JwtService, expired, claims_for, generate_token}
use air_fi.Auth.Tokens.{validate_token-generate_token}
use air_fi.Db.{Session, get_session}
use air_fi.Backend.{Server}
use air_fi.Backend.Handlers.{
  given, handle_get_session_token, ValidateReply, refused, valid, handle_validate_token,
}

given_eq : {t u : String} {r q : Session} → given t r ≡ given u q → (t ≡ u) × (r ≡ q)
given_eq e = (cc e, cc e)

-- What the answer with a token shows of the database and of the token.
abbrev pub Grants : JwtService → ℤ → ℤ → Server → String → String → Session → Type 0
Grants jwt now later srv id token row =
    (get_session srv.db id ≡ ok row)
    × (now ≤ℤ row.expires_at)
    × (row.status ≡ "active")
    × (generate_token jwt later row.id row.channel_id row.mac_address row.ip_address
          (row.expires_at -ℤ later)
        ≡ ok token)

is_active_of : (status : String) → str_eq status "active" ≡ true → status ≡ "active"
is_active_of status e = ground (arith, eq_iff status "active")

handle_get_session_token-Grants :
    (jwt : JwtService) (now later : ℤ) (srv : Server) (id token : String) (row : Session)
    → handle_get_session_token jwt now later srv id ≡ given token row
    → Grants jwt now later srv id token row
unfolding handle_get_session_token
handle_get_session_token-Grants jwt now later srv id token row e =
    elim (Result-cases (get_session srv.db id)) [
      | inl (x, f) ↦ cc (rw (handle_get_session_token, f) at e)
      | inr (r, f) ↦ elim (Bool-cases (ltb_ℤ r.expires_at now)) [
        | inl late ↦ cc (rw (handle_get_session_token, f, late) at e)
        | inr due ↦ elim (Bool-cases (str_eq r.status "active")) [
          | inr waiting ↦ cc (rw (handle_get_session_token, f, due, waiting) at e)
          | inl active ↦
              elim (Result-cases (
                generate_token jwt later r.id r.channel_id r.mac_address r.ip_address
                  (r.expires_at -ℤ later))) [
                    | inl (x, g) ↦ cc (rw (handle_get_session_token, f, due, active, g) at e)
                    | inr (t, g) ↦
                        let (same, same_row) =
                          given_eq (rw (handle_get_session_token, f, due, active, g) at e) in
                        subst (Grants jwt now later srv id token) same_row (
                          f,
                          ltb_ℤ→ge r.expires_at now due,
                          is_active_of r.status active,
                          g ∙ ap ok same,
                        )
                  ]
        ]
      ]
    ]

not_over : (time ends : ℤ) → time <ℤ ends → ltb_ℤ ends time ≡ false
not_over time ends h = ground arith

-- What a check of the token answers at one time.
abbrev pub Answers : ℤ → Claims → ValidateReply → Type 0
Answers time c reply =
    ((time <ℤ c.expires_at) × (reply ≡ valid c (quot_ℕ (c.expires_at -ℤ time) 1_000_000_000)))
    ⊎ ((c.expires_at ≤ℤ time) × (reply ≡ refused expired))

module _ (jwt : JwtService) (sound : IsSound jwt.jwt) where
  -- A token is given only for a session that the database has as active and not yet over. From then
  -- on it is accepted, for that session, channel and device, until the session's end at the
  -- precision of a token's date, and is refused as expired from that date on.
  pub handle_validate_token-handle_get_session_token :
      (now later time : ℤ) (srv : Server) (id token : String) (row : Session)
      → handle_get_session_token jwt now later srv id ≡ given token row
      → later ≤ℤ time
      → (get_session srv.db id ≡ ok row)
        × (now ≤ℤ row.expires_at)
        × (row.status ≡ "active")
        × ((c : Claims) × (c.session_id ≡ row.id)
            × (c.channel_id ≡ row.channel_id)
            × (c.mac_address ≡ row.mac_address)
            × (c.expires_at ≡ jwt.jwt.numeric_date row.expires_at)
            × Answers time c (handle_validate_token jwt time time time token))
  unfolding claims_for handle_validate_token
  handle_validate_token-handle_get_session_token now later time srv id token row e h =
      let (found, due, active, signed) =
        handle_get_session_token-Grants jwt now later srv id token row e in
      let duration = row.expires_at -ℤ later in
      let c = claims_for jwt later row.id row.channel_id row.mac_address row.ip_address duration in
      (
        found,
        due,
        active,
        (
          c,
          refl,
          refl,
          refl,
          ap jwt.jwt.numeric_date (add_sub_self later row.expires_at),
          elim (validate_token-generate_token jwt sound later time row.id row.channel_id
              row.mac_address row.ip_address duration token signed h) [
                | inl (before, good) ↦ inl (
                  before,
                  rw (handle_validate_token, good, not_over time c.expires_at before) refl,
                )
                | inr (after, bad) ↦ inr (after, rw (handle_validate_token, bad) refl)
              ],
        ),
      )
