-- ===== src/Backend/Handlers.antt =====
-- cmd/backend/handlers_api.go: the requests that change something, or that give and check a token. A
-- handler is a function from the server and the bound request to its answer; a body that does not
-- bind is `none` where the handler looks at it. Whether go-perun completes a call is an argument.
pub mod Rates
pub mod Tokens
pub mod Ending
pub mod Extending
pub mod Pages
use air_fi.Base.{
  ℕ, String, Bool, true, false, not, str_eq, Option, none, some, List, [], ◌∷◌, if◌then◌else◌,
  Result, ok, err,
}
use air_fi.Base.Int.{ℤ, pos, ◌+ℤ◌, ◌-ℤ◌, ◌*ℤ◌, ltb_ℤ, non_positive, quot_ℤ, quot_ℕ}
use air_fi.Base.Word.{wrap64, add_i64, mul_i64}
use air_fi.Base.Bytes.{Bytes}
use air_fi.Base.Map.{lookup, insert, erase}
use air_fi.Auth.{Claims, JwtService, TokenError, generate_token, validate_token}
use air_fi.Db.{
  Db, Session, GuestWallet, get_session, update_session_status, extend_session,
  get_wallet_by_session_id, update_wallet_status, get_rate_per_hour, set_rate_per_hour,
}
use air_fi.Perun.ChannelClient.{
  GpChannel, ChannelClient, ActiveChannel, new_channel_client, propose_channel, send_payment,
}
use air_fi.Perun.Withdraw.{withdraw_all}
use air_fi.Backend.{
  GuestSession, Server, Task, settle_in_background, update_rate_per_min, shannons_per_ckb,
}
use air_fi.Backend.Sessions.{minute}
use air_fi.Backend.Settlement.{Outside, revoke_session}
use air_fi.Backend.Opening.{host_funding}

pub data ExtendReply : Type 0 where
  invalid_amount session_not_found payment_refused failed : ExtendReply
  -- The minutes, and the CKBytes.
  extended : ℤ → ℤ → ExtendReply

-- Of a session whose payment has gone through; a rate of 0 makes the division panic.
unfoldable pub extended_session : GuestSession → GpChannel → ℤ → GuestSession
extended_session s ch amount = record s { channel = ch; total_paid = s.total_paid +ℤ amount }

unfoldable pub extend_paid :
    (ℤ → ℤ → ℤ) → Server → String → GuestSession → ℤ → ℤ → Server × ExtendReply
extend_paid datetime srv id s amount_ckb amount = elim (quot_ℤ amount srv.rate_per_min) [
  | none ↦ (record srv { sessions = insert id s srv.sessions }, failed)
  | some q ↦
      let minutes = wrap64 q in
      let longer : GuestSession = record s {
        expires_at = s.expires_at +ℤ mul_i64 minutes minute;
      } in
      (
        record srv {
          sessions = insert id longer srv.sessions;
          db = extend_session datetime srv.db id minutes (wrap64 amount_ckb);
        },
        extended minutes (wrap64 amount_ckb),
      )
]

unfoldable pub extend_by : (ℤ → ℤ → ℤ) → Bool → Server → String → ℤ → Server × ExtendReply
unfolding extended_session extend_paid
extend_by datetime accepted srv id amount_ckb = elim (lookup id srv.sessions) [
  | none ↦ (srv, session_not_found)
  | some s ↦
      let amount = amount_ckb *ℤ pos shannons_per_ckb in
      let (ch, sent) = send_payment accepted s.channel amount in
      elim sent [
        | err e ↦ (srv, payment_refused)
        | ok done ↦ extend_paid datetime srv id (extended_session s ch amount) amount_ckb amount
      ]
]

-- `amount_ckb`: what `SetString` makes of the request's amount.
unfoldable pub handle_extend_session :
    (ℤ → ℤ → ℤ) → Bool → Server → String → Option ℤ → Server × ExtendReply
unfolding extend_by
handle_extend_session datetime accepted srv id amount_ckb = elim amount_ckb [
  | none ↦ (srv, invalid_amount)
  | some a ↦ if non_positive a then (srv, invalid_amount) else extend_by datetime accepted srv id a
]

-- Whether the session was there to end.
unfoldable pub handle_end_session : Server → String → Server × Bool
unfolding revoke_session
handle_end_session srv id = elim (lookup id srv.sessions) [
  | none ↦ (srv, false)
  | some s ↦
      let removed : Server = record srv {
        sessions = erase id srv.sessions;
        db = update_session_status srv.db id "settling";
      } in
      let revoked = revoke_session removed id in
      (record revoked { tasks = settle_in_background s ∷ revoked.tasks }, true)
]

pub data RefundReply : Type 0 where
  bad_request wallet_not_found already_withdrawn bad_key bad_wallet refund_failed : RefundReply
  refunded : Bytes → RefundReply

module _ {S W : Type 0} (out : Outside S W) where
  unfoldable pub refund_wallet : W → Server → GuestWallet → String → W × Server × RefundReply
  refund_wallet w srv wallet to = elim (out.decode_key wallet.private_key_hex) [
    | none ↦ (w, srv, bad_key)
    | some key ↦ elim (out.decode_wallet_address wallet.address) [
      | none ↦ (w, srv, bad_wallet)
      | some lock ↦
          let (w', sent) = withdraw_all out.node out.scripts w key lock to in
          elim sent [
            | err e ↦ (w', srv, refund_failed)
            | ok hash ↦ (
              w',
              record srv { db = update_wallet_status srv.db wallet.id "withdrawn" },
              refunded hash,
            )
          ]
    ]
  ]

  unfoldable pub handle_manual_refund :
      W → Server → String → Option String → W × Server × RefundReply
  unfolding refund_wallet
  handle_manual_refund w srv id to_address = elim to_address [
    | none ↦ (w, srv, bad_request)
    | some to ↦ elim (get_wallet_by_session_id srv.db id) [
      | err e ↦ (w, srv, wallet_not_found)
      | ok wallet ↦
          if str_eq wallet.status "withdrawn"
          then (w, srv, already_withdrawn)
          else refund_wallet w srv wallet to
    ]
  ]

pub data TokenReply : Type 0 where
  no_session session_expired not_signed : TokenReply
  not_ready : String → TokenReply
  given : String → Session → TokenReply

-- The clock is read at `now` for the test, and at `later` for the time that remains.
unfoldable pub handle_get_session_token : JwtService → ℤ → ℤ → Server → String → TokenReply
handle_get_session_token jwt now later srv id = elim (get_session srv.db id) [
  | err e ↦ no_session
  | ok row ↦
      if ltb_ℤ row.expires_at now
      then session_expired
      else if not (str_eq row.status "active")
      then not_ready row.status
      else elim (generate_token jwt later row.id row.channel_id row.mac_address row.ip_address
          (row.expires_at -ℤ later)) [ err e ↦ not_signed | ok token ↦ given token row ]
]

pub data ValidateReply : Type 0 where
  refused : TokenError → ValidateReply
  token_expired : Claims → ValidateReply
  -- The claims, and the whole seconds that remain.
  valid : Claims → ℤ → ValidateReply

unfoldable pub handle_validate_token : JwtService → ℤ → ℤ → ℤ → String → ValidateReply
handle_validate_token jwt now later last token = elim (validate_token jwt now token) [
  | err e ↦ refused e
  | ok c ↦
      if ltb_ℤ c.expires_at later
      then token_expired c
      else valid c (quot_ℕ (c.expires_at -ℤ last) 1_000_000_000)
]

-- The rate, the reserve and the minimum.
unfoldable pub handle_get_settings : Server → ℤ × ℤ × ℤ
handle_get_settings srv =
    let rate = get_rate_per_hour srv.db in
    (rate, srv.channel_setup_ckb, add_i64 srv.channel_setup_ckb rate)

pub data RateReply : Type 0 where
  unauthorized invalid_request rate_too_low : RateReply
  updated : ℤ → RateReply

-- The request has the dashboard's cookie.
unfoldable pub is_host : Server → Option String → Bool
is_host srv cookie = elim cookie [ none ↦ false | some c ↦ str_eq c srv.dashboard_password ]

unfoldable pub handle_update_rate : Server → Option String → Option ℤ → Server × RateReply
unfolding is_host update_rate_per_min
handle_update_rate srv cookie rate_per_hour =
    if not (is_host srv cookie) then (srv, unauthorized) else elim rate_per_hour [
      | none ↦ (srv, invalid_request)
      | some rate ↦ if ltb_ℤ rate (pos 1) then (srv, rate_too_low) else (
        update_rate_per_min (record srv { db = set_rate_per_hour srv.db rate }) rate,
        updated rate,
      )
    ]

pub data OpenReply : Type 0 where
  invalid_request invalid_funding client_failed not_opened failed : OpenReply
  opened : String → ℤ → OpenReply

-- The demonstration channel is kept under the first 16 digits of its ID, `id`, once go-perun agrees.
unfoldable pub handle_open_channel :
    Bool → Bool → Option String → ℤ → ℤ → Server → Option String → Option ℤ → Server × OpenReply
handle_open_channel client_made well_formed agreed now later srv guest_address funding_ckb =
    elim guest_address [
      | none ↦ (srv, invalid_request)
      | some guest ↦ elim funding_ckb [
        | none ↦ (srv, invalid_funding)
        | some f ↦
            let funding = f *ℤ pos shannons_per_ckb in
            let (cl, answer) =
              propose_channel well_formed agreed new_channel_client funding host_funding now in
            if non_positive f
            then (srv, invalid_funding)
            else if not client_made
            then (srv, client_failed)
            else elim answer [
              | err e ↦ (srv, not_opened)
              | ok ch ↦ elim (quot_ℤ funding srv.rate_per_min) [
                | none ↦ (srv, failed)
                | some q ↦
                    let session : GuestSession = record {
                      id = ch.id;
                      client = cl;
                      channel = ch;
                      guest_address = guest;
                      funding_amount = funding;
                      total_paid = pos 0;
                      created_at = now;
                      expires_at = later +ℤ mul_i64 (wrap64 q) minute;
                    } in
                    (
                      record srv { sessions = insert ch.id session srv.sessions },
                      opened ch.id (wrap64 q),
                    )
              ]
            ]
      ]
    ]
