-- ===== src/Api/Handlers.antt =====
-- internal/api/handler.go. `now` is one reading of the clock for each request; new UUIDs are
-- arguments, and so is whether a request's context ends while a channel waits for the chain.
use air_fi.Base.{
  String, Bool, true, false, not, ◌&&◌, Option, none, some, if◌then◌else◌, str_eq, Result, ok, err,
  ◌>>=◌, or_fail,
}
use air_fi.Base.Bytes.{codes}
use air_fi.Base.Decimal.{set_string}
use air_fi.Base.Int.{ℤ, pos, ◌+ℤ◌}
use air_fi.Base.Map.{insert}
use air_fi.Perun.Crypto.{Crypto}
use air_fi.Perun.Channel.{Channel, OpenChannelRequest as PerunRequest, receive_payment, settle}
use air_fi.Perun.Client.{
  Client, open_channel as open_perun_channel, get_channel as get_perun_channel,
}
use air_fi.Session.Defs.{Session, SessionStatus, pending, remaining_time_formatted}
use air_fi.Session.Store.{get_by_channel}
use air_fi.Session.Manager.{
  Manager, ManagerError, create_session, activate_session, extend_session as extend_paid, end,
}
use air_fi.Api.{
  Handler, OpenChannelRequest, PaymentRequest, PaymentResponse, SessionView, failure,
  channel_failure, manager_failure, health, opened, paid, settled, channel_info, extended, ended,
  Response, ok_json, bad_request, not_found, internal_error,
}

-- The manager, with the handler's client behind its pointer.
abbrev pub manager_of : Handler → Manager
manager_of h = record h.session_manager { perun_client = some h.perun_client }

abbrev pub client_after : Client → Option Client → Client
client_after cl none = cl
client_after cl (some cl') = cl'

-- The handler after a call of the manager.
abbrev pub with_manager : Handler → Manager → Handler
with_manager h m = record {
  perun_client = client_after h.perun_client m.perun_client;
  session_manager = m;
}

-- A write through the pointer to a channel that the client's map holds.
abbrev pub put_channel : Handler → String → Channel → Handler
put_channel h id ch = record h {
  perun_client = record h.perun_client { channels = insert id ch h.perun_client.channels };
}

abbrev pub required : String → Bool
required text = not (str_eq text "")

-- gin's own text of what is wrong is not modelled.
abbrev pub invalid_body : Response
invalid_body = bad_request (failure "invalid request body")

abbrev pub amount_of : String → String → Result Response ℤ
amount_of text refused = or_fail (set_string (codes text)) (bad_request (failure refused))

-- A body that is no JSON is `none`.
unfoldable pub payment_amount : Option PaymentRequest → Result Response ℤ
payment_amount none = err invalid_body
payment_amount (some req) =
    if required req.amount then amount_of req.amount "invalid amount" else err invalid_body

unfoldable pub opening_amount : Option OpenChannelRequest → Result Response (String × ℤ)
opening_amount none = err invalid_body
opening_amount (some req) =
    if required req.guest_address && required req.funding_amount
    then (do
      amount ← amount_of req.funding_amount "invalid funding amount"
      ok (req.guest_address, amount))
    else err invalid_body

abbrev pub session_view : ℤ → Session → SessionView
session_view now s = record {
  session_id = s.id;
  channel_id = s.channel_id;
  guest_address = s.guest_addr;
  status = s.status;
  remaining_time = remaining_time_formatted now now s;
  total_paid = s.total_paid;
  created_at = s.created_at;
}

abbrev pub is_pending : SessionStatus → Bool
is_pending pending = true
is_pending _ = false

unfoldable pub health_check : Handler → ℤ → Response
health_check h now = ok_json (health now h.perun_client.connected)

module _ (c : Crypto) where
  -- The session of a channel that has just been opened.
  unfoldable pub open_session : Handler → String → Channel → String → ℤ → ℤ → Handler × Response
  open_session h session_id ch guest amount now =
      elim (create_session (manager_of h) session_id ch.id guest now) [
        | err e ↦ (h, internal_error (failure "failed to create session"))
        | ok (m, s) ↦ elim (activate_session m s.id amount now) [
          | err e ↦ (with_manager h m, internal_error (failure "failed to activate session"))
          | ok (m', s', token) ↦ (with_manager h m', ok_json (opened ch.id s'.id s'.status))
        ]
      ]

  -- The provider puts nothing in.
  abbrev pub perun_request : String → ℤ → PerunRequest
  perun_request guest amount = record {
    peer_address = guest;
    my_funding = some (pos 0);
    peer_funding = some amount;
    challenge_dur = pos 0;
  }

  unfoldable pub open_channel :
      Handler → Option OpenChannelRequest → String → String → ℤ → Bool → Handler × Response
  unfolding opening_amount open_session
  open_channel h req channel_id session_id now cancel = elim (opening_amount req) [
    | err r ↦ (h, r)
    | ok (guest, amount) ↦
        let r =
          open_perun_channel c h.perun_client (perun_request guest amount) channel_id now cancel in
        elim r.1 [
          | err e ↦
              (record h { perun_client = r.0 }, internal_error (failure "failed to open channel"))
          | ok ch ↦ open_session (record h { perun_client = r.0 }) session_id ch guest amount now
        ]
  ]

  abbrev pub payment_response : Channel → Session → String → PaymentResponse
  payment_response ch s token = record {
    session_id = s.id;
    token = token;
    duration = s.duration;
    expires_at = s.start_time +ℤ s.duration;
    my_balance = ch.my_balance;
    peer_balance = ch.peer_balance;
  }

  unfoldable pub activate_paid :
      Manager → String → ℤ → ℤ → Manager × Result ManagerError (Session × String)
  activate_paid m id amount now = elim (activate_session m id amount now) [
    | err e ↦ (m, err e)
    | ok (m', s, token) ↦ (m', ok (s, token))
  ]

  -- The first payment activates the session, and each later one extends it.
  unfoldable pub pay_session :
      Manager → Session → ℤ → ℤ → Manager × Result ManagerError (Session × String)
  unfolding activate_paid
  pay_session m s amount now =
      if is_pending s.status then activate_paid m s.id amount now else extend_paid m s.id amount now

  unfoldable pub credit_session : Handler → String → Channel → ℤ → ℤ → Handler × Response
  unfolding pay_session
  credit_session h channel_id ch amount now =
      elim (get_by_channel h.session_manager.store channel_id) [
        | err e ↦ (h, not_found "session not found")
        | ok s ↦
            let r = pay_session (manager_of h) s amount now in
            elim r.1 [
              | err e ↦ (with_manager h r.0, internal_error (manager_failure e))
              | ok (s', token) ↦ (with_manager h r.0, ok_json (paid (payment_response ch s' token)))
            ]
      ]

  unfoldable pub process_payment : Handler → String → Option PaymentRequest → ℤ → Handler × Response
  unfolding payment_amount credit_session
  process_payment h channel_id req now = elim (payment_amount req) [
    | err r ↦ (h, r)
    | ok amount ↦ elim (get_perun_channel c h.perun_client channel_id) [
      | err e ↦ (h, not_found "channel not found")
      | ok ch ↦
          let r = receive_payment c now ch (some amount) in
          elim r.1 [
            | err e ↦ (put_channel h channel_id r.0, bad_request (channel_failure e))
            | ok u ↦ credit_session (put_channel h channel_id r.0) channel_id r.0 amount now
          ]
    ]
  ]

  -- A session that cannot be ended is left as it is.
  unfoldable pub end_of_channel : Handler → String → ℤ → Handler
  end_of_channel h channel_id now = elim (get_by_channel h.session_manager.store channel_id) [
    | err e ↦ h
    | ok s ↦ elim (end c (manager_of h) s.id now) [ err e ↦ h | ok m ↦ with_manager h m ]
  ]

  unfoldable pub settle_channel : Handler → String → ℤ → Bool → Handler × Response
  unfolding end_of_channel
  settle_channel h channel_id now cancel = elim (get_perun_channel c h.perun_client channel_id) [
    | err e ↦ (h, not_found "channel not found")
    | ok ch ↦
        let r = settle c now cancel ch in
        elim r.1 [
          | err e ↦ (put_channel h channel_id r.0, internal_error (failure "settlement failed"))
          | ok u ↦ (
            end_of_channel (put_channel h channel_id r.0) channel_id now,
            ok_json (settled channel_id r.0.state r.0.my_balance r.0.peer_balance),
          )
        ]
  ]

  unfoldable pub get_channel : Handler → String → Response
  get_channel h channel_id = elim (get_perun_channel c h.perun_client channel_id) [
    | err e ↦ not_found "channel not found"
    | ok ch ↦ ok_json (channel_info ch)
  ]

  unfoldable pub end_session : Handler → String → ℤ → Handler × Response
  end_session h session_id now = elim (end c (manager_of h) session_id now) [
    | err e ↦ (h, bad_request (manager_failure e))
    | ok m ↦ (with_manager h m, ok_json (ended session_id))
  ]

unfoldable pub extend_session : Handler → String → Option PaymentRequest → ℤ → Handler × Response
unfolding payment_amount
extend_session h session_id req now = elim (payment_amount req) [
  | err r ↦ (h, r)
  | ok amount ↦
      let r = extend_paid (manager_of h) session_id amount now in
      elim r.1 [
        | err e ↦ (with_manager h r.0, bad_request (manager_failure e))
        | ok (s, token) ↦ (
          with_manager h r.0,
          ok_json (extended s.id token (remaining_time_formatted now now s) s.total_paid),
        )
      ]
]
