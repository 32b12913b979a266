-- ===== src/Api/PerunHandlers.antt =====
-- internal/api/perun_handler.go: the API in front of the two-party channel client. A request's amount
-- is the number of shannons that its float converts to, which `int64(... * 100000000)` gives; a body
-- that does not bind, and an amount of 0, is `none`.
use air_fi.Base.{
  ℕ, ◌*◌, String, Option, none, some, List, map, length, if◌then◌else◌, str_eq, ok, err,
}
use air_fi.Base.Int.{ℤ, pos}
use air_fi.Base.Word.{mul_i64}
use air_fi.Perun.Crypto.{Crypto}
use air_fi.Perun.PerunClient as Perun
use air_fi.Perun.PerunClient.{PaymentChannel, PerunState, PerunClientError, Sdk, Channels}
use air_fi.Session.Store.{get_by_channel}
use air_fi.Session.Manager.{Manager, create_session, activate_session, extend_session, end}

-- The manager may be `nil`.
pub record PerunHandler (Params Account : Type 0) : Type 0 where
  pub perun_client : Channels Params Account
  pub session_manager : Option Manager

pub record PerunOpenChannelRequest : Type 0 where
  pub peer_address : String
  pub my_funding_ckb : ℤ
  pub peer_funding_ckb : ℤ

pub record ChannelView : Type 0 where
  pub channel_id : String
  pub peer_address : String
  pub state : PerunState
  pub my_balance : ℤ
  pub peer_balance : ℤ
  pub funding_tx : String
  pub created_at : ℤ

pub data Body : Type 0 where
  failure : String → Body
  client_failure : PerunClientError → Body
  -- With the ID of the session, "" where none was made.
  opened : ChannelView → String → Body
  payment_sent payment_received : String → ℤ → ℤ → ℤ → Body
  channel_settled : ChannelView → Body
  channel_info : ChannelView → Body
  channel_list : List ChannelView → ℕ → Body

pub record Response : Type 0 where
  pub status : ℕ
  pub body : Body

abbrev ok_json : Body → Response
ok_json b = record { status = 200; body = b }

abbrev bad_request : Body → Response
bad_request b = record { status = 400; body = b }

abbrev not_found : Response
not_found = record { status = 404; body = failure "channel not found" }

abbrev internal_error : PerunClientError → Response
internal_error e = record { status = 500; body = client_failure e }

-- A nil pointer, from which gin recovers.
abbrev recovered : Response
recovered = record { status = 500; body = failure "" }

abbrev ckb : ℕ
ckb = 100_000_000

-- What is not given counts as 100 CKB.
unfoldable funding_of : ℤ → ℤ
funding_of amount =
    let shannons = mul_i64 amount (pos ckb) in
    elim shannons [
      | pos ℕ.zero ↦ pos (100 * ckb)
      | pos (ℕ.suc n) ↦ pos (ℕ.suc n)
      | ℤ.negsuc n ↦ ℤ.negsuc n
    ]

-- A session for the new channel, if it can be made; that it is not activated is only logged.
unfoldable pub start_session :
    Option Manager → String → String → String → ℤ → ℤ → Option Manager × String
start_session none id channel_id peer amount now = (none, "")
start_session (some m) id channel_id peer amount now =
    elim (create_session m id channel_id peer now) [
      | err e ↦ (some m, "")
      | ok (m', s) ↦ elim (activate_session m' s.id amount now) [
        | err e ↦ (some m', s.id)
        | ok (m'', s', token) ↦ (some m'', s.id)
      ]
    ]

-- Whether the session can be extended makes no difference to the answer.
unfoldable pub extend_of_channel : Option Manager → String → ℤ → ℤ → Option Manager
extend_of_channel none channel_id amount now = none
extend_of_channel (some m) channel_id amount now = elim (get_by_channel m.store channel_id) [
  | err e ↦ some m
  | ok s ↦ some (extend_session m s.id amount now).0
]

unfoldable pub end_of_channel : Crypto → Option Manager → String → ℤ → Option Manager
end_of_channel c none channel_id now = none
end_of_channel c (some m) channel_id now = elim (get_by_channel m.store channel_id) [
  | err e ↦ some m
  | ok s ↦ elim (end c m s.id now) [ err e ↦ some m | ok m' ↦ some m' ]
]

module _ {Params Account : Type 0} where
  abbrev view : PaymentChannel Params Account → ChannelView
  view ch = record {
    channel_id = ch.id;
    peer_address = ch.peer_address;
    state = ch.state;
    my_balance = ch.my_balance;
    peer_balance = ch.peer_balance;
    funding_tx = ch.funding_tx;
    created_at = ch.created_at;
  }

  unfoldable pub open_channel :
      Sdk Params Account
      → PerunHandler Params Account
      → Option PerunOpenChannelRequest
      → String
      → ℤ
      → PerunHandler Params Account × Response
  unfolding funding_of start_session
  open_channel sdk h none session_id now = (h, bad_request (failure "invalid request body"))
  open_channel sdk h (some req) session_id now =
      if str_eq req.peer_address ""
      then (h, bad_request (failure "invalid request body"))
      else let peer_funding = funding_of req.peer_funding_ckb in
        let r =
          Perun.open_channel sdk h.perun_client req.peer_address (funding_of req.my_funding_ckb)
            peer_funding now in
        elim r.1 [
          | err e ↦ (record h { perun_client = r.0 }, internal_error e)
          | ok ch ↦
              let s =
                start_session h.session_manager session_id ch.id req.peer_address peer_funding
                  now in
              (record { perun_client = r.0; session_manager = s.0 }, ok_json (opened (view ch) s.1))
        ]

  -- The balances that are shown are read again after the payment.
  abbrev shown : (String → ℤ → ℤ → ℤ → Body) → Channels Params Account → String → ℤ → Response
  shown body channels channel_id amount = elim (Perun.get_channel_by_string channels channel_id) [
    | err e ↦ recovered
    | ok ch ↦ ok_json (body channel_id amount ch.my_balance ch.peer_balance)
  ]

  unfoldable pub send_payment :
      PerunHandler Params Account → String → Option ℤ → ℤ → PerunHandler Params Account × Response
  send_payment h channel_id none now = (h, bad_request (failure "invalid request body"))
  send_payment h channel_id (some amount) now =
      elim (Perun.get_channel_by_string h.perun_client channel_id) [
        | err e ↦ (h, not_found)
        | ok ch ↦
            let r = Perun.send_payment h.perun_client ch.id amount now in
            elim r.1 [
              | err e ↦ (record h { perun_client = r.0 }, bad_request (client_failure e))
              | ok u ↦ (record h { perun_client = r.0 }, shown payment_sent r.0 channel_id amount)
            ]
      ]

  unfoldable pub receive_payment :
      PerunHandler Params Account → String → Option ℤ → ℤ → PerunHandler Params Account × Response
  unfolding extend_of_channel
  receive_payment h channel_id none now = (h, bad_request (failure "invalid request body"))
  receive_payment h channel_id (some amount) now =
      elim (Perun.get_channel_by_string h.perun_client channel_id) [
        | err e ↦ (h, not_found)
        | ok ch ↦
            let r = Perun.receive_payment h.perun_client ch.id amount now in
            elim r.1 [
              | err e ↦ (record h { perun_client = r.0 }, bad_request (client_failure e))
              | ok u ↦ (
                record {
                  perun_client = r.0;
                  session_manager = extend_of_channel h.session_manager channel_id amount now;
                },
                shown payment_received r.0 channel_id amount,
              )
            ]
      ]

  unfoldable pub settle_channel :
      Crypto
      → Sdk Params Account
      → PerunHandler Params Account
      → String
      → ℤ
      → PerunHandler Params Account × Response
  unfolding end_of_channel
  settle_channel c sdk h channel_id now =
      elim (Perun.get_channel_by_string h.perun_client channel_id) [
        | err e ↦ (h, not_found)
        | ok ch ↦
            let r = Perun.settle_channel sdk h.perun_client ch.id now in
            elim r.1 [
              | err e ↦ (record h { perun_client = r.0 }, internal_error e)
              | ok u ↦ (
                record {
                  perun_client = r.0;
                  session_manager = end_of_channel c h.session_manager channel_id now;
                },
                elim (Perun.get_channel_by_string r.0 channel_id) [
                  | err e ↦ recovered
                  | ok after ↦ ok_json (channel_settled (view after))
                ],
              )
            ]
      ]

  unfoldable pub get_channel : PerunHandler Params Account → String → Response
  get_channel h channel_id = elim (Perun.get_channel_by_string h.perun_client channel_id) [
    | err e ↦ not_found
    | ok ch ↦ ok_json (channel_info (view ch))
  ]

  unfoldable pub list_channels : PerunHandler Params Account → Response
  list_channels h =
      let views = map view (Perun.list_channels h.perun_client) in
      ok_json (channel_list views (length views))
