-- ===== src/Api.antt =====
-- internal/api: the HTTP API in front of the client of payment channels and the session manager.
-- A request is what gin has parsed of it; a response, its status and the fields of its JSON, with
-- integers for amounts and times that the code prints. Logging is left out.
pub mod Handlers
pub mod Views
pub mod Middleware
pub mod Router
pub mod Safety
pub mod PerunHandlers
pub mod PerunMoney
pub mod Payments
pub mod Wallet
mod Tests
use air_fi.Base.{ℕ, String, Bool, Option, List}
use air_fi.Base.Bytes.{Bytes}
use air_fi.Base.Int.{ℤ}
use air_fi.Perun.Client.{Client}
use air_fi.Perun.Channel.{Channel, ChannelState, ChannelError}
use air_fi.Session.Defs.{SessionStatus}
use air_fi.Session.Manager.{Manager, ManagerError}

-- The manager has a pointer to the same client: its own field is set from this one before a call,
-- and read back after it.
pub record Handler : Type 0 where
  pub perun_client : Client
  pub session_manager : Manager

-- The fields that a JSON body has to have are there where they are not empty.
pub record OpenChannelRequest : Type 0 where
  pub guest_address : String
  pub funding_amount : String

pub record PaymentRequest : Type 0 where
  pub amount : String

pub record PaymentResponse : Type 0 where
  pub session_id : String
  pub token : String
  pub duration : ℤ
  pub expires_at : ℤ
  pub my_balance : ℤ
  pub peer_balance : ℤ

pub record SessionView : Type 0 where
  pub session_id : String
  pub channel_id : String
  pub guest_address : String
  pub status : SessionStatus
  pub remaining_time : Bytes
  pub total_paid : ℤ
  pub created_at : ℤ

pub data Body : Type 0 where
  -- The `error` of a refused request: its own text, or that of the error that it passes on.
  failure : String → Body
  channel_failure : ChannelError → Body
  manager_failure : ManagerError → Body
  health : ℤ → Bool → Body
  opened : String → String → SessionStatus → Body
  paid : PaymentResponse → Body
  settled : String → ChannelState → ℤ → ℤ → Body
  channel_info : Channel → Body
  session_info : SessionView → Body
  session_list : List SessionView → ℕ → Body
  access_token : String → Bytes → Body
  extended : String → String → Bytes → ℤ → Body
  ended : String → Body
  wifi_status : String → Bytes → Body
  pricing : ℤ → ℤ → ℤ → ℤ → ℤ → ℤ → ℤ → Body
  -- A page, by its template.
  page : String → Body

pub record Response : Type 0 where
  pub status : ℕ
  pub body : Body

abbrev pub ok_json : Body → Response
ok_json b = record { status = 200; body = b }

abbrev pub bad_request : Body → Response
bad_request b = record { status = 400; body = b }

abbrev pub unauthorized : String → Response
unauthorized text = record { status = 401; body = failure text }

abbrev pub not_found : String → Response
not_found text = record { status = 404; body = failure text }

abbrev pub internal_error : Body → Response
internal_error b = record { status = 500; body = b }
