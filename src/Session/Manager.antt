-- ===== src/Session/Manager.antt =====
-- internal/session/manager.go: pricing, and the lifecycle of a paid session. `time.Now()` is one
-- reading `now` for each call; the manager's client of payment channels is the model of
-- internal/perun/client.go, and its token service that of internal/auth.
pub mod Pricing
pub mod Maps
pub mod Lifecycle
pub mod Extension
pub mod Unpaid
pub mod Access
pub mod Expiry
pub mod Cleanup
use air_fi.Base.{
  ℕ, suc, ◌+◌, ◌*◌, ◌/◌, ◌%◌, String, Bool, true, false, not, ◌&&◌, Option, none, some, List, [],
  ◌∷◌, if◌then◌else◌, Result, ok, err, ◌>>=◌, ◌>>◌, fail_if, or_fail, length,
}
use air_fi.Base.Int.{ℤ, pos, pos_part, ◌+ℤ◌, ◌-ℤ◌, ◌*ℤ◌, non_positive, ltb_ℤ, quot_ℕ}
use air_fi.Base.Word.{add_i64, sub_i64, mul_i64, wrap64}
use air_fi.Base.Map.{Map, lookup, insert, erase, values}
use air_fi.Perun.Config.{second, minute, hour}
use air_fi.Perun.Crypto.{Crypto}
use air_fi.Perun.Client.{Client, close_channel}
use air_fi.Auth.{JwtService, Claims, generate_token, validate_token}
use air_fi.Session.Defs.{
  Session, SessionStatus, pending, active, expired, ended, is_status_active, is_active,
  remaining_time,
}
use air_fi.Session.Store.{
  Store, StoreError, create, get, get_by_channel, write, activate, extend, end_session,
  mark_expired, list_active, list_all,
}

pub record RateConfig : Type 0 where
  pub ckbytes_per_minute : ℤ
  pub min_session_time : ℤ
  pub max_session_time : ℤ

unfoldable pub default_rate_config : RateConfig
default_rate_config = record {
  ckbytes_per_minute = pos 1;
  min_session_time = pos (5 * minute);
  max_session_time = pos (24 * hour);
}

pub record Manager : Type 0 where
  pub store : Store
  pub perun_client : Option Client
  pub jwt_service : JwtService
  pub rate_config : RateConfig

pub data ManagerError : Type 0 where
  store_failed : StoreError → ManagerError
  payment_too_small token_failed session_inactive at_maximum invalid_token : ManagerError

-- An error of the store or of the token service, wrapped.
abbrev of_store {ℓ} : {A : Type ℓ} → Result StoreError A → Result ManagerError A
of_store (ok a) = ok a
of_store (err e) = err (store_failed e)

abbrev or_else {ℓ κ} : {E : Type ℓ} {A : Type κ} → ManagerError → Result E A → Result ManagerError A
or_else e (ok a) = ok a
or_else e (err _) = err e

-- `Div` of two positive integers.
abbrev div_positive : ℤ → ℤ → ℤ
div_positive a b = pos (pos_part a / pos_part b)

-- A `nil` payment is `none`.
pub calculate_duration : RateConfig → Option ℤ → ℤ
calculate_duration r none = pos 0
calculate_duration r (some payment) =
    if non_positive payment
    then pos 0
    else if non_positive r.ckbytes_per_minute
    then pos 0
    else mul_i64 (wrap64 (div_positive payment r.ckbytes_per_minute)) (pos minute)

-- `int64(duration.Minutes())`, whose floating-point quotient is exact enough below 2 ^ 17 minutes.
pub calculate_price : RateConfig → ℤ → ℤ
calculate_price r duration = r.ckbytes_per_minute *ℤ quot_ℕ duration minute

unfoldable pub create_session :
    Manager → String → String → String → ℤ → Result ManagerError (Manager × Session)
create_session m id channel_id guest_addr now = do
  created ← of_store (create m.store id channel_id guest_addr now)
  ok (record m { store = created.0 }, created.1)

-- The duration that a payment buys, between the least and the most that is sold.
pub session_length : RateConfig → ℤ → Result ManagerError ℤ
session_length r payment = do
  let duration = calculate_duration r (some payment)
  fail_if (ltb_ℤ duration r.min_session_time) payment_too_small
  ok (if ltb_ℤ r.max_session_time duration then r.max_session_time else duration)

pub activate_session : Manager → String → ℤ → ℤ → Result ManagerError (Manager × Session × String)
unfolding session_length
activate_session m id payment now = do
  session ← of_store (get m.store id)
  duration ← session_length m.rate_config payment
  token ←
      or_else token_failed (generate_token m.jwt_service now id session.channel_id "" "" duration)
  store ← of_store (activate m.store id duration token payment now)
  updated ← of_store (get store id)
  ok (record m { store = store }, updated, token)

-- What is added to a session's duration, so that it stays within the most that is sold.
pub extension_length : RateConfig → ℤ → ℤ → Result ManagerError ℤ
extension_length r duration payment = do
  let additional = calculate_duration r (some payment)
  let room = sub_i64 r.max_session_time duration
  if ltb_ℤ r.max_session_time (add_i64 duration additional)
      then (if non_positive room then err at_maximum else ok room)
      else ok additional

-- The new token is written through the pointer, so the store has it too. Where signing fails, the
-- extension has already been stored: the manager that is left is returned beside the error.
extend_token : Manager → Store → String → ℤ → Manager × Result ManagerError (Session × String)
unfolding write
extend_token m store id now = elim (get store id) [
  | err e ↦ (record m { store = store }, err (store_failed e))
  | ok session ↦
      elim (generate_token m.jwt_service now id session.channel_id "" ""
        (remaining_time now now session)) [
          | err _ ↦ (record m { store = store }, err token_failed)
          | ok token ↦
              let renewed : Session = record session { token = token } in
              (record m { store = write store id renewed }, ok (renewed, token))
        ]
]

-- The guards of an extension, and the store after it.
unfoldable pub extend_store : Manager → String → ℤ → ℤ → Result ManagerError Store
unfolding extension_length
extend_store m id payment now = do
  session ← of_store (get m.store id)
  fail_if (not (is_status_active session.status)) session_inactive
  additional ← extension_length m.rate_config session.duration payment
  of_store (extend m.store id additional payment now)

pub extend_session : Manager → String → ℤ → ℤ → Manager × Result ManagerError (Session × String)
extend_session m id payment now = elim (extend_store m id payment now) [
  | err e ↦ (m, err e)
  | ok store ↦ extend_token m store id now
]

unfoldable pub settle_client : Crypto → ℤ → Option Client → String → Option Client
settle_client c now none channel_id = none
settle_client c now (some client) channel_id = some (close_channel c now client channel_id).0

-- A channel that cannot be closed is only logged.
unfoldable pub end : Crypto → Manager → String → ℤ → Result ManagerError Manager
unfolding settle_client
end c m id now = do
  session ← of_store (get m.store id)
  store ← of_store (end_session m.store id now)
  ok (record m {
    store = store;
    perun_client = settle_client c now m.perun_client session.channel_id;
  })

unfoldable pub validate : Manager → String → ℤ → Result ManagerError Session
validate m token now = do
  claims ← or_else invalid_token (validate_token m.jwt_service now token)
  session ← of_store (get m.store claims.session_id)
  fail_if (not (is_active now session)) session_inactive
  ok session

-- One round of the cleanup: the sessions are listed first, then each overdue one is marked.
unfoldable pub expire_overdue : ℤ → Session → Store → Store
expire_overdue now session s =
    if is_status_active session.status && not (is_active now session)
    then elim (mark_expired s session.id now) [ ok t ↦ t | err _ ↦ s ]
    else s

unfoldable pub expire_each : ℤ → List Session → Store → Store
unfolding expire_overdue
expire_each now [] s = s
expire_each now (x ∷ xs) s = expire_each now xs (expire_overdue now x s)

unfoldable pub check_expired_sessions : Manager → ℤ → Manager
unfolding expire_each
check_expired_sessions m now = record m { store = expire_each now (list_all m.store) m.store }

-- Without a configuration the default is taken.
unfoldable pub new_manager : Store → Option Client → JwtService → Option RateConfig → Manager
new_manager store client jwt config = record {
  store = store;
  perun_client = client;
  jwt_service = jwt;
  rate_config = elim config [ none ↦ default_rate_config | some r ↦ r ];
}

-- What the loop of the cleanup sees: the ticker, or that the manager was stopped.
pub data Turn : Type 0 where
  ticked : ℤ → Turn
  stopped : Turn

unfoldable pub cleanup_loop : Manager → List Turn → Manager
cleanup_loop m [] = m
cleanup_loop m (stopped ∷ turns) = m
cleanup_loop m (ticked now ∷ turns) = cleanup_loop (check_expired_sessions m now) turns
