-- ===== src/Session/Manager/Extension.antt =====
-- Extending a session: how far it can go, and what a payment that is not positive does.
use air_fi.Base.{◌^◌, ◌<◌, ◌≡◌, ap, ◌⊎◌, arith, String, some, ok, err}
use air_fi.Base.Int.{ℤ, pos, negsuc, pos_part, ◌+ℤ◌, ◌-ℤ◌, ◌≤ℤ◌, ◌<ℤ◌}
use air_fi.Base.Word.{IsInt64, add_i64}
use air_fi.Base.Map.{lookup}
use air_fi.Auth.{TokenError, generate_token}
use air_fi.Session.Defs.{Session, active, remaining_time, is_status_active}
use air_fi.Session.Store.{get, write, extended}
use air_fi.Session.Store.Writes.{get-write, extend-ok}
use air_fi.Session.Manager.{
  RateConfig, Manager, token_failed, of_store, calculate_duration, extension_length, extend_store,
  extend_token, extend_session,
}

-- Durations below 2 ^ 62 do not wrap when they are subtracted.
abbrev pub IsSmall : ℤ → Type 0
IsSmall d = (pos 0 ≤ℤ d) × (pos_part d < 2 ^ 62)

pub small_range : (a : ℤ) → IsSmall a → IsInt64 a
small_range (pos a) h = ground arith
small_range (negsuc a) h = absurd (omega arith)

-- What a payment adds to a session's duration: what it buys, or the room that is left where that is
-- less.
abbrev pub Adds : RateConfig → ℤ → ℤ → ℤ → Type 0
Adds r d payment a =
    let bought = calculate_duration r (some payment) in
    ((add_i64 d bought ≤ℤ r.max_session_time) × (a ≡ bought))
    ⊎ ((r.max_session_time <ℤ add_i64 d bought)
        × (pos 0 <ℤ (r.max_session_time -ℤ d))
        × (a ≡ r.max_session_time -ℤ d))

-- The payment buys more than there is room for, and there is no room left.
abbrev pub IsFull : RateConfig → ℤ → ℤ → Type 0
IsFull r d payment =
    (r.max_session_time <ℤ add_i64 d (calculate_duration r (some payment)))
    × ((r.max_session_time -ℤ d) ≤ℤ pos 0)

-- The token that is signed for a session, for the time that is left of it.
abbrev pub Signs : Manager → String → ℤ → Session → String → Type 0
Signs m id now s token =
    generate_token m.jwt_service now id s.channel_id "" "" (remaining_time now now s) ≡ ok token

-- What an extension has sold: the session is still active, with the payment added to what was
-- paid, the duration lengthened within the limit, and the new token.
pub record Extends (m : Manager) (id : String) (payment now : ℤ) (x : Session) (m' : Manager)
    (s : Session) (token : String) : Type 0 where
  pub is_stored : get m'.store id ≡ ok s
  pub in_active : s.status ≡ active
  pub same_start : s.start_time ≡ x.start_time
  pub lengthened :
      (a : ℤ) × Adds m.rate_config x.duration payment a × (s.duration ≡ add_i64 x.duration a)
  pub signed : Signs m id now s token
  pub at_most : s.duration ≤ℤ m.rate_config.max_session_time
  pub paid : s.total_paid ≡ x.total_paid +ℤ payment
  pub token_kept : s.token ≡ token

module _ (m : Manager) (id : String) (payment now : ℤ) (x : Session)
    (here : lookup id m.store.sessions ≡ some x) where
  pub extended_store :
      (a : ℤ)
      → x.status ≡ active
      → extension_length m.rate_config x.duration payment ≡ ok a
      → extend_store m id payment now ≡ ok (write m.store id (extended a payment now x))
  unfolding extend_store get
  extended_store a live more =
      rw (here, ap is_status_active live, more)
        (ap of_store (extend-ok m.store id x a payment now here live))

  pub unsigned_kept :
      (a : ℤ)
      → extend_store m id payment now ≡ ok (write m.store id (extended a payment now x))
      → (e : TokenError)
      → let s = extended a payment now x in
        generate_token m.jwt_service now id s.channel_id "" "" (remaining_time now now s) ≡ err e
        → extend_session m id payment now
          ≡ (record m { store = write m.store id s }, err token_failed)
  unfolding extend_session extend_token
  unsigned_kept a stored e unsigned = rw (
    stored,
    get-write m.store id (extended a payment now x),
    unsigned,
    extend_session,
    extend_token,
  )

  pub signed_stored :
      (a : ℤ)
      → extend_store m id payment now ≡ ok (write m.store id (extended a payment now x))
      → (token : String)
      → let s = extended a payment now x in
        generate_token m.jwt_service now id s.channel_id "" "" (remaining_time now now s) ≡ ok token
        → extend_session m id payment now ≡ (
          record m { store = write (write m.store id s) id (record s { token = token }) },
          ok (record s { token = token }, token),
        )
  unfolding extend_session extend_token
  signed_stored a stored token signed = rw (
    stored,
    get-write m.store id (extended a payment now x),
    signed,
    extend_session,
    extend_token,
  )
