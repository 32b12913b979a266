-- ===== src/Session/Manager/Unpaid.antt =====
-- Extending a session by a payment that is not positive (internal/session/manager.go).
use air_fi.Base.{◌≡◌, refl, ap, ◌∙◌, inl, inr, arith, String, false, some, Result, ok, Result-cases}
use air_fi.Base.Int.{ℤ, pos, ◌+ℤ◌, ◌≤ℤ◌, ltb_ℤ, +ℤ_parts, eq_of_parts}
use air_fi.Base.Word.{wrap64-eq_self, add_i64}
use air_fi.Base.Map.{lookup}
use air_fi.Auth.{generate_token}
use air_fi.Session.Defs.{Session, active, remaining_time}
use air_fi.Session.Store.{StoreError, get, write, extended}
use air_fi.Session.Store.Writes.{get-write}
use air_fi.Session.Manager.{
  RateConfig, Manager, calculate_duration, extension_length, extend_session,
}
use air_fi.Session.Manager.Extension.{
  IsSmall, small_range, extended_store, unsigned_kept, signed_stored,
}

plus_zero : (d : ℤ) → d +ℤ pos 0 ≡ d
plus_zero d = eq_of_parts (d +ℤ pos 0) d (omega (arith, +ℤ_parts d (pos 0)))

add_nothing : (d : ℤ) → IsSmall d → add_i64 d (pos 0) ≡ d
unfolding add_i64
add_nothing d h = rw (plus_zero d) (wrap64-eq_self d (small_range d h))

not_over : (a b : ℤ) → a ≤ℤ b → ltb_ℤ b a ≡ false
not_over a b h = ground arith

buys_nothing :
    (r : RateConfig) (payment : ℤ) → payment ≤ℤ pos 0 → calculate_duration r (some payment) ≡ pos 0
unfolding calculate_duration
buys_nothing r payment h = ground arith

nothing_added :
    (r : RateConfig) (d payment : ℤ)
    → payment ≤ℤ pos 0
    → IsSmall d
    → d ≤ℤ r.max_session_time
    → extension_length r d payment ≡ ok (pos 0)
unfolding extension_length
nothing_added r d payment np small within =
    rw (buys_nothing r payment np, add_nothing d small, not_over d r.max_session_time within) refl

-- The session that is stored after such a call.
pub record Unlengthened (x : Session) (payment : ℤ) (r : Result StoreError Session) : Type 0 where
  pub s : Session
  pub is_stored : r ≡ ok s
  pub same_duration : s.duration ≡ x.duration
  pub recorded : s.total_paid ≡ x.total_paid +ℤ payment

-- A payment that is not positive is accepted for any stored active session whose duration is not
-- negative, below 2 ^ 62 and at most the longest session: it extends nothing, and it is added to
-- what was paid, so a negative one takes money off the record.
pub extend_session_unpaid :
    (m : Manager) (id : String) (payment now : ℤ) (x : Session)
    → lookup id m.store.sessions ≡ some x
    → x.status ≡ active
    → payment ≤ℤ pos 0
    → IsSmall x.duration
    → x.duration ≤ℤ m.rate_config.max_session_time
    → Unlengthened x payment (get (extend_session m id payment now).0.store id)
extend_session_unpaid m id payment now x here live np small within =
    let s : Session = extended (pos 0) payment now x in
    let stored =
      extended_store m id payment now x here (pos 0) live
        (nothing_added m.rate_config x.duration payment np small within) in
    elim (Result-cases
      (generate_token m.jwt_service now id s.channel_id "" "" (remaining_time now now s))) [
        | inl (e, unsigned) ↦ record {
          s = s;
          is_stored =
              ap (λ p. get p.0.store id)
                (unsigned_kept m id payment now x here (pos 0) stored e unsigned)
              ∙ get-write m.store id s;
          same_duration = add_nothing x.duration small;
          recorded = refl;
        }
        | inr (token, signed) ↦ record {
          s = record s { token = token };
          is_stored =
              ap (λ p. get p.0.store id)
                (signed_stored m id payment now x here (pos 0) stored token signed)
              ∙ get-write (write m.store id s) id (record s { token = token });
          same_duration = add_nothing x.duration small;
          recorded = refl;
        }
      ]
