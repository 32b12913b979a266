-- ===== src/Session/Manager/Lifecycle.antt =====
-- Activating, extending and ending a session: bounds on what is sold, and what is recorded.
use air_fi.Base.{◌≡◌, refl, ◌⊎◌, inl, inr, arith, String, some, ok, err, Option-cases, Result-cases}
use air_fi.Base.Int.{ℤ, ◌≤ℤ◌, ◌<ℤ◌}
use air_fi.Base.Map.{lookup}
use air_fi.Auth.{generate_token}
use air_fi.Session.Defs.{Session, active}
use air_fi.Session.Store.{Store, get, write, activated, session_not_found}
use air_fi.Session.Store.Writes.{get-write, activate-ok}
use air_fi.Session.Manager.{
  RateConfig, Manager, ManagerError, token_failed, store_failed, session_length, activate_session,
  calculate_duration,
}

-- What a payment buys, cut at the most that is sold, where it buys at least the least.
pub record Sells (r : RateConfig) (payment d : ℤ) : Type 0 where
  pub enough : r.min_session_time ≤ℤ calculate_duration r (some payment)
  pub cut :
      ((calculate_duration r (some payment) ≤ℤ r.max_session_time)
        × (d ≡ calculate_duration r (some payment)))
      ⊎ ((r.max_session_time <ℤ calculate_duration r (some payment)) × (d ≡ r.max_session_time))

session_length-Sells :
    (r : RateConfig) (payment d : ℤ) → session_length r payment ≡ ok d → Sells r payment d
unfolding session_length
session_length-Sells r payment d e = record { enough = ground arith; cut = ground arith }

Sells-session_length :
    (r : RateConfig) (payment d : ℤ) → Sells r payment d → session_length r payment ≡ ok d
unfolding session_length
Sells-session_length r payment d p = ground (arith, p.enough, p.cut)

-- A session that is sold lasts at least the least and at most the most.
Sells_bounds :
    (r : RateConfig) (payment d : ℤ)
    → r.min_session_time ≤ℤ r.max_session_time
    → Sells r payment d
    → (r.min_session_time ≤ℤ d) × (d ≤ℤ r.max_session_time)
Sells_bounds r payment d h p = ground (arith, p.enough, p.cut)

-- What activation has sold.
pub record Activated (m : Manager) (id : String) (payment now : ℤ) (m' : Manager) (s : Session)
    (token : String) : Type 0 where
  pub is_stored : get m'.store id ≡ ok s
  pub in_active : s.status ≡ active
  pub was_stored : (x : Session) × (get m.store id ≡ ok x) × (s.channel_id ≡ x.channel_id)
  pub bought : Sells m.rate_config payment s.duration
  pub started : s.start_time ≡ now
  pub at_least : m.rate_config.min_session_time ≤ℤ s.duration
  pub at_most : s.duration ≤ℤ m.rate_config.max_session_time
  pub paid : s.total_paid ≡ payment
  pub token_kept : s.token ≡ token
  pub token_made : generate_token m.jwt_service now id s.channel_id "" "" s.duration ≡ ok token

-- Where the least time does not exceed the most, activation succeeds exactly when the session is
-- stored, the payment buys at least the least time and a token can be signed, whatever the status
-- of the session was. What is sold then is what the payment buys, cut at the most time; it starts
-- now, and is recorded with the payment and the token.
pub activate_session_outcome :
    (m : Manager) (id : String) (payment now : ℤ)
    → m.rate_config.min_session_time ≤ℤ m.rate_config.max_session_time
    → ((e : ManagerError) × (activate_session m id payment now ≡ err e)
        × ((s : Session) (d : ℤ) (token : String)
            → get m.store id ≡ ok s
            → Sells m.rate_config payment d
            → ¬ (generate_token m.jwt_service now id s.channel_id "" "" d ≡ ok token)))
      ⊎ ((m' : Manager) × (s : Session) × (token : String) × (activate_session m id payment now
            ≡ ok (m', s, token))
          × Activated m id payment now m' s token)
unfolding activate_session get
activate_session_outcome m id payment now h = elim (Option-cases (lookup id m.store.sessions)) [
  | inl missing ↦ inl (
    store_failed session_not_found,
    rw (missing, activate_session),
    λ s d token f _ _. absurd (ground arith),
  )
  | inr (s, here) ↦ elim (Result-cases (session_length m.rate_config payment)) [
    | inl (e, short) ↦ inl (
      e,
      rw (here, short, activate_session),
      λ s d token _ f _.
          absurd (ground (arith, short, Sells-session_length m.rate_config payment d f)),
    )
    | inr (d, long) ↦
        elim (Result-cases (generate_token m.jwt_service now id s.channel_id "" "" d)) [
          | inl (e, unsigned) ↦ inl (
            token_failed,
            rw (here, long, unsigned, activate_session),
            λ s' d' token f g k.
                absurd (ground (arith, Sells-session_length m.rate_config payment d' g)),
          )
          | inr (token, signed) ↦
              let s' : Session = activated d token payment now s in
              let sells = session_length-Sells m.rate_config payment d long in
              let st : Store = write m.store id s' in
              inr (
                record m { store = st },
                s',
                token,
                rw (
                  here,
                  long,
                  signed,
                  activate-ok m.store id s d token payment now here,
                  get-write m.store id s',
                  activate_session,
                ),
                record {
                  is_stored = get-write m.store id s';
                  in_active = refl;
                  started = refl;
                  at_least = (Sells_bounds m.rate_config payment d h sells).0;
                  at_most = (Sells_bounds m.rate_config payment d h sells).1;
                  was_stored = (s, rw here refl, refl);
                  bought = sells;
                  paid = refl;
                  token_kept = refl;
                  token_made = signed;
                },
              )
        ]
  ]
]
