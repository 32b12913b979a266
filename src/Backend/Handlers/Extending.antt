-- ===== src/Backend/Handlers/Extending.antt =====
-- What an extension of a session pays for, and the sessions' backing through every request and round.
use air_fi.Base.{
  ◌≡◌, refl, ap, sym, subst, ◌∙◌, inl, inr, String, Bool, false, str_eq, Option, none, some, [],
  ◌∷◌, Bool-cases, Option-cases, arith, Result-cases,
}
use air_fi.Base.Int.{
  ℤ, pos, negsuc, ◌*ℤ◌, ◌≤ℤ◌, int_laws, +ℤ_parts, pos_part, neg_part, non_positive, quot_ℤ,
  give_take,
}
use air_fi.Base.Map.{Map, lookup, insert, erase}
use air_fi.Perun.ChannelClient.{send_payment}
use air_fi.Backend.{GuestSession, Server, shannons_per_ckb}
use air_fi.Backend.Billing.Backing.{IsBacked, AllBacked, moved, send_payment-cases}
use air_fi.Backend.Handlers.{extended_session, extend_paid, extend_by, handle_extend_session}

some_eq : {a b : GuestSession} → some a ≡ some b → a ≡ b
some_eq e = cc e

lookup-AllBacked :
    (m : Map GuestSession) (id : String) (s : GuestSession)
    → AllBacked m
    → lookup id m ≡ some s
    → IsBacked s
unfolding lookup
lookup-AllBacked [] id s b e = cc e
lookup-AllBacked ((key, x) ∷ rest) id s (b, bs) e = elim (Bool-cases (str_eq key id)) [
  | inl hit ↦ subst IsBacked (some_eq (rw (hit, lookup) at e)) b
  | inr miss ↦ lookup-AllBacked rest id s bs (rw (miss, lookup) at e)
]

pub insert-AllBacked :
    (m : Map GuestSession) (id : String) (s : GuestSession)
    → AllBacked m
    → IsBacked s
    → AllBacked (insert id s m)
unfolding insert
insert-AllBacked [] id s b h = (h, tt)
insert-AllBacked ((key, x) ∷ rest) id s (b, bs) h = elim (Bool-cases (str_eq key id)) [
  | inl hit ↦ rw (hit, insert) (h, bs)
  | inr miss ↦ rw (miss, insert) (b, insert-AllBacked rest id s bs h)
]

pub erase-AllBacked : (m : Map GuestSession) (id : String) → AllBacked m → AllBacked (erase id m)
unfolding erase
erase-AllBacked [] id b = tt
erase-AllBacked ((key, x) ∷ rest) id (b, bs) = elim (Bool-cases (str_eq key id)) [
  | inl hit ↦ rw (hit, erase) (erase-AllBacked rest id bs)
  | inr miss ↦ rw (miss, erase) (b, erase-AllBacked rest id bs)
]

-- A covered amount that goes to the peer is one that was paid.
extended-IsBacked :
    (s : GuestSession) (a : ℤ)
    → pos 0 ≤ℤ a
    → IsBacked s
    → a ≤ℤ s.channel.my_balance
    → IsBacked (extended_session s (moved s.channel a) a)
unfolding extended_session
extended-IsBacked s a h (nonneg, bounded, backed) covered = (
  omega (int_laws, +ℤ_parts s.total_paid a),
  omega (
    int_laws,
    +ℤ_parts s.total_paid a,
    +ℤ_parts s.channel.my_balance s.total_paid,
    ap pos_part backed,
    ap neg_part backed,
  ),
  give_take s.channel.my_balance s.total_paid a ∙ backed,
)

times_nonneg : (a : ℤ) → non_positive a ≡ false → pos 0 ≤ℤ a *ℤ pos shannons_per_ckb
unfolding ◌*ℤ◌
times_nonneg (pos n) h = ground arith
times_nonneg (negsuc n) h = ground arith

module _ (datetime : ℤ → ℤ → ℤ) (accepted : Bool) where
  extend_paid-AllBacked :
      (srv : Server) (id : String) (s : GuestSession) (amount_ckb amount : ℤ)
      → AllBacked srv.sessions
      → IsBacked s
      → AllBacked (extend_paid datetime srv id s amount_ckb amount).0.sessions
  unfolding extend_paid
  extend_paid-AllBacked srv id s amount_ckb amount b h =
      elim (Option-cases (quot_ℤ amount srv.rate_per_min)) [
        | inl e ↦ rw (extend_paid, e) (insert-AllBacked srv.sessions id s b h)
        | inr (q, e) ↦ rw (extend_paid, e) (insert-AllBacked srv.sessions id _ b h)
      ]

  extend_by-AllBacked :
      (srv : Server) (id : String) (a : ℤ)
      → pos 0 ≤ℤ a *ℤ pos shannons_per_ckb
      → AllBacked srv.sessions
      → AllBacked (extend_by datetime accepted srv id a).0.sessions
  unfolding extend_by
  extend_by-AllBacked srv id a h b = elim (Option-cases (lookup id srv.sessions)) [
    | inl e ↦ rw (extend_by, e) b
    | inr (s, e) ↦ elim (send_payment-cases accepted s.channel (a *ℤ pos shannons_per_ckb)) [
      | inl (x, refused, why) ↦ rw (extend_by, e, refused) b
      | inr (covered, agreed) ↦
          let amount = a *ℤ pos shannons_per_ckb in
          let paid : IsBacked
              (extended_session s (send_payment accepted s.channel amount).0 amount) =
            subst (λ r. IsBacked (extended_session s r.0 amount)) (sym agreed)
              (extended-IsBacked s amount h (lookup-AllBacked srv.sessions id s b e) covered) in
          rw (extend_by, e, agreed) (extend_paid-AllBacked srv id _ a amount b paid)
    ]
  ]

  pub handle_extend_session-AllBacked :
      (srv : Server) (id : String) (amount_ckb : Option ℤ)
      → AllBacked srv.sessions
      → AllBacked (handle_extend_session datetime accepted srv id amount_ckb).0.sessions
  unfolding handle_extend_session
  handle_extend_session-AllBacked srv id none b = b
  handle_extend_session-AllBacked srv id (some a) b = elim (Bool-cases (non_positive a)) [
    | inl bad ↦ rw (handle_extend_session, bad) b
    | inr good ↦
        rw (handle_extend_session, good) (extend_by-AllBacked srv id a (times_nonneg a good) b)
  ]

  extend_by_rate :
      (srv : Server) (id : String) (a : ℤ)
      → (extend_by datetime accepted srv id a).0.rate_per_min ≡ srv.rate_per_min
  unfolding extend_by extend_paid
  extend_by_rate srv id a = elim (Option-cases (lookup id srv.sessions)) [
    | inl e ↦ rw (extend_by, e) refl
    | inr (s, e) ↦
        elim (Result-cases (send_payment accepted s.channel (a *ℤ pos shannons_per_ckb)).1) [
          | inl (x, f) ↦ rw (extend_by, e, f) refl
          | inr (x, f) ↦ elim (Option-cases (quot_ℤ (a *ℤ pos shannons_per_ckb) srv.rate_per_min)) [
            | inl g ↦ rw (extend_by, e, f, extend_paid, g) refl
            | inr (q, g) ↦ rw (extend_by, e, f, extend_paid, g) refl
          ]
        ]
  ]

  -- An extension leaves the rate.
  pub handle_extend_session_rate :
      (srv : Server) (id : String) (amount_ckb : Option ℤ)
      → (handle_extend_session datetime accepted srv id amount_ckb).0.rate_per_min
        ≡ srv.rate_per_min
  unfolding handle_extend_session
  handle_extend_session_rate srv id none = refl
  handle_extend_session_rate srv id (some a) = elim (Bool-cases (non_positive a)) [
    | inl bad ↦ rw (handle_extend_session, bad) refl
    | inr good ↦ rw (handle_extend_session, good) (extend_by_rate srv id a)
  ]
