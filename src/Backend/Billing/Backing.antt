-- ===== src/Backend/Billing/Backing.antt =====
-- A round of payments keeps every session backed by its channel.
use air_fi.Base.{
  ◌≡◌, refl, ap, ◌∙◌, subst, ◌⊎◌, inl, inr, String, Bool, true, false, [], ◌∷◌, Bool-cases, All, ok,
  err,
}
use air_fi.Base.Int.{
  ℤ, pos, ◌+ℤ◌, ◌-ℤ◌, ◌≤ℤ◌, ◌<ℤ◌, ltb_ℤ, int_laws, +ℤ_parts, -ℤ_parts, ltb_ℤ→lt, ltb_ℤ→ge,
  give_take,
}
use air_fi.Base.Map.{Map}
use air_fi.Db.{Db, update_session_balance}
use air_fi.Perun.ChannelClient.{
  GpChannel, ChannelClientError, insufficient_balance, update_failed, send_payment,
}
use air_fi.Backend.{GuestSession, Server}
use air_fi.Backend.Billing.{
  Charge, over, unpaid, paid, charge, balance_ckb, spent_ckb, process_each, process_micropayments,
}

-- What is left of the funding is the guest's balance in the channel.
abbrev pub IsBacked : GuestSession → Type 0
IsBacked s =
    (pos 0 ≤ℤ s.total_paid)
    × (s.total_paid ≤ℤ s.funding_amount)
    × (s.channel.my_balance +ℤ s.total_paid ≡ s.funding_amount)

abbrev pub AllBacked : Map GuestSession → Type 0
AllBacked m = All (λ e. IsBacked e.1) m

abbrev pub moved : GpChannel → ℤ → GpChannel
moved ch a = record ch { my_balance = ch.my_balance -ℤ a; peer_balance = ch.peer_balance +ℤ a }

-- What a charge can be.
abbrev pub Charged : Bool → ℤ → ℤ → GuestSession → Charge → Type 0
Charged accepted rate now s over =
    (s.expires_at <ℤ now) ⊎ (s.funding_amount -ℤ s.total_paid <ℤ rate)
Charged accepted rate now s unpaid =
    (now ≤ℤ s.expires_at)
    × (rate ≤ℤ s.funding_amount -ℤ s.total_paid)
    × ((accepted ≡ false) ⊎ (s.channel.my_balance <ℤ rate))
Charged accepted rate now s (paid s') =
    (now ≤ℤ s.expires_at)
    × (rate ≤ℤ s.funding_amount -ℤ s.total_paid)
    × (rate ≤ℤ s.channel.my_balance)
    × (s' ≡ record s { channel = moved s.channel rate; total_paid = s.total_paid +ℤ rate })

-- A payment either leaves the channel as it is, or moves a covered amount.
pub send_payment-cases :
    (accepted : Bool) (ch : GpChannel) (a : ℤ)
    → ((e : ChannelClientError) × (send_payment accepted ch a ≡ (ch, err e))
        × ((accepted ≡ false) ⊎ (ch.my_balance <ℤ a)))
      ⊎ ((a ≤ℤ ch.my_balance) × (send_payment accepted ch a ≡ (moved ch a, ok tt)))
unfolding send_payment
send_payment-cases true ch a = elim (Bool-cases (ltb_ℤ ch.my_balance a)) [
  | inl poor ↦
      inl (insufficient_balance, rw (poor, send_payment) refl, inr (ltb_ℤ→lt ch.my_balance a poor))
  | inr rich ↦ inr (ltb_ℤ→ge ch.my_balance a rich, rw (rich, send_payment) refl)
]
send_payment-cases false ch a = elim (Bool-cases (ltb_ℤ ch.my_balance a)) [
  | inl poor ↦
      inl (insufficient_balance, rw (poor, send_payment) refl, inr (ltb_ℤ→lt ch.my_balance a poor))
  | inr rich ↦ inl (update_failed, rw (rich, send_payment) refl, inl refl)
]

pub charge_outcome :
    (accepted : Bool) (rate now : ℤ) (s : GuestSession)
    → Charged accepted rate now s (charge accepted rate now s)
unfolding charge
charge_outcome accepted rate now s = elim (Bool-cases (ltb_ℤ s.expires_at now)) [
  | inl late ↦ rw (late, charge) (inl (ltb_ℤ→lt s.expires_at now late))
  | inr alive ↦ elim (Bool-cases (ltb_ℤ (s.funding_amount -ℤ s.total_paid) rate)) [
    | inl short ↦
        rw (alive, short, charge) (inr (ltb_ℤ→lt (s.funding_amount -ℤ s.total_paid) rate short))
    | inr left ↦
        let due = ltb_ℤ→ge s.expires_at now alive in
        let covered = ltb_ℤ→ge (s.funding_amount -ℤ s.total_paid) rate left in
        elim (send_payment-cases accepted s.channel rate) [
          | inl (e, refused, why) ↦ rw (alive, left, refused, charge) (due, covered, why)
          | inr (rich, agreed) ↦
              rw (alive, left, agreed, charge)
                (
                  due,
                  covered,
                  rich,
                  ap (λ r. record s { channel = r.0; total_paid = s.total_paid +ℤ rate }) agreed,
                )
        ]
  ]
]

-- A payment that goes through keeps the session backed.
pub paid-IsBacked :
    (accepted : Bool) (rate : ℤ) (s s' : GuestSession) (now : ℤ)
    → pos 0 ≤ℤ rate
    → IsBacked s
    → Charged accepted rate now s (paid s')
    → IsBacked s'
paid-IsBacked accepted rate s s' now h (nonneg, bounded, backed) (due, covered, rich, e) = rw e (
  omega (int_laws, +ℤ_parts s.total_paid rate),
  omega (int_laws, +ℤ_parts s.total_paid rate, -ℤ_parts s.funding_amount s.total_paid),
  give_take s.channel.my_balance s.total_paid rate ∙ backed,
)

pub Charge-cases : (c : Charge) → ((c ≡ over) ⊎ (c ≡ unpaid)) ⊎ ((s : GuestSession) × (c ≡ paid s))
Charge-cases over = inl (inl refl)
Charge-cases unpaid = inl (inr refl)
Charge-cases (paid s) = inr (s, refl)

process_each-AllBacked :
    (accepts : String → Bool) (rate now : ℤ) (m : Map GuestSession) (db : Db)
    → pos 0 ≤ℤ rate
    → AllBacked m
    → AllBacked (process_each accepts rate now db m).kept
      × AllBacked (process_each accepts rate now db m).ended
unfolding process_each
process_each-AllBacked accepts rate now [] db h b = (tt, tt)
process_each-AllBacked accepts rate now ((id, s) ∷ rest) db h (b, bs) =
    elim (Charge-cases (charge (accepts id) rate now s)) [
      | inl (inl e) ↦
          let (ks, es) = process_each-AllBacked accepts rate now rest db h bs in
          rw (e, process_each) (ks, (b, es))
      | inl (inr e) ↦
          let (ks, es) = process_each-AllBacked accepts rate now rest db h bs in
          rw (e, process_each) ((b, ks), es)
      | inr (s', e) ↦
          let (ks, es) =
            process_each-AllBacked accepts rate now rest
              (update_session_balance db id (balance_ckb s') (spent_ckb s')) h bs in
          let b' =
            paid-IsBacked (accepts id) rate s s' now h b (
              subst (Charged (accepts id) rate now s) e (charge_outcome (accepts id) rate now s)) in
          rw (e, process_each) ((b', ks), es)
    ]

-- A round keeps every session backed by its channel: the payments so far are between nothing and
-- the funding, and the rest of the funding is the guest's balance.
pub process_micropayments-AllBacked :
    (accepts : String → Bool) (now : ℤ) (srv : Server)
    → pos 0 ≤ℤ srv.rate_per_min
    → AllBacked srv.sessions
    → AllBacked (process_micropayments accepts now srv).sessions
unfolding process_micropayments
process_micropayments-AllBacked accepts now srv h b =
    (process_each-AllBacked accepts srv.rate_per_min now srv.sessions srv.db h b).0
