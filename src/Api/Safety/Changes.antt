-- ===== src/Api/Safety/Changes.antt =====
-- That payments, settlements, extensions and ends through internal/api keep its state sound.
use air_fi.Base.{
  ℕ, ◌+◌, ◌<◌, ◌^◌, ◌≡◌, refl, sym, subst, inl, inr, String, Bool, Option, some, ok, Bool-cases,
  Option-cases, Result-cases,
}
use air_fi.Base.Int.{ℤ}
use air_fi.Base.Map.{lookup}
use air_fi.Perun.Crypto.{Crypto}
use air_fi.Perun.Channel.{Channel, receive_payment, settle}
use air_fi.Perun.Client.{get_channel as get_perun_channel}
use air_fi.Perun.Client.Channels.{
  HoldsValid, receive_payment-Fits, settle-Fits, close_channel-HoldsValid,
}
use air_fi.Session.Defs.{Session}
use air_fi.Session.Store.{get_by_channel}
use air_fi.Session.Store.Invariant.{IsWellFormed}
use air_fi.Session.Manager.{
  Manager, activate_session, extend_session as extend_paid, settle_client, end,
}
use air_fi.Session.Manager.Maps.{Keeps, activate_session-Keeps, extend_session-Keeps, end-Keeps}
use air_fi.Api.{Handler, PaymentRequest}
use air_fi.Api.Handlers.{
  manager_of, client_after, with_manager, put_channel, payment_amount, activate_paid, pay_session,
  credit_session, process_payment, end_of_channel, settle_channel, end_session, extend_session,
  is_pending,
}
use air_fi.Api.Safety.Sound.{IsSound, later-IsSound, with_manager-IsSound, put_channel-IsSound}

module _ (c : Crypto) where
  activate_paid-Keeps :
      (m : Manager) (id : String) (amount now : ℤ)
      → IsWellFormed m.store
      → Keeps m (activate_paid c m id amount now).0
  unfolding activate_paid
  activate_paid-Keeps m id amount now w = elim (Result-cases (activate_session m id amount now)) [
    | inl (e, refused) ↦
        rw (activate_paid, refused) (record { well_formed = w; same_client = refl })
    | inr ((m', x, token), done) ↦
        rw (activate_paid, done) (activate_session-Keeps m m' id amount now x token w done)
  ]

  pub pay_session-Keeps :
      (m : Manager) (x : Session) (amount now : ℤ)
      → IsWellFormed m.store
      → Keeps m (pay_session c m x amount now).0
  unfolding pay_session
  pay_session-Keeps m x amount now w = elim (Bool-cases (is_pending x.status)) [
    | inr later ↦ rw (pay_session, later) (extend_session-Keeps m x.id amount now w)
    | inl first ↦ rw (pay_session, first) (activate_paid-Keeps m x.id amount now w)
  ]

  credit_session-IsSound :
      (n : ℕ) (h : Handler) (id : String) (ch : Channel) (amount now : ℤ)
      → IsSound c n h
      → IsSound c n (credit_session c h id ch amount now).0
  unfolding credit_session
  credit_session-IsSound n h id ch amount now s =
      elim (Result-cases (get_by_channel h.session_manager.store id)) [
        | inl (e, missing) ↦ rw (credit_session, missing) s
        | inr (x, found) ↦
            let r = pay_session c (manager_of h) x amount now in
            let paid =
              with_manager-IsSound c n h r.0 s
                (pay_session-Keeps (manager_of h) x amount now s.agreed) in
            elim (Result-cases r.1) [
              | inl (e, refused) ↦ rw (credit_session, found, refused) paid
              | inr ((x', token), done) ↦ rw (credit_session, found, done) paid
            ]
      ]

  pub process_payment-IsSound :
      (n : ℕ) (h : Handler) (id : String) (req : Option PaymentRequest) (now : ℤ)
      → n + 1 < 2 ^ 64
      → IsSound c n h
      → IsSound c (n + 1) (process_payment c h id req now).0
  unfolding process_payment get_perun_channel
  process_payment-IsSound n h id req now small s =
      let later = later-IsSound c n h s in
      elim (Result-cases (payment_amount req)) [
        | inl (r, bad) ↦ rw (process_payment, bad) later
        | inr (amount, good) ↦ elim (Option-cases (lookup id h.perun_client.channels)) [
          | inl missing ↦ rw (process_payment, good, missing) later
          | inr (ch, here) ↦
              let r = receive_payment c now ch (some amount) in
              let put =
                put_channel-IsSound c (n + 1) h id r.0 later (
                  receive_payment-Fits c n now id ch (some amount) small
                    (s.held.each id ch here)) in
              elim (Result-cases r.1) [
                | inl (e, refused) ↦ rw (process_payment, good, here, refused) put
                | inr (u, done) ↦
                    rw (process_payment, good, here, done)
                      (credit_session-IsSound (n + 1) (put_channel h id r.0) id r.0 amount now put)
              ]
        ]
      ]

  -- Ending a session may close its channel.
  end-IsSound :
      (n : ℕ) (h : Handler) (m : Manager) (id : String) (now : ℤ)
      → IsSound c n h
      → end c (manager_of h) id now ≡ ok m
      → IsSound c n (with_manager h m)
  unfolding settle_client
  end-IsSound n h m id now s e =
      let (x, here, w, closed) = end-Keeps c (manager_of h) m id now s.agreed e in
      record {
        held =
            subst (λ cl. HoldsValid c n (client_after h.perun_client cl).channels) (sym closed)
              (close_channel-HoldsValid c n now h.perun_client x.channel_id s.held);
        agreed = w;
      }

  end_of_channel-IsSound :
      (n : ℕ) (h : Handler) (id : String) (now : ℤ)
      → IsSound c n h
      → IsSound c n (end_of_channel c h id now)
  unfolding end_of_channel
  end_of_channel-IsSound n h id now s =
      elim (Result-cases (get_by_channel h.session_manager.store id)) [
        | inl (e, missing) ↦ rw (end_of_channel, missing) s
        | inr (x, found) ↦ elim (Result-cases (end c (manager_of h) x.id now)) [
          | inl (e, failed) ↦ rw (end_of_channel, found, failed) s
          | inr (m, done) ↦ rw (end_of_channel, found, done) (end-IsSound n h m x.id now s done)
        ]
      ]

  pub settle_channel-IsSound :
      (n : ℕ) (h : Handler) (id : String) (now : ℤ) (cancel : Bool)
      → IsSound c n h
      → IsSound c n (settle_channel c h id now cancel).0
  unfolding settle_channel get_perun_channel
  settle_channel-IsSound n h id now cancel s =
      elim (Option-cases (lookup id h.perun_client.channels)) [
        | inl missing ↦ rw (settle_channel, missing) s
        | inr (ch, here) ↦
            let r = settle c now cancel ch in
            let put =
              put_channel-IsSound c n h id r.0 s
                (settle-Fits c n now cancel id ch (s.held.each id ch here)) in
            elim (Result-cases r.1) [
              | inl (e, failed) ↦ rw (settle_channel, here, failed) put
              | inr (u, done) ↦
                  rw (settle_channel, here, done)
                    (end_of_channel-IsSound n (put_channel h id r.0) id now put)
            ]
      ]

  pub end_session-IsSound :
      (n : ℕ) (h : Handler) (id : String) (now : ℤ)
      → IsSound c n h
      → IsSound c n (end_session c h id now).0
  unfolding end_session
  end_session-IsSound n h id now s = elim (Result-cases (end c (manager_of h) id now)) [
    | inl (e, failed) ↦ rw (end_session, failed) s
    | inr (m, done) ↦ rw (end_session, done) (end-IsSound n h m id now s done)
  ]

  pub extend_session-IsSound :
      (n : ℕ) (h : Handler) (id : String) (req : Option PaymentRequest) (now : ℤ)
      → IsSound c n h
      → IsSound c n (extend_session h id req now).0
  unfolding extend_session
  extend_session-IsSound n h id req now s = elim (Result-cases (payment_amount req)) [
    | inl (r, bad) ↦ rw (extend_session, bad) s
    | inr (amount, good) ↦
        let r = extend_paid (manager_of h) id amount now in
        let paid =
          with_manager-IsSound c n h r.0 s
            (extend_session-Keeps (manager_of h) id amount now s.agreed) in
        elim (Result-cases r.1) [
          | inl (e, refused) ↦ rw (extend_session, good, refused) paid
          | inr ((x, token), done) ↦ rw (extend_session, good, done) paid
        ]
  ]
