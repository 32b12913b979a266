-- ===== src/Api/Payments.antt =====
-- What ProcessPayment of internal/api/handler.go does, on every branch: the money first, and then
-- the time that it buys.
use air_fi.Base.{
  true, false, arith, ◌≢◌, ◌≡◌, refl, sym, ap, ◌∙◌, subst, ◌⊎◌, inl, inr, String, Option, none,
  some, [], ◌∷◌, ok, err, str_eq, Bool-cases, Option-cases, Result-cases,
}
use air_fi.Base.Bytes.{codes}
use air_fi.Base.Decimal.{set_string}
use air_fi.Base.Int.{ℤ, ◌+ℤ◌, ◌-ℤ◌}
use air_fi.Base.Map.{Map, lookup, insert, lookup-insert_self}
use air_fi.Perun.Crypto.{Crypto}
use air_fi.Perun.Channel.{Channel, ChannelUpdate, receive_payment}
use air_fi.Perun.Channel.Invariant.{IsPayable}
use air_fi.Perun.Channel.Payments.{Paid, receive_payment_moves}
use air_fi.Perun.Client.{get_channel as get_perun_channel}
use air_fi.Session.Defs.{Session, SessionStatus, pending, active, ended, expired}
use air_fi.Session.Store.{StoreError, get_by_channel}
use air_fi.Session.Store.Invariant.{IsWellFormed}
use air_fi.Session.Manager.{Manager, ManagerError, activate_session, extend_session}
use air_fi.Api.{
  Handler, PaymentRequest, paid, ok_json, not_found, manager_failure, internal_error, Response,
}
use air_fi.Api.Handlers.{
  manager_of, with_manager, is_pending, activate_paid, client_after, put_channel, payment_amount,
  amount_of, required, payment_response, pay_session, credit_session, process_payment,
}
use air_fi.Api.Safety.Changes.{pay_session-Keeps}

-- Putting back what is there changes nothing.
insert_same :
    {A : Type 0} (id : String) (a : A) (m : Map A) → lookup id m ≡ some a → insert id a m ≡ m
unfolding lookup insert
insert_same id a [] e = cc
insert_same id a ((k, b) ∷ m) e = elim (Bool-cases (str_eq k id)) [
  | inl hit ↦ rw hit (ap (λ x. (k, x) ∷ m) (some_eq (sym (rw hit at e))))
  | inr miss ↦ rw miss (ap (λ x. (k, b) ∷ x) (insert_same id a m (rw miss at e)))
]
  where
    some_eq : {A : Type 0} {x y : A} → some x ≡ some y → x ≡ y
    some_eq e = cc

refused_text :
    (text refused : String) (r : Response) → amount_of text refused ≡ err r → r.status ≡ 400
refused_text text refused r e = elim (Option-cases (set_string (codes text))) [
  | inl bad ↦ cc (rw bad at e)
  | inr (a, good) ↦ cc (rw good at e)
]

refused_amount :
    (req : Option PaymentRequest) (r : Response) → payment_amount req ≡ err r → r.status ≡ 400
unfolding payment_amount
refused_amount none r e = cc e
refused_amount (some req) r e = elim (Bool-cases (required req.amount)) [
  | inl given ↦ refused_text req.amount "invalid amount" r (rw (payment_amount, given) at e)
  | inr empty ↦ cc (rw (payment_amount, empty) at e)
]

module _ (c : Crypto) where
  -- The manager that an activation of a pending session leaves, or an extension of any other.
  abbrev pub IsSold : Manager → Session → ℤ → ℤ → Manager → Session → String → Type 0
  IsSold m s amount now m' s' token =
      ((s.status ≡ pending) × (activate_session m s.id amount now ≡ ok (m', s', token)))
      ⊎ ((s.status ≢ pending) × (extend_session m s.id amount now ≡ (m', ok (s', token))))

  -- What a refused activation or extension leaves.
  abbrev pub IsRefused : Manager → Session → ℤ → ℤ → Manager → ManagerError → Type 0
  IsRefused m s amount now m' e =
      ((s.status ≡ pending) × (activate_session m s.id amount now ≡ err e) × (m' ≡ m))
      ⊎ ((s.status ≢ pending) × (extend_session m s.id amount now ≡ (m', err e)))

  -- The handler with the same client and this manager.
  abbrev pub with_sessions : Handler → Manager → Handler
  with_sessions h m = record { perun_client = h.perun_client; session_manager = m }

  -- The session of a channel after a payment, and the answer.
  pub data Credited (h : Handler) (id : String) (ch : Channel) (amount now : ℤ)
      (after : Handler × Response) : Type 0 where
    no_session :
        (e : StoreError)
        → get_by_channel h.session_manager.store id ≡ err e
        → after ≡ (h, not_found "session not found")
        → Credited h id ch amount now after
    no_time :
        (s : Session) (m : Manager) (e : ManagerError)
        → get_by_channel h.session_manager.store id ≡ ok s
        → IsRefused (manager_of h) s amount now m e
        → after ≡ (with_sessions h m, internal_error (manager_failure e))
        → Credited h id ch amount now after
    time_sold :
        (s s' : Session) (m : Manager) (token : String)
        → get_by_channel h.session_manager.store id ≡ ok s
        → IsSold (manager_of h) s amount now m s' token
        → after ≡ (with_sessions h m, ok_json (paid (payment_response c ch s' token)))
        → Credited h id ch amount now after

  pending-cases :
      (st : SessionStatus)
      → ((st ≡ pending) × (is_pending st ≡ true)) ⊎ ((st ≢ pending) × (is_pending st ≡ false))
  pending-cases pending = inl (refl, refl)
  pending-cases active = inr (ground arith, refl)
  pending-cases ended = inr (ground arith, refl)
  pending-cases expired = inr (ground arith, refl)

  pay_session-cases :
      (m : Manager) (s : Session) (amount now : ℤ)
      → ((e : ManagerError) × ((pay_session c m s amount now).1 ≡ err e)
          × IsRefused m s amount now (pay_session c m s amount now).0 e)
        ⊎ ((s' : Session) × (token : String) × ((pay_session c m s amount now).1 ≡ ok (s', token))
            × IsSold m s amount now (pay_session c m s amount now).0 s' token)
  unfolding pay_session activate_paid
  pay_session-cases m s amount now = elim (pending-cases s.status) [
    | inl (first, test) ↦ elim (Result-cases (activate_session m s.id amount now)) [
      | inl (e, bad) ↦ inl (
        e,
        rw (pay_session, test, activate_paid, bad) refl,
        inl (first, bad, rw (pay_session, test, activate_paid, bad) refl),
      )
      | inr ((m', s', token), good) ↦ inr (
        s',
        token,
        rw (pay_session, test, activate_paid, good) refl,
        inl (first, rw (pay_session, test, activate_paid, good) refl),
      )
    ]
    | inr (later, test) ↦
        let r = extend_session m s.id amount now in
        elim (Result-cases r.1) [
          | inl (e, bad) ↦ inl (
            e,
            rw (pay_session, test) bad,
            inr (later, rw (pay_session, test) (ap (λ x. (r.0, x)) bad)),
          )
          | inr ((s', token), good) ↦ inr (
            s',
            token,
            rw (pay_session, test) good,
            inr (later, rw (pay_session, test) (ap (λ x. (r.0, x)) good)),
          )
        ]
  ]

  with_manager-eq :
      (h : Handler) (m : Manager)
      → m.perun_client ≡ some h.perun_client
      → with_manager h m ≡ with_sessions h m
  with_manager-eq h m e =
      ap (λ cl. record { perun_client = client_after h.perun_client cl; session_manager = m }) e

  credit_session-Credited :
      (h : Handler) (id : String) (ch : Channel) (amount now : ℤ)
      → IsWellFormed h.session_manager.store
      → Credited h id ch amount now (credit_session c h id ch amount now)
  unfolding credit_session
  credit_session-Credited h id ch amount now w =
      elim (Result-cases (get_by_channel h.session_manager.store id)) [
        | inl (e, missing) ↦ no_session e missing (rw (credit_session, missing) refl)
        | inr (s, found) ↦
            let m' = (pay_session c (manager_of h) s amount now).0 in
            let left : with_manager h m' ≡ with_sessions h m' =
              with_manager-eq h m'
                (pay_session-Keeps c (manager_of h) s amount now w).same_client in
            elim (pay_session-cases (manager_of h) s amount now) [
              | inl (e, refused, why) ↦ no_time s m' e found why (
                  rw (credit_session, found, refused)
                    (ap (λ x. (x, internal_error (manager_failure e))) left))
              | inr (s', token, done, sold) ↦ time_sold s s' m' token found sold (
                  rw (credit_session, found, done)
                    (ap (λ x. (x, ok_json (paid (payment_response c ch s' token)))) left))
            ]
      ]

  -- Selling time does not touch the client.
  Credited-client :
      (h : Handler) (id : String) (ch : Channel) (amount now : ℤ) (after : Handler × Response)
      → Credited h id ch amount now after
      → after.0.perun_client ≡ h.perun_client
  Credited-client h id ch amount now after (no_session e missing p) = ap (λ r. r.0.perun_client) p
  Credited-client h id ch amount now after (no_time s m e found why p) =
      ap (λ r. r.0.perun_client) p
  Credited-client h id ch amount now after (time_sold s s' m token found sold p) =
      ap (λ r. r.0.perun_client) p

  -- What a payment that the channel takes has done.
  pub record Received (h : Handler) (id : String) (req : Option PaymentRequest) (now : ℤ)
      : Type 0 where
    pub amount : ℤ
    pub ch : Channel
    pub ch' : Channel
    pub asked : payment_amount req ≡ ok amount
    pub was : lookup id h.perun_client.channels ≡ some ch
    pub payable : IsPayable ch.state (some amount) ch.peer_balance amount
    pub moved : Paid c now (ch.my_balance +ℤ amount) (ch.peer_balance -ℤ amount) ch ch'
    pub kept : lookup id (process_payment c h id req now).0.perun_client.channels ≡ some ch'
    pub credited :
        Credited (put_channel h id ch') id ch' amount now (process_payment c h id req now)

  received :
      (h : Handler) (id : String) (req : Option PaymentRequest) (now amount a : ℤ) (ch : Channel)
      → IsWellFormed h.session_manager.store
      → payment_amount req ≡ ok amount
      → lookup id h.perun_client.channels ≡ some ch
      → IsPayable ch.state (some amount) ch.peer_balance a
      → Paid c now
          (ch.my_balance +ℤ a)
          (ch.peer_balance -ℤ a)
          ch
          (receive_payment c now ch (some amount)).0
      → (u : ChannelUpdate) → (receive_payment c now ch (some amount)).1 ≡ ok u
      → Received h id req now
  unfolding process_payment get_perun_channel
  received h id req now amount a ch w asked here payable move u done =
      let ch' = (receive_payment c now ch (some amount)).0 in
      let h1 = put_channel h id ch' in
      let one : a ≡ amount = some_eq (sym payable.given) in
      let credit = credit_session-Credited h1 id ch' amount now w in
      let client =
        Credited-client h1 id ch' amount now (credit_session c h1 id ch' amount now) credit in
      record {
        amount = amount;
        ch = ch;
        ch' = ch';
        asked = asked;
        was = here;
        payable = subst (IsPayable ch.state (some amount) ch.peer_balance) one payable;
        moved = subst (λ b. Paid c now (ch.my_balance +ℤ b) (ch.peer_balance -ℤ b) ch ch') one move;
        kept =
            rw (process_payment, asked, here, done)
              (ap (λ cl. lookup id cl.channels) client
                ∙ lookup-insert_self id ch' h.perun_client.channels);
        credited = rw (process_payment, asked, here, done) credit;
      }
    where
      some_eq : {x y : ℤ} → some x ≡ some y → x ≡ y
      some_eq e = cc

  -- Over a store whose two maps agree: either the request is refused with 400 or 404 and nothing
  -- changes; or the channel is open, the peer's balance covers the amount, and the amount has moved to
  -- the provider's balance for good. In that case the answer is 200 and the manager is the one that
  -- the activation of the channel's session leaves, where it was pending, or its extension; or 500
  -- with what a refused activation or extension leaves; or 404 where the channel has no session.
  pub process_payment_outcome :
      (h : Handler) (id : String) (req : Option PaymentRequest) (now : ℤ)
      → IsWellFormed h.session_manager.store
      → (((process_payment c h id req now).0 ≡ h)
          × (((process_payment c h id req now).1.status ≡ 400)
              ⊎ ((process_payment c h id req now).1.status ≡ 404)))
        ⊎ Received h id req now
  unfolding process_payment get_perun_channel
  process_payment_outcome h id req now w = elim (Result-cases (payment_amount req)) [
    | inl (r, bad) ↦
        inl (
          rw (process_payment, bad) refl,
          inl (rw (process_payment, bad) (refused_amount req r bad)),
        )
    | inr (amount, good) ↦ elim (Option-cases (lookup id h.perun_client.channels)) [
      | inl missing ↦
          inl (
            rw (process_payment, good, missing) refl,
            inr (rw (process_payment, good, missing) refl),
          )
      | inr (ch, here) ↦ elim (receive_payment_moves c now ch (some amount)) [
        | inl (a, payable, move, done) ↦
            inr (received h id req now amount a ch w good here payable move _ done)
        | inr (e, p, unpayable) ↦
            let same : put_channel h id ch ≡ h =
              ap (λ m. record h { perun_client = record h.perun_client { channels = m } })
                (insert_same id ch h.perun_client.channels here) in
            let failed : (receive_payment c now ch (some amount)).1 ≡ err e = ap (λ r. r.1) p in
            inl (
              rw (process_payment, good, here, failed) (ap (λ r. put_channel h id r.0) p ∙ same),
              inl (rw (process_payment, good, here, failed) refl),
            )
      ]
    ]
  ]
