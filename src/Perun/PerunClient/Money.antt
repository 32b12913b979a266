-- ===== src/Perun/PerunClient/Money.antt =====
-- The balances of the channels of internal/perun/perun_client.go, over any calls of the client.
use air_fi.Base.{
  String, ◌≡◌, refl, sym, ap, ◌∙◌, subst, inl, inr, true, some, List, [], ◌∷◌, Result, str_eq,
  eq_iff, arith, Bool-cases, Option-cases, Result-cases,
}
use air_fi.Base.Int.{ℤ, ◌+ℤ◌, give_take, take_give}
use air_fi.Base.Map.{lookup, insert, lookup-insert}
use air_fi.Perun.PerunClient.{
  PaymentChannel, PerunState, settled, funded, disputed, force_closed, PerunClientError, Sdk,
  ChannelState, Channels, send_payment, receive_payment, on_chain, closing, disputing, forcing,
  settle_channel, dispute_channel, force_close_channel, fund_channel,
}

module _ {Params Account : Type 0} where
  -- The same channel, with the same parties and as much money.
  pub record SameMoney (ch ch' : PaymentChannel Params Account) : Type 0 where
    pub same_total : ch'.my_balance +ℤ ch'.peer_balance ≡ ch.my_balance +ℤ ch.peer_balance
    pub same_params : ch'.params ≡ ch.params
    pub same_peer : ch'.peer_account ≡ ch.peer_account

  abbrev pub Keeps : Channels Params Account → Channels Params Account → Type 0
  Keeps before after =
      (id : String) (ch : PaymentChannel Params Account)
      → lookup id before ≡ some ch
      → (ch' : PaymentChannel Params Account) × (lookup id after ≡ some ch') × SameMoney ch ch'

  pub Keeps-refl : (m : Channels Params Account) → Keeps m m
  Keeps-refl m id ch e = (ch, e, record { same_total = refl; same_params = refl; same_peer = refl })

  pub Keeps-trans : (a b c : Channels Params Account) → Keeps a b → Keeps b c → Keeps a c
  Keeps-trans a b c h k id ch e =
      let (ch1, e1, s1) = h id ch e in
      let (ch2, e2, s2) = k id ch1 e1 in
      (
        ch2,
        e2,
        record {
          same_total = s2.same_total ∙ s1.same_total;
          same_params = s2.same_params ∙ s1.same_params;
          same_peer = s2.same_peer ∙ s1.same_peer;
        },
      )

  -- A channel that is found under two keys is one channel.
  found_same :
      (m : Channels Params Account) (key id : String) (ch old : PaymentChannel Params Account)
      → str_eq key id ≡ true
      → lookup key m ≡ some ch
      → lookup id m ≡ some old
      → some ch ≡ some old
  found_same m key id ch old hit found e =
      let same : key ≡ id = ground (arith, eq_iff key id) in
      sym found ∙ (ap (λ k. lookup k m) same ∙ e)

  some_inj : {a b : PaymentChannel Params Account} → some a ≡ some b → a ≡ b
  some_inj e = cc e

  insert-Keeps :
      (m : Channels Params Account) (key : String) (ch ch' : PaymentChannel Params Account)
      → lookup key m ≡ some ch
      → SameMoney ch ch'
      → Keeps m (insert key ch' m)
  insert-Keeps m key ch ch' found same id old e = elim (Bool-cases (str_eq key id)) [
    | inl hit ↦ (
      ch',
      rw (lookup-insert, hit) refl,
      subst (λ c. SameMoney c ch') (some_inj (found_same m key id ch old hit found e)) same,
    )
    | inr miss ↦ (
      old,
      rw (lookup-insert, miss) e,
      record { same_total = refl; same_params = refl; same_peer = refl },
    )
  ]

  send_payment-Keeps :
      (m : Channels Params Account) (id : String) (amount now : ℤ)
      → Keeps m (send_payment m id amount now).0
  unfolding send_payment
  send_payment-Keeps m id amount now = elim (Option-cases (lookup id m)) [
    | inl missing ↦ rw (send_payment, missing) (Keeps-refl m)
    | inr (ch, found) ↦
        rw (send_payment, found)
          (insert-Keeps m id ch _ found (record {
            same_total = give_take ch.my_balance ch.peer_balance amount;
            same_params = refl;
            same_peer = refl;
          }))
  ]

  receive_payment-Keeps :
      (m : Channels Params Account) (id : String) (amount now : ℤ)
      → Keeps m (receive_payment m id amount now).0
  unfolding receive_payment
  receive_payment-Keeps m id amount now = elim (Option-cases (lookup id m)) [
    | inl missing ↦ rw (receive_payment, missing) (Keeps-refl m)
    | inr (ch, found) ↦
        rw (receive_payment, found)
          (insert-Keeps m id ch _ found (record {
            same_total = take_give ch.my_balance ch.peer_balance amount;
            same_params = refl;
            same_peer = refl;
          }))
  ]

  -- A new state and a new time leave the money as it is.
  mark-Keeps :
      (m : Channels Params Account) (id : String) (ch : PaymentChannel Params Account)
      (next : PerunState) (now : ℤ)
      → lookup id m ≡ some ch
      → Keeps m (insert id (record ch { state = next; updated_at = now }) m)
  mark-Keeps m id ch next now found =
      insert-Keeps m id ch _ found
        (record { same_total = refl; same_params = refl; same_peer = refl })

  on_chain-Keeps :
      (calls : PaymentChannel Params Account → String → Result PerunClientError (Unit {0}))
      (next : PerunState) (m : Channels Params Account) (id : String) (now : ℤ)
      → Keeps m (on_chain calls next m id now).0
  on_chain-Keeps calls next m id now = elim (Option-cases (lookup id m)) [
    | inl missing ↦ rw (on_chain, missing) (Keeps-refl m)
    | inr (ch, found) ↦ elim (Result-cases (calls ch id)) [
      | inl (e, failed) ↦ rw (on_chain, found, failed) (Keeps-refl m)
      | inr (u, done) ↦ rw (on_chain, found, done) (mark-Keeps m id ch next now found)
    ]
  ]

  fund_channel-Keeps :
      (sdk : Sdk Params Account) (m : Channels Params Account) (pcts : String) (params : Params)
      (state : ChannelState) (now : ℤ)
      → Keeps m (fund_channel sdk m pcts params state now).0
  unfolding fund_channel
  fund_channel-Keeps sdk m pcts params state now = elim (Bool-cases (sdk.fund pcts state params)) [
    | inr failed ↦ rw (fund_channel, failed) (Keeps-refl m)
    | inl done ↦ elim (Option-cases (lookup (sdk.params_id params) m)) [
      | inl missing ↦ rw (fund_channel, done, missing) (Keeps-refl m)
      | inr (ch, found) ↦
          rw (fund_channel, done, found) (mark-Keeps m (sdk.params_id params) ch funded now found)
    ]
  ]

-- A call on a channel that is there, with the time at which it is made.
pub data Call (Params : Type 0) : Type 0 where
  sends receives : String → ℤ → ℤ → Call Params
  settles disputes force_closes : String → ℤ → Call Params
  funds : String → Params → ChannelState → ℤ → Call Params

module _ {Params Account : Type 0} (sdk : Sdk Params Account) where
  abbrev pub step : Channels Params Account → Call Params → Channels Params Account
  step m (sends id amount now) = (send_payment m id amount now).0
  step m (receives id amount now) = (receive_payment m id amount now).0
  step m (settles id now) = (settle_channel sdk m id now).0
  step m (disputes id now) = (dispute_channel sdk m id now).0
  step m (force_closes id now) = (force_close_channel sdk m id now).0
  step m (funds pcts params state now) = (fund_channel sdk m pcts params state now).0

  abbrev pub run : Channels Params Account → List (Call Params) → Channels Params Account
  run m [] = m
  run m (x ∷ xs) = run (step m x) xs

  pub step-Keeps : (m : Channels Params Account) (x : Call Params) → Keeps m (step m x)
  unfolding settle_channel dispute_channel force_close_channel
  step-Keeps m (sends id amount now) = send_payment-Keeps m id amount now
  step-Keeps m (receives id amount now) = receive_payment-Keeps m id amount now
  step-Keeps m (settles id now) = on_chain-Keeps (closing sdk) settled m id now
  step-Keeps m (disputes id now) = on_chain-Keeps (disputing sdk) disputed m id now
  step-Keeps m (force_closes id now) = on_chain-Keeps (forcing sdk) force_closed m id now
  step-Keeps m (funds pcts params state now) = fund_channel-Keeps sdk m pcts params state now

  run-Keeps : (xs : List (Call Params)) (m : Channels Params Account) → Keeps m (run m xs)
  run-Keeps [] m = Keeps-refl m
  run-Keeps (x ∷ xs) m =
      Keeps-trans m (step m x) (run (step m x) xs) (step-Keeps m x) (run-Keeps xs (step m x))

  -- After any payments, fundings, settlements, disputes and forced closings, on any channels and
  -- whether or not the calls of the libraries succeed, a channel that was there is still there, with
  -- the same parameters and peer, and its two balances add up to what they did before.
  pub run-SameMoney :
      (xs : List (Call Params)) (m : Channels Params Account) (id : String)
      (ch : PaymentChannel Params Account)
      → lookup id m ≡ some ch
      → (ch' : PaymentChannel Params Account) × (lookup id (run m xs) ≡ some ch') × SameMoney ch ch'
  run-SameMoney xs m id ch found = run-Keeps xs m id ch found
