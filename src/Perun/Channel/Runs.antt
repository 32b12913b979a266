-- ===== src/Perun/Channel/Runs.antt =====
-- Sequences of calls on one channel: the invariant of every step and of every run.
use air_fi.Base.{
  ◌+◌, ◌≤◌, ◌<◌, ◌^◌, ◌≡◌, refl, ◌⊎◌, inl, inr, sym, ◌∙◌, Bool, Option, List, [], ◌∷◌, arith,
  Result-cases, length,
}
use air_fi.Base.Int.{ℤ, ◌+ℤ◌, ◌-ℤ◌, give_take, take_give, sub_covered, add_nonneg}
use air_fi.Base.Word.{add_u64-eq}
use air_fi.Perun.Crypto.{Crypto}
use air_fi.Perun.Channel.{
  Channel, open_state, closed, payment_guard, send_payment, receive_amount, receive_payment, settle,
}
use air_fi.Perun.Channel.Invariant.{
  IsValid, IsPayable, commit-IsValid, payment_guard-IsPayable, send_amount-eq,
}
use air_fi.Perun.Channel.Payments.{send_payment_moves, receive_payment_moves}
use air_fi.Perun.Channel.Settlement.{settle-SameMoney, settle_outcome, settle-IsValid}

-- A call, with the time at which it is made.
pub data Call : Type 0 where
  sends receives : ℤ → Option ℤ → Call
  settles : ℤ → Bool → Call

module _ (c : Crypto) where
  step : Channel → Call → Channel
  step ch (sends now amount) = (send_payment c now ch amount).0
  step ch (receives now amount) = (receive_payment c now ch amount).0
  step ch (settles now cancel) = (settle c now cancel ch).0

  pub run : Channel → List Call → Channel
  run ch [] = ch
  run ch (x ∷ xs) = run (step ch x) xs

  send_payment-IsValid :
      (now : ℤ) (ch : Channel) (amount : Option ℤ)
      → IsValid c ch
      → ch.version + 1 < 2 ^ 64
      → IsValid c (send_payment c now ch amount).0
  unfolding send_payment
  send_payment-IsValid now ch amount v small =
      elim (Result-cases (payment_guard ch.state amount ch.my_balance)) [
        | inl (e, p) ↦ rw (p, send_payment) v
        | inr (a, p) ↦
            let payable : IsPayable ch.state amount ch.my_balance a =
              payment_guard-IsPayable _ _ _ _ p in
            rw (p, send_payment, send_amount-eq c now ch a)
              (commit-IsValid c now ch (ch.my_balance -ℤ a) (ch.peer_balance +ℤ a) v small
                (sub_covered ch.my_balance a payable.covered)
                (add_nonneg ch.peer_balance a v.peers payable.positive)
                (give_take ch.my_balance ch.peer_balance a ∙ v.conserved))
      ]

  pub receive_payment-IsValid :
      (now : ℤ) (ch : Channel) (amount : Option ℤ)
      → IsValid c ch
      → ch.version + 1 < 2 ^ 64
      → IsValid c (receive_payment c now ch amount).0
  unfolding receive_payment receive_amount
  receive_payment-IsValid now ch amount v small =
      elim (Result-cases (payment_guard ch.state amount ch.peer_balance)) [
        | inl (e, p) ↦ rw (p, receive_payment) v
        | inr (a, p) ↦
            let payable : IsPayable ch.state amount ch.peer_balance a =
              payment_guard-IsPayable _ _ _ _ p in
            rw (p, receive_payment)
              (commit-IsValid c now ch (ch.my_balance +ℤ a) (ch.peer_balance -ℤ a) v small
                (add_nonneg ch.my_balance a v.mine payable.positive)
                (sub_covered ch.peer_balance a payable.covered)
                (take_give ch.my_balance ch.peer_balance a ∙ v.conserved))
      ]

  step-IsValid :
      (ch : Channel) (x : Call) → IsValid c ch → ch.version + 1 < 2 ^ 64 → IsValid c (step ch x)
  unfolding step
  step-IsValid ch (sends now amount) v small = send_payment-IsValid now ch amount v small
  step-IsValid ch (receives now amount) v small = receive_payment-IsValid now ch amount v small
  step-IsValid ch (settles now cancel) v small = settle-IsValid c now cancel ch v

  -- A call raises the version by at most one.
  step_version :
      (ch : Channel) (x : Call) → ch.version + 1 < 2 ^ 64 → (step ch x).version ≤ ch.version + 1
  unfolding step
  step_version ch (sends now amount) small = elim (send_payment_moves c now ch amount) [
    | inl (a, _, paid, _) ↦ omega (arith, paid.next_version, add_u64-eq ch.version 1 small)
    | inr (e, p, _) ↦ rw (p, step) (omega arith)
  ]
  step_version ch (receives now amount) small = elim (receive_payment_moves c now ch amount) [
    | inl (a, _, paid, _) ↦ omega (arith, paid.next_version, add_u64-eq ch.version 1 small)
    | inr (e, p, _) ↦ rw (p, step) (omega arith)
  ]
  step_version ch (settles now cancel) small =
      omega (arith, (settle-SameMoney c now cancel ch).same_version)

  -- Any sequence of calls keeps a valid channel valid: no balance goes below zero, the balances
  -- add up to the funding, and the history has every version with the current one last. The
  -- version counter must have room for the calls.
  pub run-IsValid :
      (ch : Channel) (xs : List Call)
      → IsValid c ch
      → ch.version + length xs < 2 ^ 64
      → IsValid c (run ch xs)
  unfolding run
  run-IsValid ch [] v small = v
  run-IsValid ch (x ∷ xs) v small =
      let first : ch.version + 1 < 2 ^ 64 = omega arith in
      run-IsValid (step ch x) xs (step-IsValid ch x v first)
        (omega (arith, step_version ch x first))

  -- No call changes how much was put into the channel, nor its name.
  step_total : (ch : Channel) (x : Call) → (step ch x).total_funding ≡ ch.total_funding
  unfolding step
  step_total ch (sends now amount) = elim (send_payment_moves c now ch amount) [
    | inl (a, _, paid, _) ↦ paid.same_total
    | inr (e, p, _) ↦ rw (p, step)
  ]
  step_total ch (receives now amount) = elim (receive_payment_moves c now ch amount) [
    | inl (a, _, paid, _) ↦ paid.same_total
    | inr (e, p, _) ↦ rw (p, step)
  ]
  step_total ch (settles now cancel) = (settle-SameMoney c now cancel ch).same_total

  run_total : (ch : Channel) (xs : List Call) → (run ch xs).total_funding ≡ ch.total_funding
  unfolding run
  run_total ch [] = refl
  run_total ch (x ∷ xs) = run_total (step ch x) xs ∙ step_total ch x

  -- After any sequence of calls on a valid channel the two balances still add up to the funding
  -- that the channel had at the start.
  pub run_conserves :
      (ch : Channel) (xs : List Call)
      → IsValid c ch
      → ch.version + length xs < 2 ^ 64
      → (run ch xs).my_balance +ℤ (run ch xs).peer_balance ≡ ch.my_balance +ℤ ch.peer_balance
  run_conserves ch xs v small =
      (run-IsValid ch xs v small).conserved ∙ run_total ch xs ∙ sym v.conserved

  step_closed : (ch : Channel) (x : Call) → ch.state ≡ closed → step ch x ≡ ch
  unfolding step send_payment receive_payment settle
  step_closed ch (sends now amount) e = rw (e, payment_guard) refl
  step_closed ch (receives now amount) e = rw (e, payment_guard) refl
  step_closed ch (settles now cancel) e = rw e refl

  -- A closed channel is final: no sequence of calls changes anything of it.
  pub run_closed : (ch : Channel) (xs : List Call) → ch.state ≡ closed → run ch xs ≡ ch
  unfolding run
  run_closed ch [] e = refl
  run_closed ch (x ∷ xs) e = rw (step_closed ch x e) (run_closed ch xs e)

  step_states :
      (ch : Channel) (x : Call)
      → ((ch.state ≡ open_state) ⊎ (ch.state ≡ closed))
      → (((step ch x).state ≡ open_state) ⊎ ((step ch x).state ≡ closed))
  unfolding step
  step_states ch x (inr e) = rw (step_closed ch x e) (inr e)
  step_states ch (sends now amount) (inl o) = elim (send_payment_moves c now ch amount) [
    | inl (a, _, paid, _) ↦ inl (paid.same_state ∙ o)
    | inr (e, p, _) ↦ rw (p, step) (inl o)
  ]
  step_states ch (receives now amount) (inl o) = elim (receive_payment_moves c now ch amount) [
    | inl (a, _, paid, _) ↦ inl (paid.same_state ∙ o)
    | inr (e, p, _) ↦ rw (p, step) (inl o)
  ]
  step_states ch (settles now cancel) (inl o) = ground (arith, settle_outcome c now cancel ch)

  -- Between calls an opened channel is only ever open or closed: `settling` never outlives a call.
  pub run_states :
      (ch : Channel) (xs : List Call)
      → ch.state ≡ open_state
      → ((run ch xs).state ≡ open_state) ⊎ ((run ch xs).state ≡ closed)
  unfolding run
  run_states ch xs o = go ch xs (inl o)
    where
      go :
          (ch : Channel) (xs : List Call)
          → ((ch.state ≡ open_state) ⊎ (ch.state ≡ closed))
          → (((run ch xs).state ≡ open_state) ⊎ ((run ch xs).state ≡ closed))
      go ch [] h = h
      go ch (x ∷ xs) h = go (step ch x) xs (step_states ch x h)
