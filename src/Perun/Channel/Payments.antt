-- ===== src/Perun/Channel/Payments.antt =====
-- What SendPayment, ReceivePayment and Settle of internal/perun/channel.go do, on every branch, and
-- what holds after any sequence of them.
use air_fi.Base.{◌≡◌, refl, ◌⊎◌, inl, inr, Option, [], ◌∷◌, ◌++◌, ok, err, Result-cases}
use air_fi.Base.Int.{ℤ, ◌+ℤ◌, ◌-ℤ◌}
use air_fi.Base.Word.{add_u64}
use air_fi.Perun.Crypto.{Crypto}
use air_fi.Perun.Channel.{
  Channel, ChannelError, compute_state_hash, snapshot, update_of, payment_guard, commit,
  send_payment, receive_amount, receive_payment,
}
use air_fi.Perun.Channel.Invariant.{
  IsPayable, IsLatest, payment_guard-IsPayable, payment_guard-ok, send_amount-eq,
}

-- What one payment has done: `a` moved between the two balances under the next version.
pub record Paid (c : Crypto) (now : ℤ) (mine peers : ℤ) (ch ch' : Channel) : Type 0 where
  pub my_new : ch'.my_balance ≡ mine
  pub peer_new : ch'.peer_balance ≡ peers
  pub next_version : ch'.version ≡ add_u64 ch.version 1
  pub appended : ch'.state_history ≡ ch.state_history ++ snapshot now ch' ∷ []
  pub same_state : ch'.state ≡ ch.state
  pub same_total : ch'.total_funding ≡ ch.total_funding
  pub same_id : ch'.id ≡ ch.id
  pub touched : ch'.updated_at ≡ now
  pub latest : IsLatest c ch' (snapshot now ch')

module _ (c : Crypto) (now : ℤ) where
  commit-Paid :
      (ch : Channel) (mine peers : ℤ)
      → Paid c now mine peers ch (commit c now ch (add_u64 ch.version 1) mine peers)
  unfolding commit compute_state_hash
  commit-Paid ch mine peers = record {
    my_new = refl;
    peer_new = refl;
    next_version = refl;
    appended = refl;
    same_state = refl;
    same_total = refl;
    same_id = refl;
    touched = refl;
    latest = record {
      same_version = refl;
      same_mine = refl;
      same_peer = refl;
      same_hash = refl;
      hashed = refl;
      signed = refl;
    };
  }

  -- On an open channel a positive amount that our balance covers is paid, and the update reports
  -- the new state; in every other case the call fails and the channel is unchanged.
  pub send_payment_moves :
      (ch : Channel) (amount : Option ℤ)
      → ((a : ℤ) × IsPayable ch.state amount ch.my_balance a
          × Paid c now
              (ch.my_balance -ℤ a)
              (ch.peer_balance +ℤ a)
              ch
              (send_payment c now ch amount).0
          × ((send_payment c now ch amount).1 ≡ ok (update_of (send_payment c now ch amount).0)))
        ⊎ ((e : ChannelError) × (send_payment c now ch amount ≡ (ch, err e))
            × ((a : ℤ) → ¬ IsPayable ch.state amount ch.my_balance a))
  unfolding send_payment
  send_payment_moves ch amount = elim (Result-cases (payment_guard ch.state amount ch.my_balance)) [
    | inl (e, p) ↦
        inr (e, rw (p, send_payment) refl, λ a payable. cc (p, payment_guard-ok _ _ _ _ payable))
    | inr (a, p) ↦ inl (
      a,
      payment_guard-IsPayable _ _ _ _ p,
      rw (p, send_payment, send_amount-eq c now ch a) (commit-Paid ch _ _),
      rw (p, send_payment, send_amount-eq c now ch a) refl,
    )
  ]

  -- On an open channel a positive amount that the peer's balance covers is received: it moves from
  -- the peer's balance to ours, and the update reports the new state. In every other case the call
  -- fails and the channel is unchanged.
  pub receive_payment_moves :
      (ch : Channel) (amount : Option ℤ)
      → ((a : ℤ) × IsPayable ch.state amount ch.peer_balance a
          × Paid c now
              (ch.my_balance +ℤ a)
              (ch.peer_balance -ℤ a)
              ch
              (receive_payment c now ch amount).0
          × ((receive_payment c now ch amount).1
              ≡ ok (update_of (receive_payment c now ch amount).0)))
        ⊎ ((e : ChannelError) × (receive_payment c now ch amount ≡ (ch, err e))
            × ((a : ℤ) → ¬ IsPayable ch.state amount ch.peer_balance a))
  unfolding receive_payment receive_amount
  receive_payment_moves ch amount =
      elim (Result-cases (payment_guard ch.state amount ch.peer_balance)) [
        | inl (e, p) ↦
            inr (
              e,
              rw (p, receive_payment) refl,
              λ a payable. cc (p, payment_guard-ok _ _ _ _ payable),
            )
        | inr (a, p) ↦ inl (
          a,
          payment_guard-IsPayable _ _ _ _ p,
          rw (p, receive_payment) (commit-Paid ch _ _),
          rw (p, receive_payment) refl,
        )
      ]
