-- ===== src/Perun/Channel.antt =====
-- internal/perun/channel.go: the payment channel, its states, and the four operations that change it.
-- `time.Now()` is an argument, one reading for each call; so is whether the context is cancelled
-- while the call waits.
pub mod Invariant
pub mod Payments
pub mod Runs
pub mod Settlement
use air_fi.Base.{
  ℕ, String, Bool, true, false, not, ◌==◌, Option, some, List, [], ◌∷◌, ◌++◌, if◌then◌else◌, Result,
  ok, err, ◌>>=◌, ◌>>◌, fail_if, or_fail,
}
use air_fi.Base.Int.{ℤ, ◌+ℤ◌, ◌-ℤ◌, ltb_ℤ, non_positive}
use air_fi.Base.Word.{add_u64}
use air_fi.Base.Bytes.{Bytes, codes, big_bytes, abs, put_uint64_be, hex_encode, decimal, decimal_ℤ}
use air_fi.Perun.Crypto.{Crypto, sign_data}

pub data ChannelState : Type 0 where
  initiating funding open_state settling closed : ChannelState

pub record SignedState : Type 0 where
  pub channel_id : String
  pub version : ℕ
  pub my_balance : ℤ
  pub peer_balance : ℤ
  pub state_hash : Bytes
  pub signature : Bytes
  pub timestamp : ℤ

pub record Channel : Type 0 where
  pub id : String
  pub peer_address : String
  pub state : ChannelState
  pub version : ℕ
  pub my_balance : ℤ
  pub peer_balance : ℤ
  pub total_funding : ℤ
  pub created_at : ℤ
  pub updated_at : ℤ
  pub settled_at : Option ℤ
  pub state_hash : Bytes
  pub my_signature : Bytes
  pub funding_tx_hash : Bytes
  pub settlement_tx_hash : Bytes
  pub challenge_duration : ℤ
  pub nonce : ℕ
  pub state_history : List SignedState

pub record ChannelUpdate : Type 0 where
  pub channel_id : String
  pub version : ℕ
  pub my_balance : ℤ
  pub peer_balance : ℤ
  pub state_hash : Bytes
  pub timestamp : ℤ

-- A `nil` amount is `none`.
pub record OpenChannelRequest : Type 0 where
  pub peer_address : String
  pub my_funding : Option ℤ
  pub peer_funding : Option ℤ
  pub challenge_dur : ℤ

pub data ChannelError : Type 0 where
  not_connected peer_required peer_funding_not_positive cancelled : ChannelError
  not_open : ChannelState → ChannelError
  amount_not_positive insufficient_balance update_failed already_closed already_settling :
      ChannelError
  channel_not_found : ChannelError

abbrev pub is_open : ChannelState → Bool
is_open open_state = true
is_open _ = false

-- The bytes that are hashed: the two amounts stand side by side, each as long as it needs to be.
state_bytes : String → ℕ → ℤ → ℤ → Bytes
state_bytes id version mine peers =
    codes id ++ (put_uint64_be version ++ (big_bytes (abs mine) ++ big_bytes (abs peers)))

-- The entry that an update appends to the history.
unfoldable pub snapshot : ℤ → Channel → SignedState
snapshot now ch = record {
  channel_id = ch.id;
  version = ch.version;
  my_balance = ch.my_balance;
  peer_balance = ch.peer_balance;
  state_hash = ch.state_hash;
  signature = ch.my_signature;
  timestamp = now;
}

pub update_of : Channel → ChannelUpdate
update_of ch = record {
  channel_id = ch.id;
  version = ch.version;
  my_balance = ch.my_balance;
  peer_balance = ch.peer_balance;
  state_hash = hex_encode ch.state_hash;
  timestamp = ch.updated_at;
}

-- The three tests that `SendPayment` and `ReceivePayment` begin with, on the payer's balance.
unfoldable pub payment_guard : ChannelState → Option ℤ → ℤ → Result ChannelError ℤ
payment_guard st amount funds = do
  fail_if (not (is_open st)) (not_open st)
  a ← or_fail amount amount_not_positive
  fail_if (non_positive a) amount_not_positive
  fail_if (ltb_ℤ funds a) insufficient_balance
  ok a

module _ (c : Crypto) where
  create_proposal : Channel → Bytes
  create_proposal ch = c.sha256 (
      codes ch.id
      ++ (codes ch.peer_address ++ (big_bytes (abs ch.total_funding) ++ put_uint64_be ch.nonce)))

  unfoldable pub compute_state_hash : Channel → Bytes
  unfolding state_bytes
  compute_state_hash ch = c.sha256 (state_bytes ch.id ch.version ch.my_balance ch.peer_balance)

  -- With no key, or where signing fails, the hash stands for the signature.
  signature_or_hash : Bytes → Bytes
  signature_or_hash h = elim (sign_data c h) [ ok sig ↦ sig | err _ ↦ h ]

  unfoldable pub sign_state : Channel → Bytes
  unfolding compute_state_hash signature_or_hash
  sign_state ch = signature_or_hash (compute_state_hash ch)

  unfoldable pub generate_tx_hash : String → String → ℕ → ℤ → Bytes
  generate_tx_hash id tx_type nonce now =
      codes "0x"
      ++ hex_encode (
          c.sha256 (
            codes id
            ++ (codes ":"
                ++ (codes tx_type
                    ++ (codes ":" ++ (decimal nonce ++ (codes ":" ++ decimal_ℤ now)))))))

  -- New balances under a new version; then the hash, the signature and the history.
  unfoldable pub commit : ℤ → Channel → ℕ → ℤ → ℤ → Channel
  unfolding snapshot
  commit now ch v mine peers =
      let moved : Channel = record ch { version = v; my_balance = mine; peer_balance = peers } in
      let signed : Channel = record moved {
        state_hash = compute_state_hash moved;
        my_signature = sign_state moved;
        updated_at = now;
      } in
      record signed { state_history = ch.state_history ++ snapshot now signed ∷ [] }

  unfoldable pub send_amount : ℤ → Channel → ℤ → Channel × Result ChannelError ChannelUpdate
  unfolding commit update_of
  send_amount now ch a =
      let new_version = add_u64 ch.version 1 in
      let sent = commit now ch new_version (ch.my_balance -ℤ a) (ch.peer_balance +ℤ a) in
      if sent.version == new_version then (sent, ok (update_of sent)) else (
        record sent {
          version = ch.version;
          my_balance = ch.my_balance;
          peer_balance = ch.peer_balance;
        },
        err update_failed,
      )

  pub send_payment : ℤ → Channel → Option ℤ → Channel × Result ChannelError ChannelUpdate
  unfolding payment_guard send_amount
  send_payment now ch amount = elim (payment_guard ch.state amount ch.my_balance) [
    | err e ↦ (ch, err e)
    | ok a ↦ send_amount now ch a
  ]

  receive_amount : ℤ → Channel → ℤ → Channel × Result ChannelError ChannelUpdate
  unfolding commit update_of
  receive_amount now ch a =
      let received =
        commit now ch (add_u64 ch.version 1) (ch.my_balance +ℤ a) (ch.peer_balance -ℤ a) in
      (received, ok (update_of received))

  pub receive_payment : ℤ → Channel → Option ℤ → Channel × Result ChannelError ChannelUpdate
  unfolding payment_guard receive_amount
  receive_payment now ch amount = elim (payment_guard ch.state amount ch.peer_balance) [
    | err e ↦ (ch, err e)
    | ok a ↦ receive_amount now ch a
  ]

  -- Past the tests on the state; a cancelled context takes the state back to open.
  settle_from : ℤ → Bool → Channel → Channel × Result ChannelError (Unit {0})
  settle_from now cancel ch =
      let submitted : Channel = record ch {
        state = settling;
        settlement_tx_hash = generate_tx_hash ch.id "settlement" ch.version now;
      } in
      if cancel
      then (record submitted { state = open_state }, err cancelled)
      else (record submitted { settled_at = some now; state = closed; updated_at = now }, ok tt)

  settle_by : ChannelState → ℤ → Bool → Channel → Channel × Result ChannelError (Unit {0})
  unfolding settle_from
  settle_by closed now cancel ch = (ch, err already_closed)
  settle_by settling now cancel ch = (ch, err already_settling)
  settle_by _ now cancel ch = settle_from now cancel ch

  unfoldable pub settle : ℤ → Bool → Channel → Channel × Result ChannelError (Unit {0})
  unfolding settle_by
  settle now cancel ch = settle_by ch.state now cancel ch
