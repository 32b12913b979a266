-- ===== src/Perun/Withdraw.antt =====
-- internal/perun/withdraw.go: sending all that is left in a guest's wallet back, and finding whom to.
-- Addresses are encoded and decoded by ckb-sdk-go, and script hashes are its too: they are the
-- fields of `Scripts`.
pub mod Amounts
pub mod Signing
pub mod Sender
use air_fi.Base.{
  ℕ, suc, ◌+◌, Bool, true, false, ◌&&◌, not, String, Option, none, some, List, [], ◌∷◌, ◌++◌, map,
  if◌then◌else◌, leb, ◌==◌, Result, ok, err, ◌>>=◌, ◌>>◌, fail_if, or_fail, length, replicate,
}
use air_fi.Base.Word.{add_u64, sub_u64}
use air_fi.Base.Bytes.{Bytes, put_uint64_le}
use air_fi.Perun.Cells.{
  OutPoint, CellOutput, CellInput, LiveCell, Transaction, Node, cell_min_capacity, input_of,
  plain_output, set_first, sign_recoverable,
}

abbrev pub withdraw_fee : ℕ
withdraw_fee = 100_000

pub record Scripts (S : Type 0) : Type 0 where
  pub decode_address : String → Option S
  pub encode_address : S → Option String
  -- `Hash()`, as a number.
  pub hash : S → ℕ

pub data WithdrawError : Type 0 where
  bad_address cells_unavailable no_cells nothing_withdrawable insufficient_balance send_failed :
      WithdrawError

-- `GetTransactions` and `GetTransaction`: the hashes of the latest ten transactions of a script, and a
-- transaction by its hash; the inner `none` is a missing body.
pub record History (S : Type 0) : Type 0 where
  pub transactions : S → Option (List Bytes)
  pub transaction : Bytes → Option (Option (Transaction S))

pub data SenderError : Type 0 where
  bad_wallet_address transactions_unavailable no_transactions sender_unknown : SenderError

unfoldable pub nth {ℓ} : {A : Type ℓ} → ℕ → List A → Option A
nth n [] = none
nth ℕ.zero (x ∷ xs) = some x
nth (suc n) (x ∷ xs) = nth n xs

unfoldable pub and_then {ℓ κ} : {A : Type ℓ} {B : Type κ} → Option A → (A → Option B) → Option B
and_then none f = none
and_then (some a) f = f a

module _ {S : Type 0} (scripts : Scripts S) where
  same_lock : S → LiveCell S → Bool
  same_lock lock x = scripts.hash x.output.lock == scripts.hash lock

  is_withdrawable : S → LiveCell S → Bool
  is_withdrawable lock x = elim x.output.type_script [ some _ ↦ false | none ↦ same_lock lock x ]

  -- The loop over the cells: what it adds up, and the inputs that it collects.
  collect : S → ℕ → List (LiveCell S) → ℕ × List CellInput
  collect lock total [] = (total, [])
  collect lock total (x ∷ xs) =
      let total' = if is_withdrawable lock x then add_u64 total x.output.capacity else total in
      let rest = collect lock total' xs in
      (rest.0, if is_withdrawable lock x then input_of x ∷ rest.1 else rest.1)

  withdrawal_of : OutPoint → S → ℕ → List CellInput → Transaction S
  withdrawal_of dep to capacity inputs = record {
    cell_deps = dep ∷ [];
    inputs = inputs;
    outputs = plain_output capacity to ∷ [];
    outputs_data = [] ∷ [];
    witnesses = set_first (replicate 85 0) (replicate (length inputs) []);
  }

  -- The unsigned withdrawal of the cells that were listed.
  pub withdraw_transaction :
      OutPoint → S → S → List (LiveCell S) → Result WithdrawError (Transaction S)
  withdraw_transaction dep from to cells =
      let (total, inputs) = collect from 0 cells in
      if length cells == 0
      then err no_cells
      else if length inputs == 0
      then err nothing_withdrawable
      else if leb total (add_u64 withdraw_fee cell_min_capacity)
      then err insufficient_balance
      else ok (withdrawal_of dep to (sub_u64 total withdraw_fee) inputs)

  -- The sender of one transaction of the wallet: the owner of what its first input spent, unless
  -- that is the wallet itself.
  unfoldable pub sender_of : History S → S → Bytes → Option String
  sender_of h lock tx_hash = and_then (and_then (h.transaction tx_hash) (λ tx. tx)) λ tx.
      and_then (nth 0 tx.inputs) λ first.
        and_then (and_then (h.transaction first.previous_output.tx_hash) (λ tx. tx)) λ spent.
          and_then (nth first.previous_output.index spent.outputs) λ output.
            if scripts.hash output.lock == scripts.hash lock
            then none
            else scripts.encode_address output.lock

  unfoldable pub first_sender : History S → S → List Bytes → Option String
  first_sender h lock [] = none
  first_sender h lock (t ∷ ts) = elim (sender_of h lock t) [
    | some a ↦ some a
    | none ↦ first_sender h lock ts
  ]

  unfoldable pub get_sender_address : History S → String → Result SenderError String
  get_sender_address h wallet = do
    lock ← or_fail (scripts.decode_address wallet) bad_wallet_address
    txs ← or_fail (h.transactions lock) transactions_unavailable
    fail_if (length txs == 0) no_transactions
    or_fail (first_sender h lock txs) sender_unknown

-- The hash, and every witness behind its length.
pub sign_message_all : Bytes → List Bytes → Bytes
sign_message_all message [] = message
sign_message_all message (x ∷ xs) = sign_message_all (message ++ (put_uint64_le (length x) ++ x)) xs

module _ {S W : Type 0} (node : Node S W) (scripts : Scripts S) where
  unfoldable sign_all : ℕ → Transaction S → Transaction S
  sign_all key tx =
      let blank = node.serialize_witness (replicate 65 0) in
      let held : Transaction S = record tx { witnesses = set_first blank tx.witnesses } in
      let message = sign_message_all (node.compute_hash held) held.witnesses in
      let sig = sign_recoverable (node.sign_compact key (node.blake256 message)) in
      record held { witnesses = set_first (node.serialize_witness sig) tx.witnesses }

  unfoldable unsigned_withdrawal : W → S → String → Result WithdrawError (Transaction S)
  unsigned_withdrawal w from to_address = do
    to ← or_fail (scripts.decode_address to_address) bad_address
    cells ← or_fail (node.get_cells w from) cells_unavailable
    withdraw_transaction scripts node.secp256k1_cell_dep from to cells

  pub withdraw_all : W → ℕ → S → String → W × Result WithdrawError Bytes
  withdraw_all w key from to_address = elim (unsigned_withdrawal w from to_address) [
    | err e ↦ (w, err e)
    | ok tx ↦
        let (w', sent) = node.send_transaction w (sign_all key tx) in (w', or_fail sent send_failed)
  ]
