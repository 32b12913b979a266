-- ===== src/Perun/CellTests.antt =====
-- Concrete wallets and chains for the cell operations of internal/perun.
use air_fi.Base.{
  ℕ, suc, ◌+◌, ◌*◌, ◌≤◌, ◌<◌, ◌≡◌, ◌↔◌, refl, ◌⊎◌, some, List, [], ◌∷◌, ok, err, arith, length,
  replicate,
}
use air_fi.Base.Bytes.{Bytes}
use air_fi.Perun.Cells.{
  in_progress, committed, OutPoint, LiveCell, Transaction, Node, no_cells, insufficient_balance,
  cell_min_capacity, pure_cells, count_cells, split_cell, submit, ensure_minimum_cells,
  transfer_transaction, plain_output,
}
use air_fi.Perun.Cells.Transfers.{
  total_capacity, needed_for, Transfers, transfer_transaction_outcome,
}
use air_fi.Perun.Cells.Preparation.{Ends, Grows, ensure_minimum_cells-Ends}
use air_fi.Perun.Withdraw.{
  Scripts, History, WithdrawError, nothing_withdrawable, withdraw_fee, withdraw_transaction,
  get_sender_address, sender_of, first_sender, nth, and_then,
}
use air_fi.Perun.Withdraw.Amounts.{withdrawable, Withdraws, withdraw_transaction_outcome}
use air_fi.Perun.Withdraw.Sender.{SentFirst, get_sender_address_iff}

-- Lock scripts are numbers here; wallet 1 holds 200 CKB in one cell and 100 in another.
abbrev place : OutPoint
place = record { tx_hash = []; index = 0 }

abbrev cell : ℕ → LiveCell ℕ
cell capacity = record { output = plain_output capacity 1; out_point = place }

abbrev wallet : List (LiveCell ℕ)
wallet = cell 20_000_000_000 ∷ cell 10_000_000_000 ∷ []

-- A chain whose state is the number of the wallet's cells: every transaction adds one.
abbrev pub chain : Node ℕ ℕ
chain = record {
  get_cells = λ w lock. some (replicate w (cell 20_000_000_000));
  compute_hash = λ tx. [];
  blake256 = λ b. b;
  sign_compact = λ key b. replicate 65 27;
  serialize_witness = λ b. b;
  send_transaction = λ w tx. (suc w, some []);
  ticks = λ w h. (w, in_progress ∷ committed ∷ []);
  secp256k1_cell_dep = place;
}

abbrev pub scripts : Scripts ℕ
scripts = record {
  decode_address = λ a. some 1;
  encode_address = λ lock. some "sender";
  hash = λ lock. lock;
}

transfer_transaction_outcome_example :
    ((wallet ≡ []) × (transfer_transaction chain 1 2 3 wallet ≡ err no_cells))
    ⊎ ((total_capacity wallet < needed_for 3)
        × (transfer_transaction chain 1 2 3 wallet ≡ err insufficient_balance))
    ⊎ ((needed_for 3 ≤ total_capacity wallet)
        × (tx : Transaction ℕ) × (transfer_transaction chain 1 2 3 wallet
            ≡ ok (tx, 3 * cell_min_capacity))
        × Transfers 1 2 3 wallet tx)
transfer_transaction_outcome_example =
    transfer_transaction_outcome chain 1 2 3 wallet (omega arith) (omega arith)

all_pure : (n : ℕ) → length (pure_cells (replicate n (cell 20_000_000_000))) ≡ n
unfolding pure_cells
all_pure ℕ.zero = refl
all_pure (suc n) = omega (arith, all_pure n)

counted : (w n : ℕ) → count_cells chain w 1 ≡ ok n → n ≡ w
unfolding count_cells
counted w n e = ground (arith, all_pure w)

split_adds :
    (w : ℕ) (tx_hash : Bytes)
    → (split_cell chain w 0 1).1 ≡ ok tx_hash
    → (split_cell chain w 0 1).0 ≡ suc w
unfolding split_cell submit
split_adds w tx_hash e = ground arith

chain-Grows : Grows chain 0 1
chain-Grows w n n' tx_hash few before split after = omega (
  arith,
  counted w n before,
  counted (split_cell chain w 0 1).0 n' after,
  split_adds w tx_hash split,
)

ensure_minimum_cells-Ends_example : Ends chain 1 4 (ensure_minimum_cells chain 4 1 0 1 4)
ensure_minimum_cells-Ends_example =
    ensure_minimum_cells-Ends chain 0 1 4 1 chain-Grows (omega arith)

withdraw_transaction_outcome_example :
    ((wallet ≡ []) × (withdraw_transaction scripts place 1 2 wallet ≡ err WithdrawError.no_cells))
    ⊎ ((withdrawable scripts 1 wallet ≡ [])
        × (withdraw_transaction scripts place 1 2 wallet ≡ err nothing_withdrawable))
    ⊎ ((total_capacity (withdrawable scripts 1 wallet) ≤ withdraw_fee + cell_min_capacity)
        × (withdraw_transaction scripts place 1 2 wallet ≡ err WithdrawError.insufficient_balance))
    ⊎ ((tx : Transaction ℕ) × (withdraw_transaction scripts place 1 2 wallet ≡ ok tx)
        × Withdraws scripts 1 2 wallet tx)
withdraw_transaction_outcome_example =
    withdraw_transaction_outcome scripts 1 place 2 wallet (omega arith)

-- Transaction 5 funds wallet 1 by spending the second output of transaction 6, which is wallet 2's.
abbrev funding_tx : Transaction ℕ
funding_tx = record {
  cell_deps = [];
  inputs = record { since = 0; previous_output = record { tx_hash = 6 ∷ []; index = 1 } } ∷ [];
  outputs = plain_output 10_000_000_000 1 ∷ plain_output 20_000_000_000 2 ∷ [];
  outputs_data = [];
  witnesses = [];
}

abbrev history : History ℕ
history = record {
  transactions = λ lock. some ((5 ∷ []) ∷ []);
  transaction = λ h. some (some funding_tx);
}

get_sender_address_iff_example : (get_sender_address scripts history "wallet" ≡ ok "sender") ↔ (
    (lock : ℕ) × (txs : List Bytes) × (some 1 ≡ some lock)
    × (some ((5 ∷ []) ∷ []) ≡ some txs)
    × SentFirst scripts history lock txs "sender")
get_sender_address_iff_example = get_sender_address_iff scripts history "wallet" "sender"

-- It is wallet 2.
found_sender : get_sender_address scripts history "wallet" ≡ ok "sender"
unfolding get_sender_address first_sender sender_of nth and_then
found_sender = refl
