-- ===== src/Perun/Cells.antt =====
-- internal/perun/cell_splitter.go: splitting a wallet's cells, and handing small ones to a guest.
-- Capacities are `uint64`. Lock scripts are a type `S`, and the chain behind the RPC client a state
-- of type `W`: what the code calls of ckb-sdk-go and of secp256k1 are the fields of `Node`.
pub mod Selection
pub mod Transfers
pub mod Preparation
use air_fi.Base.{
  ℕ, suc, ◌+◌, ◌*◌, ◌/◌, ◌%◌, ◌^◌, Bool, true, false, ◌&&◌, Option, none, some, List, [], ◌∷◌, ◌++◌,
  map, if◌then◌else◌, leb, ltb, ◌==◌, Result, ok, err, ◌>>=◌, length, replicate,
}
use air_fi.Base.Word.{add_u64, sub_u64, mul_u64}
use air_fi.Base.Bytes.{Bytes, put_uint64_le}
use air_fi.Perun.Crypto.{take, drop}

abbrev pub split_fee : ℕ
split_fee = 100_000

abbrev pub cell_min_capacity : ℕ
cell_min_capacity = 6_100_000_000

pub record OutPoint : Type 0 where
  pub tx_hash : Bytes
  pub index : ℕ

pub record CellOutput (S : Type 0) : Type 0 where
  pub capacity : ℕ
  pub lock : S
  pub type_script : Option S

pub record LiveCell (S : Type 0) : Type 0 where
  pub output : CellOutput S
  pub out_point : OutPoint

pub record CellInput : Type 0 where
  pub since : ℕ
  pub previous_output : OutPoint

-- One turn of the wait: the context is done, the timer has fired, the request failed, or the
-- transaction's status.
pub data Tick : Type 0 where
  context_done timer_fired unreachable committed rejected in_progress : Tick

pub data WaitError : Type 0 where
  wait_cancelled timed_out tx_rejected : WaitError

-- The two minutes always end, so a list of turns that has run out counts as the timer.
wait_for_confirmation : List Tick → Result WaitError (Unit {0})
wait_for_confirmation [] = err timed_out
wait_for_confirmation (context_done ∷ ts) = err wait_cancelled
wait_for_confirmation (timer_fired ∷ ts) = err timed_out
wait_for_confirmation (committed ∷ ts) = ok tt
wait_for_confirmation (rejected ∷ ts) = err tx_rejected
wait_for_confirmation (unreachable ∷ ts) = wait_for_confirmation ts
wait_for_confirmation (in_progress ∷ ts) = wait_for_confirmation ts

-- The version is always 0, and every cell dep a dep group.
pub record Transaction (S : Type 0) : Type 0 where
  pub cell_deps : List OutPoint
  pub inputs : List CellInput
  pub outputs : List (CellOutput S)
  pub outputs_data : List Bytes
  pub witnesses : List Bytes

pub record Node (S W : Type 0) : Type 0 where
  -- The cells that the indexer lists for a lock script, at most 100; `none` is a failed request.
  pub get_cells : W → S → Option (List (LiveCell S))
  pub compute_hash : Transaction S → Bytes
  pub blake256 : Bytes → Bytes
  -- The 65 bytes V, R, S of `SignCompact`, under a private key.
  pub sign_compact : ℕ → Bytes → Bytes
  -- `WitnessArgs.Serialize`, of the lock field.
  pub serialize_witness : Bytes → Bytes
  -- The hash of the submitted transaction.
  pub send_transaction : W → Transaction S → W × Option Bytes
  -- What the wait for a transaction sees, in order, from submission to the end of the two minutes.
  pub ticks : W → Bytes → W × List Tick
  pub secp256k1_cell_dep : OutPoint

pub data CellError : Type 0 where
  cells_unavailable no_cells nothing_to_split insufficient_balance send_failed not_confirmed :
      CellError

abbrev is_pure : {S : Type 0} → LiveCell S → Bool
is_pure cell = elim cell.output.type_script [ none ↦ true | some _ ↦ false ]

unfoldable pub pure_cells : {S : Type 0} → List (LiveCell S) → List (LiveCell S)
pure_cells [] = []
pure_cells (x ∷ xs) = if is_pure x then x ∷ pure_cells xs else pure_cells xs

-- The capacity from which a cell can be split in two.
abbrev pub min_split_capacity : ℕ
min_split_capacity = 2 * cell_min_capacity + split_fee

abbrev is_better : {S : Type 0} → Option (LiveCell S) → LiveCell S → Bool
is_better none x = true
is_better (some best) x = ltb best.output.capacity x.output.capacity

-- The loop that picks the largest cell that can be split.
pub pick : {S : Type 0} → Option (LiveCell S) → List (LiveCell S) → Option (LiveCell S)
pick best [] = best
pick best (x ∷ xs) =
    if leb min_split_capacity x.output.capacity && is_better best x
    then pick (some x) xs
    else pick best xs

pub split_capacities : ℕ → ℕ × ℕ
split_capacities total =
    let available = sub_u64 total split_fee in
    let half = available / 2 in
    if ltb half cell_min_capacity
    then (cell_min_capacity, sub_u64 available cell_min_capacity)
    else (half, sub_u64 available half)

abbrev pub input_of : {S : Type 0} → LiveCell S → CellInput
input_of x = record { since = 0; previous_output = x.out_point }

abbrev pub plain_output : {S : Type 0} → ℕ → S → CellOutput S
plain_output capacity lock = record { capacity = capacity; lock = lock; type_script = none }

abbrev pub set_first : Bytes → List Bytes → List Bytes
set_first b [] = []
set_first b (x ∷ xs) = b ∷ xs

-- R, S and then V - 27, from the V, R, S of `SignCompact`, which are 65 bytes.
unfoldable pub sign_recoverable : Bytes → Bytes
sign_recoverable [] = []
sign_recoverable (v ∷ rs) = take 32 rs ++ (take 32 (drop 32 rs) ++ ((v + 229) % 256) ∷ [])

-- The hash, and the first witness behind its length.
unfoldable pub sign_message : Bytes → Bytes → Bytes
sign_message tx_hash witness = tx_hash ++ (put_uint64_le (length witness) ++ witness)

-- The loop that takes the host's cells from the front until they hold `needed`.
select : {S : Type 0} → ℕ → ℕ → List (LiveCell S) → List (LiveCell S) × ℕ
select needed have [] = ([], have)
select needed have (x ∷ xs) =
    let have' = add_u64 have x.output.capacity in
    let rest = select needed have' xs in
    if leb needed have' then (x ∷ [], have') else (x ∷ rest.0, rest.1)

confirm : Bytes → Result WaitError (Unit {0}) → Result CellError Bytes
confirm tx_hash (ok _) = ok tx_hash
confirm tx_hash (err _) = err not_confirmed

module _ {S W : Type 0} (node : Node S W) where
  unfoldable pub get_cells : W → S → Result CellError (List (LiveCell S))
  get_cells w lock = elim (node.get_cells w lock) [
    | none ↦ err cells_unavailable
    | some cells ↦ ok (pure_cells cells)
  ]

  unfoldable pub count_cells : W → S → Result CellError ℕ
  count_cells w lock = elim (node.get_cells w lock) [
    | none ↦ err cells_unavailable
    | some cells ↦ ok (length (pure_cells cells))
  ]

  unfoldable pub sign_transaction : ℕ → Transaction S → Transaction S
  sign_transaction key tx =
      let blank = node.serialize_witness (replicate 65 0) in
      let held : Transaction S = record tx { witnesses = set_first blank tx.witnesses } in
      let message = sign_message (node.compute_hash held) blank in
      let sig = sign_recoverable (node.sign_compact key (node.blake256 message)) in
      record held { witnesses = set_first (node.serialize_witness sig) tx.witnesses }

  -- Submits a transaction and waits for it.
  unfoldable pub submit : W → Transaction S → W × Result CellError Bytes
  unfolding wait_for_confirmation confirm
  submit w tx =
      let (w', sent) = node.send_transaction w tx in
      elim sent [
        | none ↦ (w', err send_failed)
        | some tx_hash ↦
            let (w'', seen) = node.ticks w' tx_hash in
            (w'', confirm tx_hash (wait_for_confirmation seen))
      ]

  unfoldable pub split_transaction : S → LiveCell S → Transaction S
  split_transaction lock x = record {
    cell_deps = node.secp256k1_cell_dep ∷ [];
    inputs = input_of x ∷ [];
    outputs =
        plain_output (split_capacities x.output.capacity).0 lock
        ∷ plain_output (split_capacities x.output.capacity).1 lock
        ∷ [];
    outputs_data = [] ∷ [] ∷ [];
    witnesses = replicate 85 0 ∷ [];
  }

  unfoldable pub choose_cell : List (LiveCell S) → Result CellError (LiveCell S)
  choose_cell [] = err no_cells
  choose_cell (x ∷ xs) = elim (pick none (x ∷ xs)) [ none ↦ err nothing_to_split | some y ↦ ok y ]

  unfoldable pub split_cell : W → ℕ → S → W × Result CellError Bytes
  split_cell w key lock = elim (get_cells w lock >>= choose_cell) [
    | err e ↦ (w, err e)
    | ok x ↦ submit w (sign_transaction key (split_transaction lock x))
  ]

  transfer_of : S → S → ℕ → List (LiveCell S) → ℕ → Transaction S
  transfer_of host guest n used change = record {
    cell_deps = node.secp256k1_cell_dep ∷ [];
    inputs = map input_of used;
    outputs = replicate n (plain_output cell_min_capacity guest) ++ plain_output change host ∷ [];
    outputs_data = replicate (n + 1) [];
    witnesses = replicate (length used) (replicate 85 0);
  }

  -- The unsigned transfer of `n` small cells, with the change, and what is transferred.
  pub transfer_transaction : S → S → ℕ → List (LiveCell S) → Result CellError (Transaction S × ℕ)
  transfer_transaction host guest n cells =
      let transfer = mul_u64 n cell_min_capacity in
      let with_fee = add_u64 transfer split_fee in
      let needed = add_u64 with_fee cell_min_capacity in
      let (used, have) = select needed 0 cells in
      let change = sub_u64 (sub_u64 have transfer) split_fee in
      if length cells == 0
      then err no_cells
      else if ltb have needed
      then err insufficient_balance
      else ok (transfer_of host guest n used change, transfer)

  unfoldable transfer_cells_to_guest : W → ℕ → S → S → ℕ → W × Result CellError (Bytes × ℕ)
  transfer_cells_to_guest w key host guest n =
      elim (get_cells w host >>= transfer_transaction host guest n) [
        | err e ↦ (w, err e)
        | ok (tx, transfer) ↦
            let (w', submitted) = submit w (sign_transaction key tx) in
            (w', submitted >>= λ tx_hash. ok (tx_hash, transfer))
      ]

  -- The loop of EnsureMinimumCells; `none` is fuel run out.
  pub split_until : ℕ → W → ℕ → S → ℕ → ℕ → W × Option (Result CellError (Unit {0}))
  split_until ℕ.zero w key lock min n = (w, none)
  split_until (suc fuel) w key lock min n = elim (ltb n min) [
    | false ↦ (w, some (ok tt))
    | true ↦
        let (w', split) = split_cell w key lock in
        elim (split >>= λ tx_hash. count_cells w' lock) [
          | err e ↦ (w', some (err e))
          | ok n' ↦ split_until fuel w' key lock min n'
        ]
  ]

  unfoldable pub ensure_minimum_cells : ℕ → W → ℕ → S → ℕ → W × Option (Result CellError (Unit {0}))
  ensure_minimum_cells fuel w key lock min = elim (count_cells w lock) [
    | err e ↦ (w, some (err e))
    | ok n ↦
        if leb min n
        then (w, some (ok tt))
        else if n == 0
        then (w, some (err no_cells))
        else split_until fuel w key lock min n
  ]

  unfoldable ensure_multiple_cells : ℕ → W → ℕ → S → W × Option (Result CellError (Unit {0}))
  ensure_multiple_cells fuel w key lock = ensure_minimum_cells fuel w key lock 2
