-- ===== src/Perun/Cells/Transfers.antt =====
-- TransferCellsToGuest of internal/perun/cell_splitter.go: no capacity is lost or made up.
use air_fi.Base.{
  ℕ, suc, ◌+◌, ◌-◌, ◌*◌, ◌^◌, ◌≤◌, ◌<◌, ◌≡◌, refl, ap, ◌∙◌, ◌⊎◌, inl, inr, true, false, List, [],
  ◌∷◌, ◌++◌, map, leb, ltb, ◌==◌, arith, Bool-cases, ok, err, length, replicate,
}
use air_fi.Base.Word.{add_u64, sub_u64, mul_u64, add_u64-eq}
use air_fi.Perun.Cells.{
  LiveCell, Transaction, Node, no_cells, insufficient_balance, split_fee, cell_min_capacity,
  input_of, plain_output, select, transfer_of, transfer_transaction,
}

abbrev pub total_capacity : {S : Type 0} → List (LiveCell S) → ℕ
total_capacity [] = 0
total_capacity (x ∷ xs) = x.output.capacity + total_capacity xs

-- What the host must have for `n` cells: these, the fee, and a change cell.
abbrev pub needed_for : ℕ → ℕ
needed_for n = n * cell_min_capacity + split_fee + cell_min_capacity

needed_exact :
    (n : ℕ)
    → needed_for n < 2 ^ 64
    → add_u64 (add_u64 (mul_u64 n cell_min_capacity) split_fee) cell_min_capacity ≡ needed_for n
unfolding add_u64 mul_u64
needed_exact n h = omega arith

transfer_exact :
    (n : ℕ) → needed_for n < 2 ^ 64 → mul_u64 n cell_min_capacity ≡ n * cell_min_capacity
unfolding mul_u64
transfer_exact n h = omega arith

change_exact :
    (have n : ℕ)
    → needed_for n ≤ have
    → have < 2 ^ 64
    → sub_u64 (sub_u64 have (n * cell_min_capacity)) split_fee
      ≡ have - n * cell_min_capacity - split_fee
unfolding sub_u64
change_exact have n h k = omega arith

change_at_least :
    (have n : ℕ)
    → needed_for n ≤ have
    → (cell_min_capacity ≤ have - n * cell_min_capacity - split_fee)
      × (have ≡ n * cell_min_capacity + (have - n * cell_min_capacity - split_fee) + split_fee)
change_at_least have n h = (omega arith, omega arith)

from_zero : (a b : ℕ) → a < b → 0 + a < b
from_zero a b h = omega arith

zero_plus : (a : ℕ) → 0 + a ≡ a
zero_plus a = omega arith

suc_eq_zero : (n : ℕ) → (suc n == 0) ≡ false
suc_eq_zero n = ground arith

not_less : (m n : ℕ) → m ≤ n → ltb n m ≡ false
not_less m n h = ground arith

less : (m n : ℕ) → n < m → ltb n m ≡ true
less m n h = ground arith

module _ {S : Type 0} where
  -- What the loop takes: a front part of the cells, with its capacity, which either is enough or
  -- is that of them all.
  record Selects (needed have : ℕ) (cells : List (LiveCell S)) : Type 0 where
    used : List (LiveCell S)
    rest : List (LiveCell S)
    front : cells ≡ used ++ rest
    is_used : (select needed have cells).0 ≡ used
    held : (select needed have cells).1 ≡ have + total_capacity used
    enough : (needed ≤ have + total_capacity used) ⊎ (total_capacity used ≡ total_capacity cells)
    within : total_capacity used ≤ total_capacity cells

  select-Selects_next :
      (needed have : ℕ) (x : LiveCell S) (xs : List (LiveCell S))
      → add_u64 have x.output.capacity ≡ have + x.output.capacity
      → leb needed (have + x.output.capacity) ≡ false
      → Selects needed (have + x.output.capacity) xs
      → Selects needed have (x ∷ xs)
  unfolding select
  select-Selects_next needed have x xs exact short p = record {
    used = x ∷ p.used;
    rest = p.rest;
    front = ap (◌∷◌ x) p.front;
    is_used = rw (exact, short) (ap (◌∷◌ x) p.is_used);
    held = rw (exact, short) (omega (arith, p.held));
    enough = ground (arith, p.enough);
    within = omega (arith, p.within);
  }

  select-Selects :
      (needed have : ℕ) (cells : List (LiveCell S))
      → have + total_capacity cells < 2 ^ 64
      → Selects needed have cells
  unfolding select
  select-Selects needed have [] h = record {
    used = [];
    rest = [];
    front = refl;
    is_used = refl;
    held = omega arith;
    enough = inr refl;
    within = omega arith;
  }
  select-Selects needed have (x ∷ xs) h =
      let c = x.output.capacity in
      let exact : add_u64 have c ≡ have + c = add_u64-eq have c (omega arith) in
      elim (Bool-cases (leb needed (have + c))) [
        | inl reached ↦ record {
          used = x ∷ [];
          rest = xs;
          front = refl;
          is_used = rw (exact, reached) refl;
          held = rw (exact, reached) (omega arith);
          enough = inl (ground arith);
          within = omega arith;
        }
        | inr short ↦
            select-Selects_next needed have x xs exact short
              (select-Selects needed (have + c) xs (omega arith))
      ]

  -- A transfer of `n` cells: a front part of the host's cells goes in; `n` cells of the least
  -- capacity for the guest come out, and the change for the host, which is itself a cell.
  pub record Transfers (host guest : S) (n : ℕ) (cells : List (LiveCell S)) (tx : Transaction S)
      : Type 0 where
    pub used : List (LiveCell S)
    pub rest : List (LiveCell S)
    pub change : ℕ
    pub front : cells ≡ used ++ rest
    pub takes : tx.inputs ≡ map input_of used
    pub gives :
        tx.outputs
        ≡ replicate n (plain_output cell_min_capacity guest) ++ plain_output change host ∷ []
    pub change_at_least : cell_min_capacity ≤ change
    pub balanced : total_capacity used ≡ n * cell_min_capacity + change + split_fee

module _ {S W : Type 0} (node : Node S W) (host guest : S) (n : ℕ) where
  -- Without cells, or with too little in them, the transfer fails; otherwise its inputs are worth
  -- exactly the guest's cells, the change and the fee. Neither the host's capacity nor what is
  -- needed may exceed 64 bits.
  pub transfer_transaction_outcome :
      (cells : List (LiveCell S))
      → total_capacity cells < 2 ^ 64
      → needed_for n < 2 ^ 64
      → ((cells ≡ []) × (transfer_transaction node host guest n cells ≡ err no_cells))
        ⊎ ((total_capacity cells < needed_for n)
            × (transfer_transaction node host guest n cells ≡ err insufficient_balance))
        ⊎ ((needed_for n ≤ total_capacity cells)
            × (tx : Transaction S) × (transfer_transaction node host guest n cells
                ≡ ok (tx, n * cell_min_capacity))
            × Transfers host guest n cells tx)
  unfolding transfer_transaction transfer_of
  transfer_transaction_outcome [] h k = inl (refl, refl)
  transfer_transaction_outcome (x ∷ xs) h k =
      let p = select-Selects (needed_for n) 0 (x ∷ xs) (from_zero _ _ h) in
      let have = total_capacity p.used in
      let held : (select (needed_for n) 0 (x ∷ xs)).1 ≡ have = p.held ∙ zero_plus have in
      elim (Bool-cases (leb (needed_for n) have)) [
        | inl reached ↦
            let r : needed_for n ≤ have = ground arith in
            let small : have < 2 ^ 64 = omega (arith, p.within) in
            inr (
              inr (
                omega (arith, p.within),
                transfer_of node host guest n p.used (have - n * cell_min_capacity - split_fee),
                rw
                    (
                      needed_exact n k,
                      transfer_exact n k,
                      p.is_used,
                      held,
                      suc_eq_zero (length xs),
                      not_less (needed_for n) have r,
                      change_exact have n r small,
                    )
                    refl,
                record {
                  used = p.used;
                  rest = p.rest;
                  change = have - n * cell_min_capacity - split_fee;
                  front = p.front;
                  takes = refl;
                  gives = refl;
                  change_at_least = (change_at_least have n r).0;
                  balanced = (change_at_least have n r).1;
                },
              ))
        | inr short ↦ inr (
            inl (
              ground (arith, p.enough),
              rw
                  (
                    needed_exact n k,
                    transfer_exact n k,
                    p.is_used,
                    held,
                    suc_eq_zero (length xs),
                    less (needed_for n) have (ground arith),
                  )
                  refl,
            ))
      ]
