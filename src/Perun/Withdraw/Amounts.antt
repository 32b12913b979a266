-- ===== src/Perun/Withdraw/Amounts.antt =====
-- WithdrawAll of internal/perun/withdraw.go: what is taken, and what arrives.
use air_fi.Base.{
  ℕ, suc, ◌+◌, ◌-◌, ◌^◌, ◌≤◌, ◌<◌, ◌≡◌, refl, ap, ◌∙◌, ◌⊎◌, inl, inr, true, false, none, List, [],
  ◌∷◌, map, if◌then◌else◌, leb, ◌==◌, arith, Bool-cases, Option-cases, ok, err, length, All,
}
use air_fi.Base.Word.{add_u64, sub_u64, add_u64-eq}
use air_fi.Perun.Cells.{OutPoint, LiveCell, Transaction, cell_min_capacity, input_of, plain_output}
use air_fi.Perun.Cells.Transfers.{total_capacity}
use air_fi.Perun.Withdraw.{
  Scripts, no_cells, nothing_withdrawable, insufficient_balance, withdraw_fee, is_withdrawable,
  same_lock, collect, withdrawal_of, withdraw_transaction,
}

module _ {S : Type 0} (scripts : Scripts S) (from : S) where
  -- The cells without a type script whose lock is the wallet's own.
  pub withdrawable : List (LiveCell S) → List (LiveCell S)
  withdrawable [] = []
  withdrawable (x ∷ xs) =
      if is_withdrawable scripts from x then x ∷ withdrawable xs else withdrawable xs

  withdrawable_le :
      (cells : List (LiveCell S)) → total_capacity (withdrawable cells) ≤ total_capacity cells
  unfolding withdrawable
  withdrawable_le [] = omega arith
  withdrawable_le (x ∷ xs) = elim (Bool-cases (is_withdrawable scripts from x)) [
    | inl takes ↦ rw (takes, withdrawable) (omega (arith, withdrawable_le xs))
    | inr leaves ↦ rw (leaves, withdrawable) (omega (arith, withdrawable_le xs))
  ]

  collect-eq :
      (total : ℕ) (cells : List (LiveCell S))
      → total + total_capacity cells < 2 ^ 64
      → collect scripts from total cells
        ≡ (total + total_capacity (withdrawable cells), map input_of (withdrawable cells))
  unfolding collect withdrawable
  collect-eq total [] h = ap (λ n. (n, [])) (omega arith)
  collect-eq total (x ∷ xs) h = elim (Bool-cases (is_withdrawable scripts from x)) [
    | inl takes ↦
        let exact = add_u64-eq total x.output.capacity (omega arith) in
        rw (takes, exact, collect-eq (total + x.output.capacity) xs (omega arith))
          (ap (λ n. (n, input_of x ∷ map input_of (withdrawable xs))) (omega arith))
    | inr leaves ↦ rw (leaves, collect-eq total xs (omega arith)) refl
  ]

  collect_all :
      (cells : List (LiveCell S))
      → total_capacity cells < 2 ^ 64
      → collect scripts from 0 cells
        ≡ (total_capacity (withdrawable cells), map input_of (withdrawable cells))
  collect_all cells h =
      collect-eq 0 cells (omega arith)
      ∙ ap (λ n. (n, map input_of (withdrawable cells))) (omega arith)

  empty_of : (xs : List (LiveCell S)) → (length (map input_of xs) == 0) ≡ true → xs ≡ []
  empty_of [] e = refl
  empty_of (x ∷ xs) e = absurd (ground arith)

  -- What may be withdrawn has no type script, and the wallet's own lock.
  abbrev IsOwn : LiveCell S → Type 0
  IsOwn x = (x.output.type_script ≡ none) × (scripts.hash x.output.lock ≡ scripts.hash from)

  is_withdrawable-IsOwn : (x : LiveCell S) → is_withdrawable scripts from x ≡ true → IsOwn x
  unfolding is_withdrawable same_lock
  is_withdrawable-IsOwn x e = elim (Option-cases x.output.type_script) [
    | inl untyped ↦ (untyped, ground arith)
    | inr (t, typed) ↦ absurd (ground arith)
  ]

  withdrawable-IsOwn : (cells : List (LiveCell S)) → All IsOwn (withdrawable cells)
  unfolding withdrawable
  withdrawable-IsOwn [] = tt
  withdrawable-IsOwn (x ∷ xs) = elim (Bool-cases (is_withdrawable scripts from x)) [
    | inl takes ↦ rw (takes, withdrawable) (is_withdrawable-IsOwn x takes, withdrawable-IsOwn xs)
    | inr leaves ↦ rw (leaves, withdrawable) (withdrawable-IsOwn xs)
  ]

  -- The second list is what the wallet owns of the first, in the same order.
  abbrev OwnOf : List (LiveCell S) → List (LiveCell S) → Type 0
  OwnOf [] taken = taken ≡ []
  OwnOf (x ∷ xs) taken =
      (IsOwn x × ((rest : List (LiveCell S)) × (taken ≡ x ∷ rest) × OwnOf xs rest))
      ⊎ ((¬ IsOwn x) × OwnOf xs taken)

  left-IsOwn : (x : LiveCell S) → is_withdrawable scripts from x ≡ false → ¬ IsOwn x
  unfolding is_withdrawable same_lock
  left-IsOwn x e (untyped, same) = ground arith

  withdrawable-OwnOf : (cells : List (LiveCell S)) → OwnOf cells (withdrawable cells)
  unfolding withdrawable
  withdrawable-OwnOf [] = refl
  withdrawable-OwnOf (x ∷ xs) = elim (Bool-cases (is_withdrawable scripts from x)) [
    | inl takes ↦
        rw (takes, withdrawable)
          (inl (is_withdrawable-IsOwn x takes, (withdrawable xs, refl, withdrawable-OwnOf xs)))
    | inr leaves ↦ rw (leaves, withdrawable) (inr (left-IsOwn x leaves, withdrawable-OwnOf xs))
  ]

  -- A withdrawal takes every cell that may be withdrawn and no other, and sends on what they hold
  -- less the fee.
  pub record Withdraws (to : S) (cells : List (LiveCell S)) (tx : Transaction S) : Type 0 where
    pub amount : ℕ
    pub takes : tx.inputs ≡ map input_of (withdrawable cells)
    pub gives : tx.outputs ≡ plain_output amount to ∷ []
    pub balanced : amount + withdraw_fee ≡ total_capacity (withdrawable cells)
    pub own : All IsOwn (withdrawable cells)
    pub exactly : OwnOf cells (withdrawable cells)
    pub is_cell : cell_min_capacity < amount

  suc_eq_zero : (n : ℕ) → (suc n == 0) ≡ false
  suc_eq_zero n = ground arith

  exact_amount :
      (n : ℕ)
      → withdraw_fee + cell_min_capacity < n
      → n < 2 ^ 64
      → sub_u64 n withdraw_fee ≡ n - withdraw_fee
  unfolding sub_u64
  exact_amount n h k = omega arith

  least_amount :
      (n : ℕ)
      → withdraw_fee + cell_min_capacity < n
      → (n - withdraw_fee + withdraw_fee ≡ n) × (cell_min_capacity < n - withdraw_fee)
  least_amount n h = (omega arith, omega arith)

  bound_exact : add_u64 withdraw_fee cell_min_capacity ≡ withdraw_fee + cell_min_capacity
  bound_exact = add_u64-eq withdraw_fee cell_min_capacity (omega arith)

  -- Withdrawing fails without cells, without any that may be withdrawn, and where these hold no
  -- more than the fee and the least cell; otherwise it takes exactly the wallet's own pure cells
  -- and sends all they hold, less the fee. The cells' capacity must fit 64 bits.
  pub withdraw_transaction_outcome :
      (dep : OutPoint) (to : S) (cells : List (LiveCell S))
      → total_capacity cells < 2 ^ 64
      → ((cells ≡ []) × (withdraw_transaction scripts dep from to cells ≡ err no_cells))
        ⊎ ((withdrawable cells ≡ [])
            × (withdraw_transaction scripts dep from to cells ≡ err nothing_withdrawable))
        ⊎ ((total_capacity (withdrawable cells) ≤ withdraw_fee + cell_min_capacity)
            × (withdraw_transaction scripts dep from to cells ≡ err insufficient_balance))
        ⊎ ((tx : Transaction S) × (withdraw_transaction scripts dep from to cells ≡ ok tx)
            × Withdraws to cells tx)
  unfolding withdraw_transaction withdrawal_of
  withdraw_transaction_outcome dep to [] h = inl (refl, refl)
  withdraw_transaction_outcome dep to (x ∷ xs) h =
      let own = withdrawable (x ∷ xs) in
      let n = total_capacity own in
      let all = collect_all (x ∷ xs) h in
      elim (Bool-cases (length (map input_of own) == 0)) [
        | inl none_left ↦
            inr (inl (empty_of own none_left, rw (all, suc_eq_zero (length xs), none_left) refl))
        | inr some_left ↦ elim (Bool-cases (leb n (withdraw_fee + cell_min_capacity))) [
          | inl little ↦ inr (
              inr (
                inl (
                  ground arith,
                  rw (all, suc_eq_zero (length xs), some_left, bound_exact, little) refl,
                )))
          | inr enough ↦
              let more : withdraw_fee + cell_min_capacity < n = ground arith in
              let small : n < 2 ^ 64 = omega (arith, withdrawable_le (x ∷ xs)) in
              inr (
                inr (
                  inr (
                    withdrawal_of scripts dep to (n - withdraw_fee) (map input_of own),
                    rw
                        (
                          all,
                          suc_eq_zero (length xs),
                          some_left,
                          bound_exact,
                          enough,
                          exact_amount n more small,
                        )
                        refl,
                    record {
                      amount = n - withdraw_fee;
                      takes = refl;
                      gives = refl;
                      balanced = (least_amount n more).0;
                      own = withdrawable-IsOwn (x ∷ xs);
                      exactly = withdrawable-OwnOf (x ∷ xs);
                      is_cell = (least_amount n more).1;
                    },
                  )))
        ]
      ]
