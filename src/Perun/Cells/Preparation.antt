-- ===== src/Perun/Cells/Preparation.antt =====
-- EnsureMinimumCells of internal/perun/cell_splitter.go: the loop of splits ends, with enough cells
-- where it succeeds.
use air_fi.Base.{
  ℕ, suc, zero, ◌+◌, ◌≤◌, ◌<◌, ◌≡◌, refl, ◌⊎◌, inl, inr, Option, some, leb, ltb, ◌==◌, arith,
  Bool-cases, Result, ok, err, Result-cases,
}
use air_fi.Base.Bytes.{Bytes}
use air_fi.Perun.Cells.{
  Node, CellError, no_cells, count_cells, split_cell, split_until, ensure_minimum_cells,
}

-- How the preparation ends: with an error, or with at least `min` cells counted.
abbrev pub Ends :
    {S W : Type 0} → Node S W → S → ℕ → W × Option (Result CellError (Unit {0})) → Type 0
Ends node lock min p =
    ((e : CellError) × (p.1 ≡ some (err e)))
    ⊎ ((p.1 ≡ some (ok tt)) × (n : ℕ) × (count_cells node p.0 lock ≡ ok n) × (min ≤ n))

-- A split that is committed leaves more cells to be counted, below the 100 that one request lists.
abbrev pub Grows : {S W : Type 0} → Node S W → ℕ → S → Type 0
Grows {W} node key lock =
    (w : W) (n n' : ℕ) (tx_hash : Bytes)
    → n < 100
    → count_cells node w lock ≡ ok n
    → (split_cell node w key lock).1 ≡ ok tx_hash
    → count_cells node (split_cell node w key lock).0 lock ≡ ok n'
    → n < n'

module _ {S W : Type 0} (node : Node S W) (key : ℕ) (lock : S) (min : ℕ) where
  split_until-Ends :
      (fuel : ℕ) (w : W) (n : ℕ)
      → Grows node key lock
      → min ≤ 100
      → count_cells node w lock ≡ ok n
      → 0 < fuel
      → min < n + fuel
      → Ends node lock min (split_until node fuel w key lock min n)
  unfolding split_until
  split_until-Ends zero w n grows few c some_fuel enough = absurd (omega arith)
  split_until-Ends (suc fuel) w n grows few c some_fuel enough = elim (Bool-cases (ltb n min)) [
    | inr reached ↦ rw (reached, split_until) (inr (refl, n, c, ground arith))
    | inl below ↦ elim (Result-cases (split_cell node w key lock).1) [
      | inl (e, failed) ↦ rw (below, failed, split_until) (inl (e, refl))
      | inr (tx_hash, split) ↦
          elim (Result-cases (count_cells node (split_cell node w key lock).0 lock)) [
            | inl (e, failed) ↦ rw (below, split, failed, split_until) (inl (e, refl))
            | inr (n', c') ↦
                let more : n < n' = grows w n n' tx_hash (ground arith) c split c' in
                rw (below, split, c', split_until)
                  (split_until-Ends fuel (split_cell node w key lock).0 n' grows few c'
                    (ground arith) (omega arith))
          ]
    ]
  ]

  -- Where a committed split adds a cell, preparing at most 100 cells ends after at most `min`
  -- rounds: with an error, or with at least `min` cells in the wallet.
  pub ensure_minimum_cells-Ends :
      (w : W)
      → Grows node key lock
      → min ≤ 100
      → Ends node lock min (ensure_minimum_cells node min w key lock min)
  unfolding ensure_minimum_cells
  ensure_minimum_cells-Ends w grows few = elim (Result-cases (count_cells node w lock)) [
    | inl (e, failed) ↦ rw (failed, ensure_minimum_cells) (inl (e, refl))
    | inr (n, c) ↦ elim (Bool-cases (leb min n)) [
      | inl enough ↦ rw (c, enough, ensure_minimum_cells) (inr (refl, n, c, ground arith))
      | inr few_now ↦ elim (Bool-cases (n == 0)) [
        | inl empty ↦ rw (c, few_now, empty, ensure_minimum_cells) (inl (no_cells, refl))
        | inr has ↦
            rw (c, few_now, has, ensure_minimum_cells)
              (split_until-Ends min w n grows few c (ground arith) (ground arith))
      ]
    ]
  ]
