-- ===== src/Perun/Cells/Selection.antt =====
-- Which cell SplitCell of internal/perun/cell_splitter.go picks, and into what it splits it.
use air_fi.Base.{
  ℕ, ◌+◌, ◌-◌, ◌/◌, ◌^◌, ◌≤◌, ◌<◌, ◌≡◌, refl, ◌⊎◌, inl, inr, ◌&&◌, none, some, List, [], ◌∷◌, leb,
  arith, Bool-cases, All,
}
use air_fi.Base.Word.{sub_u64-eq}
use mathlib.Core.List.{Memᴰ}
use air_fi.Perun.Cells.{
  LiveCell, split_fee, cell_min_capacity, min_split_capacity, is_better, pick, split_capacities,
}

-- A cell that can be split becomes two equal halves, up to one shannon, that together are worth
-- it less the fee; each is at least the least capacity of a cell.
pub split_capacities_halves :
    (total : ℕ)
    → min_split_capacity ≤ total
    → total < 2 ^ 64
    → let (first, second) = split_capacities total in
      (first + second + split_fee ≡ total)
      × (cell_min_capacity ≤ first)
      × (first ≤ second)
      × (second ≤ first + 1)
unfolding split_capacities
split_capacities_halves total lo hi = ground (
  arith,
  sub_u64-eq total split_fee (omega arith) hi,
  sub_u64-eq (total - split_fee) ((total - split_fee) / 2) (omega arith) (omega arith),
)

abbrev capacity_of : {S : Type 0} → LiveCell S → ℕ
capacity_of x = x.output.capacity

-- No cell of a list is both splittable and larger than `n`.
abbrev pub AtMost : {S : Type 0} → ℕ → List (LiveCell S) → Type 0
AtMost n cells = All (λ x. (x.output.capacity < min_split_capacity) ⊎ (x.output.capacity ≤ n)) cells

module _ {S : Type 0} where
  weaken : (m n : ℕ) (cells : List (LiveCell S)) → m ≤ n → AtMost m cells → AtMost n cells
  weaken m n [] h a = tt
  weaken m n (x ∷ xs) h (a, rest) = (ground arith, weaken m n xs h rest)

  -- What the loop returns once it has a candidate.
  record Picks (best : LiveCell S) (cells : List (LiveCell S)) : Type 0 where
    y : LiveCell S
    is_picked : pick (some best) cells ≡ some y
    origin : (y ≡ best) ⊎ Memᴰ y cells
    at_least : best.output.capacity ≤ y.output.capacity
    largest : AtMost y.output.capacity cells

  pick-Picks : (best : LiveCell S) (cells : List (LiveCell S)) → Picks best cells
  unfolding pick
  pick-Picks best [] = record {
    y = best;
    is_picked = refl;
    origin = inl refl;
    at_least = omega arith;
    largest = tt;
  }
  pick-Picks best (x ∷ xs) =
      elim (Bool-cases (leb min_split_capacity x.output.capacity && is_better (some best) x)) [
        | inl better ↦
            let p = pick-Picks x xs in
            record {
              y = p.y;
              is_picked = rw (better, pick) p.is_picked;
              origin = elim p.origin [ inl e ↦ inr (Memᴰ.head e) | inr m ↦ inr (Memᴰ.tail m) ];
              at_least = ground (arith, p.at_least);
              largest = (inr p.at_least, p.largest);
            }
        | inr worse ↦
            let p = pick-Picks best xs in
            record {
              y = p.y;
              is_picked = rw (worse, pick) p.is_picked;
              origin = elim p.origin [ inl e ↦ inl e | inr m ↦ inr (Memᴰ.tail m) ];
              at_least = p.at_least;
              largest = (ground (arith, p.at_least), p.largest);
            }
      ]

  -- The loop finds a cell exactly when some cell can be split, and then finds one of the cells, of
  -- which none that can be split is larger.
  pub pick_largest :
      (cells : List (LiveCell S))
      → ((pick none cells ≡ none) × All (λ x. x.output.capacity < min_split_capacity) cells)
        ⊎ ((y : LiveCell S) × (pick none cells ≡ some y)
            × Memᴰ y cells
            × (min_split_capacity ≤ y.output.capacity)
            × AtMost y.output.capacity cells)
  unfolding pick
  pick_largest [] = inl (refl, tt)
  pick_largest (x ∷ xs) = elim (Bool-cases (leb min_split_capacity x.output.capacity)) [
    | inl fits ↦
        let p = pick-Picks x xs in
        inr (
          p.y,
          rw (fits, pick) p.is_picked,
          elim p.origin [ inl e ↦ Memᴰ.head e | inr m ↦ Memᴰ.tail m ],
          ground (arith, p.at_least),
          (inr p.at_least, p.largest),
        )
    | inr small ↦ elim (pick_largest xs) [
      | inl (missing, all) ↦ inl (rw (small, pick) missing, (ground arith, all))
      | inr (y, found, m, enough, rest) ↦
          inr (y, rw (small, pick) found, Memᴰ.tail m, enough, (inl (ground arith), rest))
    ]
  ]
