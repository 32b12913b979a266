-- ===== src/Hostcli/Shortening.antt =====
-- How long what cmd/hostcli shows of an address can be.
use air_fi.Base.{
  ℕ, suc, ◌-◌, ◌/◌, ◌≤◌, ◌<◌, inl, inr, [], ◌∷◌, ◌++◌, length, length-append, leb, ltb, arith,
  Bool-cases,
}
use air_fi.Base.Bytes.{Bytes, codes}
use air_fi.Perun.Crypto.{take, drop}
use air_fi.Hostcli.{truncate_address}

length-take_le : (n : ℕ) (xs : Bytes) → length (take n xs) ≤ n
length-take_le ℕ.zero xs = omega arith
length-take_le (suc n) [] = omega arith
length-take_le (suc n) (x ∷ xs) = omega (arith, length-take_le n xs)

length-drop : (n : ℕ) (xs : Bytes) → length (drop n xs) ≤ length xs - n
length-drop ℕ.zero xs = omega arith
length-drop (suc n) [] = omega arith
length-drop (suc n) (x ∷ xs) = omega (arith, length-drop n xs)

-- An address is never shown longer than asked for.
pub truncate_address_fits :
    (addr : Bytes) (max_len : ℕ) → length (truncate_address addr max_len) ≤ max_len
unfolding truncate_address
truncate_address_fits addr max_len = elim (Bool-cases (leb (length addr) max_len)) [
  | inl short ↦ rw (truncate_address, short) (ground arith)
  | inr long ↦ elim (Bool-cases (ltb max_len 10)) [
    | inl narrow ↦ rw (truncate_address, long, narrow) (length-take_le max_len addr)
    | inr wide ↦
        let half = (max_len - 3) / 2 in
        let room : 10 ≤ max_len = ground arith in
        let over : max_len < length addr = ground arith in
        rw (truncate_address, long, wide)
          (omega (
            arith,
            length-append (take half addr) (codes "..." ++ drop (length addr - half) addr),
            length-append (codes "...") (drop (length addr - half) addr),
            length-take_le half addr,
            length-drop (length addr - half) addr,
          ))
  ]
]
