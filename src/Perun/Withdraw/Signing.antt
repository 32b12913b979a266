-- ===== src/Perun/Withdraw/Signing.antt =====
-- What the two signing routines of internal/perun cover: cell_splitter.go's the first witness, and
-- withdraw.go's all of them. The chain wants all that belong to one lock.
use air_fi.Base.{ℕ, ◌+◌, ◌≤◌, ◌≡◌, ◌≢◌, refl, ap, List, [], ◌∷◌, ◌++◌, arith, length, length-append}
use air_fi.Base.Bytes.{Bytes, put_uint64_le}
use air_fi.Perun.Cells.{sign_message}
use air_fi.Perun.Withdraw.{sign_message_all}

length_le : (n : ℕ) → length (put_uint64_le n) ≡ 8
unfolding put_uint64_le
length_le n = refl

grows_by :
    (message x : Bytes)
    → length (message ++ (put_uint64_le (length x) ++ x)) ≡ length message + 8 + length x
grows_by message x = omega (
  arith,
  length-append message (put_uint64_le (length x) ++ x),
  length-append (put_uint64_le (length x)) x,
  length_le (length x),
)

never_shorter :
    (message : Bytes) (xs : List Bytes) → length message ≤ length (sign_message_all message xs)
unfolding sign_message_all
never_shorter message [] = omega arith
never_shorter message (x ∷ xs) =
    omega (arith, never_shorter (message ++ (put_uint64_le (length x) ++ x)) xs, grows_by message x)

-- With two witnesses or more, the message that the cell splitter signs is not the one that covers
-- every witness, whatever the transaction's hash and the witnesses are.
pub sign_message_partial :
    (tx_hash x y : Bytes) (ys : List Bytes)
    → sign_message tx_hash x ≢ sign_message_all tx_hash (x ∷ y ∷ ys)
unfolding sign_message sign_message_all
sign_message_partial tx_hash x y ys same =
    let first = tx_hash ++ (put_uint64_le (length x) ++ x) in
    let both = first ++ (put_uint64_le (length y) ++ y) in
    let longer = never_shorter both ys in
    let same_length : length first ≡ length (sign_message_all both ys) = ap length same in
    omega (arith, longer, grows_by first y, same_length)
