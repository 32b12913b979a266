-- ===== src/Perun/Crypto.antt =====
-- internal/perun/client.go: SignData and VerifySignature. SHA-256 and ECDSA are not implemented by
-- the program: they are the fields of a record, which every user takes as a parameter.
use air_fi.Base.{
  ℕ, ◌≤◌, ◌<◌, ◌^◌, ◌≡◌, refl, ap, subst, Bool, false, Option, some, [], ◌∷◌, ◌++◌, arith, Result,
  ok, or_fail, ◌>>=◌, if◌then◌else◌, ◌==◌, length, length-append,
}
use air_fi.Base.Bytes.{
  Bytes, big_bytes, set_bytes, set_bytes-big_bytes, length-big_bytes_le, length-big_bytes_gt,
}

pub record Crypto : Type 0 where
  pub sha256 : Bytes → Bytes
  -- `ecdsa.Sign` with the loaded private key, and `none` where no key is loaded. The call may fail.
  pub private_key : Option (Bytes → Option (ℕ × ℕ))
  -- `ecdsa.Verify` with a public key.
  pub ecdsa_verify : Bytes → ℕ → ℕ → Bool

pub data SignError : Type 0 where
  key_not_loaded sign_failed : SignError

abbrev pub take : ℕ → Bytes → Bytes
take ℕ.zero xs = []
take (ℕ.suc n) [] = []
take (ℕ.suc n) (x ∷ xs) = x ∷ take n xs

abbrev pub drop : ℕ → Bytes → Bytes
drop ℕ.zero xs = xs
drop (ℕ.suc n) [] = []
drop (ℕ.suc n) (x ∷ xs) = drop n xs

take-append : (xs ys : Bytes) → take (length xs) (xs ++ ys) ≡ xs
take-append [] ys = refl
take-append (x ∷ xs) ys = ap (◌∷◌ x) (take-append xs ys)

drop-append : (xs ys : Bytes) → drop (length xs) (xs ++ ys) ≡ ys
drop-append [] ys = refl
drop-append (x ∷ xs) ys = drop-append xs ys

pub take-append_eq : (n : ℕ) (xs ys : Bytes) → length xs ≡ n → take n (xs ++ ys) ≡ xs
take-append_eq n xs ys e = subst (λ k. take k (xs ++ ys) ≡ xs) e (take-append xs ys)

drop-append_eq : (n : ℕ) (xs ys : Bytes) → length xs ≡ n → drop n (xs ++ ys) ≡ ys
drop-append_eq n xs ys e = subst (λ k. drop k (xs ++ ys) ≡ ys) e (drop-append xs ys)

module _ (c : Crypto) where
  pub sign_data : Bytes → Result SignError Bytes
  sign_data d = do
    sign ← or_fail c.private_key key_not_loaded
    rs ← or_fail (sign (c.sha256 d)) sign_failed
    ok (big_bytes rs.0 ++ big_bytes rs.1)

  pub verify_signature : Bytes → Bytes → Bool
  verify_signature d signature =
      if length signature == 64
      then c.ecdsa_verify (c.sha256 d) (set_bytes (take 32 signature))
          (set_bytes (drop 32 signature))
      else false

  length-full : (r : ℕ) → 256 ^ 31 ≤ r → r < 256 ^ 32 → length (big_bytes r) ≡ 32
  length-full r lo hi = omega (arith, length-big_bytes_le r 32 hi, length-big_bytes_gt r 31 lo)

  verify_bytes :
      (d : Bytes) (r s : ℕ)
      → length (big_bytes r) ≡ 32
      → length (big_bytes s) ≡ 32
      → verify_signature d (big_bytes r ++ big_bytes s) ≡ c.ecdsa_verify (c.sha256 d) r s
  unfolding verify_signature
  verify_bytes d r s hr hs =
      let xs = big_bytes r in
      let ys = big_bytes s in
      rw (
        length-append xs ys,
        hr,
        hs,
        take-append_eq 32 xs ys hr,
        drop-append_eq 32 xs ys hr,
        set_bytes-big_bytes r,
        set_bytes-big_bytes s,
      )

  -- A signature of two full 32-byte numbers is checked as what was signed: verification passes
  -- exactly when ECDSA accepts the pair.
  pub verify_signature-sign_data :
      (sign : Bytes → Option (ℕ × ℕ)) (d : Bytes) (r s : ℕ)
      → c.private_key ≡ some sign
      → sign (c.sha256 d) ≡ some (r, s)
      → 256 ^ 31 ≤ r
      → r < 256 ^ 32
      → 256 ^ 31 ≤ s
      → s < 256 ^ 32
      → (sig : Bytes) × (sign_data d ≡ ok sig)
        × (verify_signature d sig ≡ c.ecdsa_verify (c.sha256 d) r s)
  unfolding sign_data
  verify_signature-sign_data sign d r s hk hs rl rh sl sh = (
    big_bytes r ++ big_bytes s,
    rw (hk, hs),
    verify_bytes d r s (length-full r rl rh) (length-full s sl sh),
  )

  -- Where either number is below 2 ^ 248, its leading zero byte is left out of the signature, and
  -- the signature that was just made is refused, whatever ECDSA says of it.
  pub verify_signature-short :
      (sign : Bytes → Option (ℕ × ℕ)) (d : Bytes) (r s : ℕ)
      → c.private_key ≡ some sign
      → sign (c.sha256 d) ≡ some (r, s)
      → r < 256 ^ 31
      → s < 256 ^ 32
      → (sig : Bytes) × (sign_data d ≡ ok sig) × (verify_signature d sig ≡ false)
  unfolding sign_data verify_signature
  verify_signature-short sign d r s hk hs rh sh = (
    big_bytes r ++ big_bytes s,
    rw (hk, hs),
    ground (
      arith,
      length-append (big_bytes r) (big_bytes s),
      length-big_bytes_le r 31 rh,
      length-big_bytes_le s 32 sh,
    ),
  )
