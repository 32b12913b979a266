-- ===== src/Router/Mac.antt =====
-- normalizeMACAddress of internal/router/openwrt.go.
use air_fi.Base.{
  ℕ, ◌+◌, ◌≡◌, refl, ap, inl, inr, false, ◌&&◌, ◌==◌, leb, [], ◌∷◌, map, length, if◌then◌else◌,
  arith, Bool-cases, All,
}
use air_fi.Base.Bytes.{Bytes}

unfoldable pub remove : ℕ → Bytes → Bytes
remove c [] = []
remove c (x ∷ xs) = if x == c then remove c xs else x ∷ remove c xs

abbrev pub lower : ℕ → ℕ
lower c = if leb b'A' c && leb c b'Z' then c + 32 else c

-- `strings.ToLower`, of ASCII.
abbrev pub to_lower : Bytes → Bytes
to_lower xs = map lower xs

-- With a colon after every second digit but the last; of twelve digits.
abbrev pub insert_colons : Bytes → Bytes
insert_colons (a ∷ b ∷ c ∷ xs) = a ∷ b ∷ b':' ∷ insert_colons (c ∷ xs)
insert_colons xs = xs

unfoldable pub separators_removed : Bytes → Bytes
unfolding remove
separators_removed mac = remove b'.' (remove b'-' (remove b':' mac))

unfoldable pub with_colons : Bytes → Bytes
with_colons digits = if length digits == 12 then insert_colons digits else digits

unfoldable pub normalize_mac_address : Bytes → Bytes
unfolding separators_removed with_colons
normalize_mac_address mac = with_colons (to_lower (separators_removed mac))

-- A digit of a normalized address: no separator, and in lower case.
abbrev pub Differs : ℕ → ℕ → Type 0
Differs k c = (c == k) ≡ false

abbrev pub IsPlain : ℕ → Type 0
IsPlain c = Differs b':' c × Differs b'-' c × Differs b'.' c

remove-Differs : (k : ℕ) (xs : Bytes) → All (Differs k) (remove k xs)
unfolding remove
remove-Differs k [] = tt
remove-Differs k (x ∷ xs) = elim (Bool-cases (x == k)) [
  | inl hit ↦ rw (hit, remove) (remove-Differs k xs)
  | inr miss ↦ rw (miss, remove) (miss, remove-Differs k xs)
]

remove-keeps : (P : ℕ → Type 0) (k : ℕ) (xs : Bytes) → All P xs → All P (remove k xs)
unfolding remove
remove-keeps P k [] h = tt
remove-keeps P k (x ∷ xs) (h, hs) = elim (Bool-cases (x == k)) [
  | inl hit ↦ rw (hit, remove) (remove-keeps P k xs hs)
  | inr miss ↦ rw (miss, remove) (h, remove-keeps P k xs hs)
]

remove-none : (k : ℕ) (xs : Bytes) → All (Differs k) xs → remove k xs ≡ xs
unfolding remove
remove-none k [] h = refl
remove-none k (x ∷ xs) (h, hs) = rw (h, remove) (ap (◌∷◌ x) (remove-none k xs hs))

abbrev Normal : ℕ → Type 0
Normal c = IsPlain c × (lower c ≡ c)

lower-Normal : (c : ℕ) → IsPlain c → Normal (lower c)
lower-Normal c (a, b, d) = ((ground arith, ground arith, ground arith), ground arith)

plain :
    (xs : Bytes)
    → All (Differs b':') xs
    → All (Differs b'-') xs
    → All (Differs b'.') xs
    → All Normal (to_lower xs)
plain [] a b c = tt
plain (x ∷ xs) (a, as1) (b, bs) (c, cs) = (lower-Normal x (a, b, c), plain xs as1 bs cs)

digits-Normal : (mac : Bytes) → All Normal (to_lower (separators_removed mac))
unfolding separators_removed
digits-Normal mac =
    let one = remove b':' mac in
    let two = remove b'-' one in
    plain (remove b'.' two)
      (remove-keeps (Differs b':') b'.' two
        (remove-keeps (Differs b':') b'-' one (remove-Differs b':' mac)))
      (remove-keeps (Differs b'-') b'.' two (remove-Differs b'-' one)) (remove-Differs b'.' two)

parts_of :
    (xs : Bytes)
    → All Normal xs
    → All (Differs b':') xs × All (Differs b'-') xs × All (Differs b'.') xs × (to_lower xs ≡ xs)
parts_of [] h = (tt, tt, tt, refl)
parts_of (x ∷ xs) ((p, e), hs) =
    let (a, b, c) = p in
    let (as1, bs, cs, es) = parts_of xs hs in ((a, as1), (b, bs), (c, cs), λ i. e i ∷ es i)

normal_stays : (xs : Bytes) → All Normal xs → to_lower (separators_removed xs) ≡ xs
unfolding separators_removed
normal_stays xs h =
    let (a, b, c, e) = parts_of xs h in
    rw (remove-none b':' xs a, remove-none b'-' xs b, remove-none b'.' xs c) e

remove-insert_colons : (xs : Bytes) → All (Differs b':') xs → remove b':' (insert_colons xs) ≡ xs
unfolding remove
remove-insert_colons [] h = refl
remove-insert_colons (a ∷ []) (p, h) = rw (p, remove) refl
remove-insert_colons (a ∷ b ∷ []) (p, (q, h)) = rw (p, remove) (ap (◌∷◌ a) (rw (q, remove) refl))
remove-insert_colons (a ∷ b ∷ c ∷ xs) (p, (q, (r, h))) =
    rw (p, remove) (ap (◌∷◌ a) (rw (q, remove) (ap (◌∷◌ b) (remove-insert_colons (c ∷ xs) (r, h)))))

with_colons_stays :
    (xs : Bytes) → All Normal xs → to_lower (separators_removed (insert_colons xs)) ≡ xs
unfolding separators_removed
with_colons_stays xs h =
    let (a, b, c, e) = parts_of xs h in
    rw (remove-insert_colons xs a, remove-none b'-' xs b, remove-none b'.' xs c) e

either_stays : (xs : Bytes) → All Normal xs → to_lower (separators_removed (with_colons xs)) ≡ xs
unfolding with_colons
either_stays xs h = elim (Bool-cases (length xs == 12)) [
  | inl twelve ↦ rw (with_colons, twelve) (with_colons_stays xs h)
  | inr other ↦ rw (with_colons, other) (normal_stays xs h)
]

-- Normalizing a MAC address twice is normalizing it once, whatever separators and cases it is
-- written with.
pub normalize_mac_address-normalize_mac_address :
    (mac : Bytes) → normalize_mac_address (normalize_mac_address mac) ≡ normalize_mac_address mac
unfolding normalize_mac_address
normalize_mac_address-normalize_mac_address mac =
    ap with_colons (either_stays (to_lower (separators_removed mac)) (digits-Normal mac))
