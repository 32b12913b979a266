-- ===== src/Db/Rows.antt =====
-- What the SQL statements of internal/db/db.go do to the rows of one table, in the order of
-- insertion.
use air_fi.Base.{
  ◌≡◌, refl, sym, ap, ◌∙◌, inl, inr, Bool, true, Option, none, some, List, [], ◌∷◌, ◌++◌,
  if◌then◌else◌, arith, Bool-cases, All,
}
use mathlib.Core.List.{Perm}
use mathlib.Core.List.Perm
use air_fi.Base.Int.{ℤ, ◌≤ℤ◌, leb_ℤ}

module _ {ℓ} {R : Type ℓ} where
  -- `SELECT ... WHERE`, read by `QueryRow`: the first row.
  unfoldable pub find_row : (R → Bool) → List R → Option R
  find_row p [] = none
  find_row p (r ∷ rs) = if p r then some r else find_row p rs

  -- `UPDATE ... WHERE`
  unfoldable pub update_rows : (R → Bool) → (R → R) → List R → List R
  update_rows p f [] = []
  update_rows p f (r ∷ rs) = (if p r then f r else r) ∷ update_rows p f rs

  -- `SELECT ... WHERE`, read row by row.
  unfoldable pub filter_rows : (R → Bool) → List R → List R
  filter_rows p [] = []
  filter_rows p (r ∷ rs) = if p r then r ∷ filter_rows p rs else filter_rows p rs

  -- `INSERT`, refused where a row that is there clashes with the new one.
  unfoldable pub insert_row : (R → Bool) → R → List R → Option (List R)
  unfolding find_row
  insert_row clashes r rs = elim (find_row clashes rs) [
    | some _ ↦ none
    | none ↦ some (rs ++ r ∷ [])
  ]

  -- `ORDER BY`, on a key that grows.
  place : (R → ℤ) → R → List R → List R
  place key r [] = r ∷ []
  place key r (s ∷ ss) = if leb_ℤ (key r) (key s) then r ∷ s ∷ ss else s ∷ place key r ss

  unfoldable pub order_by : (R → ℤ) → List R → List R
  unfolding place
  order_by key [] = []
  order_by key (r ∷ rs) = place key r (order_by key rs)

  abbrev pub IsBelow : (R → ℤ) → R → List R → Type 0
  IsBelow key r ss = All (λ s. key r ≤ℤ key s) ss

  abbrev pub IsOrdered : (R → ℤ) → List R → Type 0
  IsOrdered key [] = Unit {0}
  IsOrdered key (r ∷ rs) = IsBelow key r rs × IsOrdered key rs

  IsBelow-weaken :
      (key : R → ℤ) (r s : R) (ss : List R) → key r ≤ℤ key s → IsBelow key s ss → IsBelow key r ss
  IsBelow-weaken key r s [] h b = tt
  IsBelow-weaken key r s (x ∷ xs) h (b, bs) = (omega arith, IsBelow-weaken key r s xs h bs)

  IsBelow-place :
      (key : R → ℤ) (x r : R) (ss : List R)
      → key x ≤ℤ key r
      → IsBelow key x ss
      → IsBelow key x (place key r ss)
  unfolding place
  IsBelow-place key x r [] h b = (h, tt)
  IsBelow-place key x r (s ∷ ss) h (b, bs) = elim (Bool-cases (leb_ℤ (key r) (key s))) [
    | inl e ↦ rw (e, place) (h, (b, bs))
    | inr e ↦ rw (e, place) (b, IsBelow-place key x r ss h bs)
  ]

  IsOrdered-place :
      (key : R → ℤ) (r : R) (ss : List R) → IsOrdered key ss → IsOrdered key (place key r ss)
  unfolding place
  IsOrdered-place key r [] o = (tt, tt)
  IsOrdered-place key r (s ∷ ss) (b, o) = elim (Bool-cases (leb_ℤ (key r) (key s))) [
    | inl e ↦ rw (e, place) ((ground arith, IsBelow-weaken key r s ss (ground arith) b), (b, o))
    | inr e ↦ rw (e, place) (IsBelow-place key s r ss (ground arith) b, IsOrdered-place key r ss o)
  ]

  place-perm : (key : R → ℤ) (r : R) (ss : List R) → Perm (place key r ss) (r ∷ ss)
  unfolding place
  place-perm key r [] = Perm.rfl
  place-perm key r (s ∷ ss) = elim (Bool-cases (leb_ℤ (key r) (key s))) [
    | inl e ↦ rw (e, place) Perm.rfl
    | inr e ↦ rw (e, place) (Perm.trans (Perm.cons s (place-perm key r ss)) (Perm.swap r s ss))
  ]

  pub order_by-IsOrdered : (key : R → ℤ) (rs : List R) → IsOrdered key (order_by key rs)
  unfolding order_by
  order_by-IsOrdered key [] = tt
  order_by-IsOrdered key (r ∷ rs) =
      IsOrdered-place key r (order_by key rs) (order_by-IsOrdered key rs)

  pub order_by-perm : (key : R → ℤ) (rs : List R) → Perm (order_by key rs) rs
  unfolding order_by
  order_by-perm key [] = Perm.rfl
  order_by-perm key (r ∷ rs) =
      Perm.trans (place-perm key r (order_by key rs)) (Perm.cons r (order_by-perm key rs))

  some_not-none : (r : R) → ¬ (some r ≡ none)
  some_not-none r e = cc e

  -- A row that no other clashes with is found once it is there.
  pub find_row-append :
      (p : R → Bool) (r : R) (rs : List R)
      → find_row p rs ≡ none
      → p r ≡ true
      → find_row p (rs ++ r ∷ []) ≡ some r
  unfolding find_row
  find_row-append p r [] e h = rw h refl
  find_row-append p r (s ∷ ss) e h = elim (Bool-cases (p s)) [
    | inl hit ↦ absurd (some_not-none s (rw (hit, find_row) at e))
    | inr miss ↦ rw (miss, find_row) (find_row-append p r ss (rw (miss, find_row) at e) h)
  ]

  some_eq : {a b : R} → some a ≡ some b → a ≡ b
  some_eq e = cc e

  -- The first of the rows that are updated, where an updated row stays among them.
  pub find_row-update_rows :
      (p : R → Bool) (f : R → R) (rs : List R) (x : R)
      → ((r : R) → p (f r) ≡ p r)
      → find_row p rs ≡ some x
      → find_row p (update_rows p f rs) ≡ some (f x)
  unfolding find_row update_rows
  find_row-update_rows p f [] x h e = absurd (some_not-none x (sym e))
  find_row-update_rows p f (r ∷ rs) x h e = elim (Bool-cases (p r)) [
    | inl hit ↦
        let same : some r ≡ some x = rw (hit, find_row) at e in
        rw (hit, update_rows) (rw (h r ∙ hit, find_row) (ap (λ y. some (f y)) (some_eq same)))
    | inr miss ↦
        rw (miss, update_rows)
          (rw (miss, find_row) (find_row-update_rows p f rs x h (rw (miss, find_row) at e)))
  ]
