-- ===== src/Api/Middleware/Header.antt =====
-- internal/api/middleware.go: which Authorization headers carry a token.
use Prim.Native.Char.{Char, code}
use air_fi.Base.{
  ℕ, ◌+◌, ◌≤◌, ◌≡◌, refl, sym, subst, ap, ◌∙◌, ◌↔◌, ◌⊎◌, inl, inr, Bool-cases, Option-cases, String,
  Bool, true, false, Option, none, some, [], ◌∷◌, ◌==◌, ◌&&◌, leb, if◌then◌else◌, arith, All,
}
use air_fi.Base.Bytes.{Bytes, codes}
use air_fi.Api.Middleware.{split_space, to_lower, same_codes, is_bearer, bearer_token}

abbrev pub joined : String → Char → String → String
joined String.[] c token = String.◌∷◌ c token
joined (String.◌∷◌ x word) c token = String.◌∷◌ x (joined word c token)

-- The same letters, the second written small, whatever the case of the first.
abbrev pub SameLetters : Bytes → Bytes → Type 0
SameLetters [] [] = Unit
SameLetters (x ∷ xs) (y ∷ ys) = ((x ≡ y) ⊎ (x + 32 ≡ y)) × SameLetters xs ys
SameLetters _ _ = ⊥

-- A header that is the word "bearer" in any case of letters, a space, and the token.
pub record Carries (header token : String) : Type 0 where
  pub word : String
  pub space : Char
  pub is_space : code space ≡ 32
  pub split : header ≡ joined word space token
  pub is_bearer : SameLetters (codes word) (codes "bearer")

abbrev IsSmall : ℕ → Type 0
IsSmall y = (97 ≤ y) × (y ≤ 122)

matched :
    (x y : ℕ) (b : Bool)
    → (if (if leb 65 x && leb x 90 then x + 32 else x) == y then b else false) ≡ true
    → ((x ≡ y) ⊎ (x + 32 ≡ y)) × (b ≡ true)
matched x y b e = ground arith

matching :
    (x y : ℕ) (b : Bool)
    → IsSmall y
    → (x ≡ y) ⊎ (x + 32 ≡ y)
    → b ≡ true
    → (if (if leb 65 x && leb x 90 then x + 32 else x) == y then b else false) ≡ true
matching x y b small p e = ground arith

same_codes→SameLetters : (xs ys : Bytes) → same_codes (to_lower xs) ys ≡ true → SameLetters xs ys
same_codes→SameLetters [] [] e = tt
same_codes→SameLetters [] (y ∷ ys) e = absurd (ground arith)
same_codes→SameLetters (x ∷ xs) [] e = absurd (ground arith)
same_codes→SameLetters (x ∷ xs) (y ∷ ys) e =
    let p = matched x y _ e in (p.0, same_codes→SameLetters xs ys p.1)

SameLetters→same_codes :
    (xs ys : Bytes) → All IsSmall ys → SameLetters xs ys → same_codes (to_lower xs) ys ≡ true
SameLetters→same_codes [] [] small e = refl
SameLetters→same_codes [] (y ∷ ys) small e = absurd e
SameLetters→same_codes (x ∷ xs) [] small e = absurd e
SameLetters→same_codes (x ∷ xs) (y ∷ ys) (s0, small) (p, e) =
    matching x y _ s0 p (SameLetters→same_codes xs ys small e)

not_blank : (x y : ℕ) → IsSmall y → (x ≡ y) ⊎ (x + 32 ≡ y) → (x == 32) ≡ false
not_blank x y small p = ground arith

split_space-joined :
    (word : String) (c : Char) (token : String) (ys : Bytes)
    → code c ≡ 32
    → All IsSmall ys
    → SameLetters (codes word) ys
    → split_space (joined word c token) ≡ some (word, token)
unfolding split_space
split_space-joined String.[] c token ys sp small e = ground (arith)
split_space-joined (String.◌∷◌ x word) c token [] sp small e = absurd e
split_space-joined (String.◌∷◌ x word) c token (y ∷ ys) sp (s0, small) (p, e) =
    let other : (code x == 32) ≡ false = not_blank (code x) y s0 p in
    rw (split_space, other, split_space-joined word c token ys sp small e) refl

split_space-splits :
    (header word token : String)
    → split_space header ≡ some (word, token)
    → (c : Char) × (code c ≡ 32) × (header ≡ joined word c token)
unfolding split_space
split_space-splits String.[] word token e = absurd (ground arith)
split_space-splits (String.◌∷◌ x rest) word token e = elim (Bool-cases (code x == 32)) [
  | inl blank ↦ blank_first (ground arith) (rw (split_space, blank) at e)
  | inr other ↦ elim (Option-cases (split_space rest)) [
    | inl bad ↦ absurd (none_some (rw (split_space, other, bad) at e))
    | inr ((w, t), more) ↦
        let p = split_space-splits rest w t more in
        later w t p.0 p.1 p.2 (rw (split_space, other, more) at e)
  ]
]
  where
    none_some : ¬ (◌≡◌ {A = Option (String × String)} none (some (word, token)))
    none_some e = cc e

    blank_first :
        code x ≡ 32
        → ◌≡◌ {A = Option (String × String)} (some (String.[], rest)) (some (word, token))
        → (c : Char) × (code c ≡ 32) × (String.◌∷◌ x rest ≡ joined word c token)
    blank_first sp e =
        let named : String.[] ≡ word = cc e in
        let left : rest ≡ token = cc e in
        (x, sp, subst (λ w. String.◌∷◌ x rest ≡ joined w x token) named (ap (String.◌∷◌ x) left))

    later :
        (w t : String) (c : Char)
        → code c ≡ 32
        → rest ≡ joined w c t
        → ◌≡◌ {A = Option (String × String)} (some (String.◌∷◌ x w, t)) (some (word, token))
        → (c : Char) × (code c ≡ 32) × (String.◌∷◌ x rest ≡ joined word c token)
    later w t c sp split e =
        let named : String.◌∷◌ x w ≡ word = cc e in
        let left : t ≡ token = cc e in
        (
          c,
          sp,
          subst (λ v. String.◌∷◌ x rest ≡ joined v c token) named
              (ap (String.◌∷◌ x) (split ∙ ap (joined w c) left)),
        )

IsSmall-bearer : All IsSmall (codes "bearer")
IsSmall-bearer = omega arith

-- The parser finds the token that the header carries, and no other.
pub bearer_token-Carries :
    (header token : String) → (bearer_token header ≡ some token) ↔ Carries header token
unfolding bearer_token
bearer_token-Carries header token = (finds, found)
  where
    none_some : ¬ (none ≡ some token)
    none_some e = cc e

    carried :
        (word t : String)
        → split_space header ≡ some (word, t)
        → is_bearer word ≡ true
        → some t ≡ some token
        → Carries header token
    carried word t parts good e =
        let p = split_space-splits header word t parts in
        let same : t ≡ token = cc e in
        record {
          word = word;
          space = p.0;
          is_space = p.1;
          split = p.2 ∙ ap (joined word p.0) same;
          is_bearer = same_codes→SameLetters (codes word) _ good;
        }

    finds : bearer_token header ≡ some token → Carries header token
    finds e = elim (Option-cases (split_space header)) [
      | inl bad ↦ absurd (none_some (rw (bearer_token, bad) at e))
      | inr ((word, t), parts) ↦ elim (Bool-cases (is_bearer word)) [
        | inl good ↦ carried word t parts good (rw (bearer_token, parts, good) at e)
        | inr bad ↦ absurd (none_some (rw (bearer_token, parts, bad) at e))
      ]
    ]

    found : Carries header token → bearer_token header ≡ some token
    found r =
        let parts =
          split_space-joined r.word r.space token _ r.is_space IsSmall-bearer r.is_bearer in
        let named = SameLetters→same_codes (codes r.word) _ IsSmall-bearer r.is_bearer in
        subst (λ x. bearer_token x ≡ some token) (sym r.split)
          (rw (bearer_token, parts, named) refl)
