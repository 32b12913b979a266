-- ===== src/Perun/Withdraw/Sender.antt =====
-- GetSenderAddress of internal/perun/withdraw.go: who is taken for the sender.
use air_fi.Base.{
  ℕ, zero, suc, ◌≡◌, ◌≢◌, ◌↔◌, refl, sym, subst, ap, ◌∙◌, inl, inr, false, String, Option, none,
  some, List, [], ◌∷◌, ◌++◌, if◌then◌else◌, ◌==◌, arith, Option-cases, ok, All, length,
}
use air_fi.Base.Bytes.{Bytes}
use air_fi.Perun.Cells.{CellInput, CellOutput, Transaction}
use air_fi.Perun.Withdraw.{
  Scripts, History, nth, and_then, sender_of, first_sender, get_sender_address,
}

some_eq : {A : Type 0} {a b : A} → some a ≡ some b → a ≡ b
some_eq e = cc

and_then-some :
    {A B : Type 0} (o : Option A) (f : A → Option B) (b : B)
    → and_then o f ≡ some b
    → (a : A) × (o ≡ some a) × (f a ≡ some b)
unfolding and_then
and_then-some none f b e = absurd (ground arith)
and_then-some (some a) f b e = (a, refl, e)

and_then-hit :
    {A B : Type 0} (o : Option A) (f : A → Option B) (a : A) → o ≡ some a → and_then o f ≡ f a
unfolding and_then
and_then-hit o f a e = ap (λ x. and_then x f) e

held :
    {A : Type 0} (o : Option (Option A)) (a : A) → and_then o (λ x. x) ≡ some a → o ≡ some (some a)
unfolding and_then
held none a e = absurd (ground arith)
held (some x) a e = ap some e

-- The element at an index, as a split of the list.
abbrev At {ℓ} : {A : Type ℓ} → ℕ → List A → A → Type ℓ
At {A = A} n xs x =
    (before : List A) × (after : List A) × (xs ≡ before ++ x ∷ after) × (length before ≡ n)

nth-At : {A : Type 0} (n : ℕ) (xs : List A) (x : A) → nth n xs ≡ some x → At n xs x
unfolding nth
nth-At n [] x e = absurd (ground arith)
nth-At zero (y ∷ ys) x e = ([], ys, ap (λ z. z ∷ ys) (some_eq e), refl)
nth-At (suc n) (y ∷ ys) x e =
    let (before, after, split, count) = nth-At n ys x e in
    (y ∷ before, after, ap (◌∷◌ y) split, ap suc count)

nth-first :
    {A : Type 0} (xs : List A) (x : A) → nth 0 xs ≡ some x → (others : List A) × (xs ≡ x ∷ others)
unfolding nth
nth-first [] x e = absurd (ground arith)
nth-first (y ∷ ys) x e = (ys, ap (λ z. z ∷ ys) (some_eq e))

nth-append :
    {A : Type 0} (before after : List A) (x : A)
    → nth (length before) (before ++ x ∷ after) ≡ some x
unfolding nth
nth-append [] after x = refl
nth-append (y ∷ ys) after x = nth-append ys after x

At-nth : {A : Type 0} (n : ℕ) (xs : List A) (x : A) → At n xs x → nth n xs ≡ some x
At-nth n xs x (before, after, split, count) =
    subst (λ k. nth k xs ≡ some x) count
      (ap (nth (length before)) split ∙ nth-append before after x)

some_transactions :
    (txs before after : List Bytes) (t : Bytes)
    → txs ≡ before ++ t ∷ after
    → (length txs == 0) ≡ false
some_transactions [] [] after t e = absurd (cc e)
some_transactions [] (b ∷ before) after t e = absurd (cc e)
some_transactions (x ∷ xs) before after t e = ground arith

module _ {S : Type 0} (scripts : Scripts S) (h : History S) where
  -- The first input of the transaction spent an output, the one at the input's index in the
  -- transaction it names, whose lock is not the wallet's; the address is that lock's.
  pub record Sent (lock : S) (tx_hash : Bytes) (address : String) : Type 0 where
    pub tx : Transaction S
    pub spent : Transaction S
    pub first : CellInput
    pub others : List CellInput
    pub output : CellOutput S
    pub found : h.transaction tx_hash ≡ some (some tx)
    pub inputs : tx.inputs ≡ first ∷ others
    pub origin : h.transaction first.previous_output.tx_hash ≡ some (some spent)
    pub place : At first.previous_output.index spent.outputs output
    pub is_other : scripts.hash output.lock ≢ scripts.hash lock
    pub encoded : scripts.encode_address output.lock ≡ some address

  other_owner :
      (lock owner : S) (address : String)
      → (if scripts.hash owner == scripts.hash lock then none else scripts.encode_address owner)
        ≡ some address
      → (scripts.hash owner ≢ scripts.hash lock) × (scripts.encode_address owner ≡ some address)
  other_owner lock owner address e = ground arith

  other_address :
      (lock owner : S) (address : String)
      → scripts.hash owner ≢ scripts.hash lock
      → scripts.encode_address owner ≡ some address
      → (if scripts.hash owner == scripts.hash lock then none else scripts.encode_address owner)
        ≡ some address
  other_address lock owner address n e = ground arith

  sender_of-Sent :
      (lock : S) (tx_hash : Bytes) (address : String)
      → sender_of scripts h lock tx_hash ≡ some address
      → Sent lock tx_hash address
  unfolding sender_of
  sender_of-Sent lock tx_hash address e =
      let (tx, t, e1) = and_then-some _ _ address e in
      let (first, f, e2) = and_then-some _ _ address e1 in
      let (spent, s, e3) = and_then-some _ _ address e2 in
      let (output, o, e4) = and_then-some _ _ address e3 in
      let (is_other, encoded) = other_owner lock output.lock address e4 in
      let (others, inputs) = nth-first tx.inputs first f in
      record {
        tx = tx;
        spent = spent;
        first = first;
        others = others;
        output = output;
        found = held _ tx t;
        inputs = inputs;
        origin = held _ spent s;
        place = nth-At _ spent.outputs output o;
        is_other = is_other;
        encoded = encoded;
      }

  Sent-sender_of :
      (lock : S) (tx_hash : Bytes) (address : String)
      → Sent lock tx_hash address
      → sender_of scripts h lock tx_hash ≡ some address
  unfolding sender_of and_then nth
  Sent-sender_of lock tx_hash address p =
      and_then-hit _ _ p.tx (ap (λ o. and_then o (λ t. t)) p.found)
      ∙ and_then-hit _ _ p.first (ap (nth 0) p.inputs)
      ∙ and_then-hit _ _ p.spent (ap (λ o. and_then o (λ t. t)) p.origin)
      ∙ and_then-hit _ _ p.output (At-nth _ p.spent.outputs p.output p.place)
      ∙ other_address lock p.output.lock address p.is_other p.encoded

  -- The first transaction of a list that has a sender.
  pub record SentFirst (lock : S) (txs : List Bytes) (address : String) : Type 0 where
    pub before : List Bytes
    pub tx_hash : Bytes
    pub after : List Bytes
    pub split : txs ≡ before ++ tx_hash ∷ after
    pub skipped : All (λ t. (a : String) → ¬ Sent lock t a) before
    pub sent : Sent lock tx_hash address

  first_sender-SentFirst :
      (lock : S) (txs : List Bytes) (address : String)
      → first_sender scripts h lock txs ≡ some address
      → SentFirst lock txs address
  unfolding first_sender
  first_sender-SentFirst lock [] address e = absurd (ground arith)
  first_sender-SentFirst lock (t ∷ ts) address e =
      elim (Option-cases (sender_of scripts h lock t)) [
        | inl miss ↦
            let p = first_sender-SentFirst lock ts address (rw (miss, first_sender) at e) in
            record {
              before = t ∷ p.before;
              tx_hash = p.tx_hash;
              after = p.after;
              split = ap (◌∷◌ t) p.split;
              skipped = (λ a s. none_found (sym miss ∙ Sent-sender_of lock t a s), p.skipped);
              sent = p.sent;
            }
        | inr (a, hit) ↦
            let same : a ≡ address = some_eq (rw (hit, first_sender) at e) in
            record {
              before = [];
              tx_hash = t;
              after = ts;
              split = refl;
              skipped = tt;
              sent = sender_of-Sent lock t address (hit ∙ ap some same);
            }
      ]
    where
      none_found : {a : String} → ¬ (none ≡ some a)
      none_found e = cc e

  first_sender-skips :
      (lock : S) (before after : List Bytes) (t : Bytes) (address : String)
      → All (λ t. (a : String) → ¬ Sent lock t a) before
      → Sent lock t address
      → first_sender scripts h lock (before ++ t ∷ after) ≡ some address
  unfolding first_sender
  first_sender-skips lock [] after t address skipped sent =
      rw (first_sender, Sent-sender_of lock t address sent) refl
  first_sender-skips lock (b ∷ before) after t address (none_sent, skipped) sent =
      elim (Option-cases (sender_of scripts h lock b)) [
        | inl miss ↦
            rw (first_sender, miss) (first_sender-skips lock before after t address skipped sent)
        | inr (a, hit) ↦ absurd (none_sent a (sender_of-Sent lock b a hit))
      ]

  -- An address is found exactly where the wallet's address decodes to a lock and the lock's
  -- transactions are listed, and it belongs to the owner of what the first input of one of these
  -- spent, the first in the list that has such an owner other than the wallet.
  pub get_sender_address_iff :
      (wallet address : String)
      → (get_sender_address scripts h wallet ≡ ok address) ↔ (
          (lock : S) × (txs : List Bytes) × (scripts.decode_address wallet ≡ some lock)
          × (h.transactions lock ≡ some txs)
          × SentFirst lock txs address)
  unfolding get_sender_address
  get_sender_address_iff wallet address = (finds, found)
    where
      finds :
          get_sender_address scripts h wallet ≡ ok address
          → (lock : S) × (txs : List Bytes) × (scripts.decode_address wallet ≡ some lock)
            × (h.transactions lock ≡ some txs)
            × SentFirst lock txs address
      finds e = elim (Option-cases (scripts.decode_address wallet)) [
        | inl bad ↦ absurd (ground arith)
        | inr (lock, good) ↦ elim (Option-cases (h.transactions lock)) [
          | inl bad ↦ absurd (ground arith)
          | inr (txs, listed) ↦
              (lock, txs, good, listed, first_sender-SentFirst lock txs address (ground arith))
        ]
      ]

      found :
          ((lock : S) × (txs : List Bytes) × (scripts.decode_address wallet ≡ some lock)
            × (h.transactions lock ≡ some txs)
            × SentFirst lock txs address)
          → get_sender_address scripts h wallet ≡ ok address
      found (lock, txs, good, listed, p) =
          let sender =
            first_sender-skips lock p.before p.after p.tx_hash address p.skipped p.sent in
          let hit : first_sender scripts h lock txs ≡ some address =
            subst (λ l. first_sender scripts h lock l ≡ some address) (sym p.split) sender in
          let given = some_transactions txs p.before p.after p.tx_hash p.split in
          rw (get_sender_address, good, listed, given, hit) refl
