-- ===== src/Perun/Client/Channels.antt =====
-- What holds of every channel in the map of internal/perun/client.go's client, and that opening,
-- paying, settling and closing keep it.
use air_fi.Base.{
  ℕ, ◌+◌, ◌≤◌, ◌<◌, ◌^◌, ◌≡◌, sym, ap, ◌∙◌, subst, ◌⊎◌, inl, inr, String, Bool, true, false, Option,
  none, some, [], arith, Result, ok, err, str_eq, eq_iff, Bool-cases, Option-cases,
}
use air_fi.Base.Int.{ℤ}
use air_fi.Base.Word.{add_u64-eq}
use air_fi.Base.Map.{Map, lookup, insert, erase, lookup-insert, lookup-erase}
use air_fi.Perun.Crypto.{Crypto}
use air_fi.Perun.Channel.{Channel, ChannelError, OpenChannelRequest, receive_payment, settle}
use air_fi.Perun.Channel.Invariant.{IsValid}
use air_fi.Perun.Channel.Payments.{receive_payment_moves}
use air_fi.Perun.Channel.Settlement.{settle-IsValid, settle_outcome}
use air_fi.Perun.Channel.Runs.{receive_payment-IsValid}
use air_fi.Perun.Client.{Client, get_channel, open_channel, close_found, close_channel}
use air_fi.Perun.Client.Lifecycle.{Opens, open_channel_outcome}

module _ (c : Crypto) where
  -- A channel under its own ID, valid, and changed by at most `n` payments.
  pub record Fits (n : ℕ) (id : String) (ch : Channel) : Type 0 where
    pub valid : IsValid c ch
    pub named : ch.id ≡ id
    pub aged : ch.version ≤ n

  pub record HoldsValid (n : ℕ) (m : Map Channel) : Type 0 where
    pub each : (id : String) (ch : Channel) → lookup id m ≡ some ch → Fits n id ch

  none_ne : (ch : Channel) → ¬ (none ≡ some ch)
  none_ne ch e = cc

  some_eq : {x y : Channel} → some x ≡ some y → x ≡ y
  some_eq e = cc

  pub empty-HoldsValid : (n : ℕ) → HoldsValid n []
  unfolding lookup
  empty-HoldsValid n = record { each = λ id ch e. absurd (none_ne ch e) }

  pub insert-HoldsValid :
      (n : ℕ) (m : Map Channel) (id : String) (ch : Channel)
      → HoldsValid n m
      → Fits n id ch
      → HoldsValid n (insert id ch m)
  insert-HoldsValid n m id ch h f = record { each = λ j x e. go j x (Bool-cases (str_eq id j)) e }
    where
      go :
          (j : String) (x : Channel)
          → (str_eq id j ≡ true) ⊎ (str_eq id j ≡ false)
          → lookup j (insert id ch m) ≡ some x
          → Fits n j x
      go j x (inl hit) e =
          let same : id ≡ j = ground (arith, eq_iff id j) in
          let one : ch ≡ x = some_eq (rw (lookup-insert, hit) at e) in
          subst (λ k. Fits n k x) same (subst (Fits n id) one f)
      go j x (inr miss) e = h.each j x (rw (lookup-insert, miss) at e)

  pub erase-HoldsValid :
      (n : ℕ) (m : Map Channel) (id : String) → HoldsValid n m → HoldsValid n (erase id m)
  erase-HoldsValid n m id h = record { each = λ j x e. go j x (Bool-cases (str_eq id j)) e }
    where
      go :
          (j : String) (x : Channel)
          → (str_eq id j ≡ true) ⊎ (str_eq id j ≡ false)
          → lookup j (erase id m) ≡ some x
          → Fits n j x
      go j x (inl hit) e = absurd (none_ne x (rw (lookup-erase, hit) at e))
      go j x (inr miss) e = h.each j x (rw (lookup-erase, miss) at e)

  pub HoldsValid_later : (n : ℕ) (m : Map Channel) → HoldsValid n m → HoldsValid (n + 1) m
  HoldsValid_later n m h = record {
    each = λ id ch e.
        let f = h.each id ch e in
        record { valid = f.valid; named = f.named; aged = omega (arith, f.aged) };
  }

  -- Receiving a payment ages a channel by one.
  pub receive_payment-Fits :
      (n : ℕ) (now : ℤ) (id : String) (ch : Channel) (amount : Option ℤ)
      → n + 1 < 2 ^ 64
      → Fits n id ch
      → Fits (n + 1) id (receive_payment c now ch amount).0
  receive_payment-Fits n now id ch amount small f =
      let room : ch.version + 1 < 2 ^ 64 = omega (arith, f.aged) in
      elim (receive_payment_moves c now ch amount) [
        | inl (a, payable, paid, done) ↦ record {
          valid = receive_payment-IsValid c now ch amount f.valid room;
          named = paid.same_id ∙ f.named;
          aged = omega (arith, paid.next_version, add_u64-eq ch.version 1 room, f.aged);
        }
        | inr (e, p, refused) ↦
            rw p (record { valid = f.valid; named = f.named; aged = omega (arith, f.aged) })
      ]

  pub settle-Fits :
      (n : ℕ) (now : ℤ) (cancel : Bool) (id : String) (ch : Channel)
      → Fits n id ch
      → Fits n id (settle c now cancel ch).0
  settle-Fits n now cancel id ch f =
      let same = (settle_outcome c now cancel ch).0 in
      record {
        valid = settle-IsValid c now cancel ch f.valid;
        named = same.same_id ∙ f.named;
        aged = omega (arith, same.same_version, f.aged);
      }

  pub open_channel-HoldsValid :
      (n : ℕ) (cl : Client) (req : OpenChannelRequest) (id : String) (now : ℤ) (cancel : Bool)
      → HoldsValid n cl.channels
      → HoldsValid n (open_channel c cl req id now cancel).0.channels
  open_channel-HoldsValid n cl req id now cancel h =
      elim (open_channel_outcome c cl req id now cancel) [
        | inl (e, p) ↦ rw p h
        | inr (ch, done, opens) ↦ record {
          each = λ j x e. go ch opens j x (Bool-cases (str_eq id j)) e;
        }
      ]
    where
      go :
          (ch : Channel)
          → Opens c cl req id (open_channel c cl req id now cancel).0 ch
          → (j : String) (x : Channel) → (str_eq id j ≡ true) ⊎ (str_eq id j ≡ false)
          → lookup j (open_channel c cl req id now cancel).0.channels ≡ some x
          → Fits n j x
      go ch opens j x (inl hit) e =
          let same : id ≡ j = ground (arith, eq_iff id j) in
          let one : ch ≡ x = some_eq (
            sym opens.stored
            ∙ (ap (λ k. lookup k (open_channel c cl req id now cancel).0.channels) same ∙ e)) in
          subst (Fits n j) one (record {
            valid = opens.valid;
            named = opens.named ∙ same;
            aged = omega (arith, opens.fresh);
          })
      go ch opens j x (inr miss) e =
          h.each j x (sym (opens.others j (λ q. ground (arith, eq_iff id j))) ∙ e)

  close_found-HoldsValid :
      (n : ℕ) (now : ℤ) (cl : Client) (id : String) (r : Channel × Result ChannelError (Unit {0}))
      → HoldsValid n cl.channels
      → Fits n id r.0
      → HoldsValid n (close_found c now cl id r).0.channels
  unfolding close_found
  close_found-HoldsValid n now cl id (ch, err e) h f = insert-HoldsValid n cl.channels id ch h f
  close_found-HoldsValid n now cl id (ch, ok u) h f = erase-HoldsValid n cl.channels id h

  pub close_channel-HoldsValid :
      (n : ℕ) (now : ℤ) (cl : Client) (id : String)
      → HoldsValid n cl.channels
      → HoldsValid n (close_channel c now cl id).0.channels
  unfolding close_channel get_channel
  close_channel-HoldsValid n now cl id h = elim (Option-cases (lookup id cl.channels)) [
    | inl missing ↦ rw (close_channel, missing) h
    | inr (ch, here) ↦
        rw (close_channel, here)
          (close_found-HoldsValid n now cl id (settle c now false ch) h
            (settle-Fits n now false id ch (h.each id ch here)))
  ]
