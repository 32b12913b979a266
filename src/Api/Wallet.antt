-- ===== src/Api/Wallet.antt =====
-- internal/api/handler.go: the host's wallet, WalletStatus and Transfer. The wallet is the part of the
-- client that Perun/Wallet has; `ckb_of` is an amount as a `float64` of CKB, and 0 is that of nothing.
mod Tests
use air_fi.Base.{
  ℕ, ◌&&◌, not, ◌≡◌, refl, sym, ap, ◌∙◌, subst, inl, inr, String, Bool, true, false, Option, none,
  some, ◌++◌, [], ◌∷◌, if◌then◌else◌, str_eq, Result, ok, err, Bool-cases, Option-cases,
  Result-cases, eq_iff, ◌⊎◌, ◌≢◌, arith,
}
use air_fi.Base.Bytes.{Bytes, codes}
use air_fi.Base.Decimal.{set_string}
use air_fi.Base.Int.{ℤ, pos}
use air_fi.Perun.Config.{NetworkType}
use air_fi.Perun.Transfer.{Chain, TransferError, transfer}
use air_fi.Perun.Transfer.Sending.{Sent, transfer_iff}
use air_fi.Perun.Wallet.{Wallet, Reply, CellsQuery, get_balance}
use air_fi.Api.Handlers.{required}

pub record WalletInfo (F : Type 0) : Type 0 where
  pub address : Bytes
  pub balance : ℤ
  pub balance_ckb : F
  pub network : NetworkType
  pub connected : Bool

-- A balance that cannot be read is shown as 0.
unfoldable wallet_status :
    {Key F : Type 0} → (ℤ → F) → ℤ → (CellsQuery → Reply) → Wallet Key → Bool → WalletInfo F
wallet_status ckb_of unread post w connected =
    let balance : ℤ = elim (get_balance unread post w) [ err e ↦ pos 0 | ok n ↦ n ] in
    record {
      address = w.address;
      balance = balance;
      balance_ckb = ckb_of balance;
      network = w.network;
      connected = connected;
    }

pub record TransferRequest : Type 0 where
  pub to_address : String
  pub amount : String

-- What the route answers, with its status: 400, 400, 500 and 200.
pub data TransferAnswer : Type 0 where
  invalid_body invalid_amount : TransferAnswer
  not_transferred : TransferError → TransferAnswer
  submitted : (tx_hash explorer : Bytes) (to_address : String) (amount : ℤ) → TransferAnswer

abbrev explorer : Bytes → Bytes
explorer tx_hash = codes "https://pudge.explorer.nervos.org/transaction/" ++ tx_hash

present : (text : String) → required text ≡ true → text ≢ ""
present text e = ground (arith, eq_iff text "")

missing : (a b : String) → (required a && required b) ≡ false → (a ≡ "") ⊎ (b ≡ "")
missing a b e = ground (arith, eq_iff a "", eq_iff b "")

both : (a b : Bool) → (a && b) ≡ true → (a ≡ true) × (b ≡ true)
both a b e = ground arith

module _ {Key Tx : Type 0} (chain : Chain Key Tx) where
  unfoldable send : Wallet Key → TransferRequest → ℤ → TransferAnswer
  send w req amount = elim (transfer chain w (codes req.to_address) amount) [
    | err e ↦ not_transferred e
    | ok tx_hash ↦ submitted tx_hash (explorer tx_hash) req.to_address amount
  ]

  unfoldable pub post_transfer : Wallet Key → Option TransferRequest → TransferAnswer
  unfolding send
  post_transfer w none = invalid_body
  post_transfer w (some req) =
      if required req.to_address && required req.amount
      then elim (set_string (codes req.amount)) [
        | none ↦ invalid_amount
        | some amount ↦ send w req amount
      ]
      else invalid_body

  -- What a receiver and an amount that have been read lead to.
  abbrev pub Transferred : Wallet Key → String → ℤ → TransferAnswer → Type 0
  Transferred w to_address amount answer =
      ((tx_hash : Bytes) × Sent chain w (codes to_address) amount tx_hash
        × (answer
            ≡ submitted tx_hash (codes "https://pudge.explorer.nervos.org/transaction/" ++ tx_hash)
                to_address amount))
      ⊎ ((e : TransferError) × (answer ≡ not_transferred e)
          × ((tx_hash : Bytes) → ¬ Sent chain w (codes to_address) amount tx_hash))

  send-Transferred :
      (w : Wallet Key) (req : TransferRequest) (amount : ℤ)
      → Transferred w req.to_address amount (send w req amount)
  unfolding send
  send-Transferred w req amount =
      elim (Result-cases (transfer chain w (codes req.to_address) amount)) [
        | inl (e, failed) ↦ inr (e, rw (send, failed) refl, unsent e failed)
        | inr (h, done) ↦
            inl (
              h,
              (transfer_iff chain w (codes req.to_address) amount h).0 done,
              rw (send, done) refl,
            )
      ]
    where
      unsent :
          (e : TransferError)
          → transfer chain w (codes req.to_address) amount ≡ err e
          → (h : Bytes) → ¬ Sent chain w (codes req.to_address) amount h
      unsent e failed h sent =
          cc (failed, (transfer_iff chain w (codes req.to_address) amount h).1 sent)

  -- A body that cannot be read, or lacks its receiver or its amount, is refused as invalid, and so is
  -- an amount that is not a decimal number. Otherwise either a transaction has gone to the chain, with
  -- an amount of at least 61 CKB, the builder was asked to pay the amount's low 64 bits to the body's
  -- receiver and the change to the host, at a fee rate of 1000 on the host's network, the host's key
  -- has signed it, and the answer names its hash, or nothing can have been sent so and the answer is
  -- an error.
  pub post_transfer_outcome :
      (w : Wallet Key) (body : Option TransferRequest)
      → (((body ≡ none)
            ⊎ ((req : TransferRequest) × (body ≡ some req)
                × ((req.to_address ≡ "") ⊎ (req.amount ≡ ""))))
          × (post_transfer w body ≡ invalid_body))
        ⊎ ((req : TransferRequest) × (body ≡ some req)
            × (req.to_address ≢ "")
            × (req.amount ≢ "")
            × (((set_string (codes req.amount) ≡ none) × (post_transfer w body ≡ invalid_amount))
                ⊎ ((amount : ℤ) × (set_string (codes req.amount) ≡ some amount)
                    × Transferred w req.to_address amount (post_transfer w body))))
  unfolding post_transfer
  post_transfer_outcome w none = inl (inl refl, refl)
  post_transfer_outcome w (some req) =
      elim (Bool-cases (required req.to_address && required req.amount)) [
        | inr lacking ↦ inl (
          inr (req, refl, missing req.to_address req.amount lacking),
          rw (post_transfer, lacking) refl,
        )
        | inl whole ↦
            let (a, b) = both _ _ whole in
            inr (req, refl, present req.to_address a, present req.amount b, read whole)
      ]
    where
      read :
          (required req.to_address && required req.amount) ≡ true
          → ((set_string (codes req.amount) ≡ none) × (post_transfer w (some req) ≡ invalid_amount))
            ⊎ ((amount : ℤ) × (set_string (codes req.amount) ≡ some amount)
                × Transferred w req.to_address amount (post_transfer w (some req)))
      read whole = elim (Option-cases (set_string (codes req.amount))) [
        | inl bad ↦ inl (bad, rw (post_transfer, whole, bad) refl)
        | inr (amount, good) ↦
            let same : post_transfer w (some req) ≡ send w req amount =
              rw (post_transfer, whole, good) refl in
            inr (
              amount,
              good,
              subst (Transferred w req.to_address amount) (sym same)
                  (send-Transferred w req amount),
            )
      ]
