-- ===== src/Api/Wallet/Tests.antt =====
-- A transfer that internal/api submits.
use air_fi.Base.{◌≢◌, ◌⊎◌, ℕ, ◌+◌, ◌%◌, ◌≡◌, refl, true, some, none, [], ◌∷◌}
use air_fi.Base.Bytes.{codes, hex_encode}
use air_fi.Base.Decimal.{set_string}
use air_fi.Base.Int.{ℤ, pos}
use air_fi.Base.Scan.{scan_digits, starts_digit, digits_value}
use air_fi.Perun.Config.{mainnet}
use air_fi.Perun.Transfer.{Chain, transfer}
use air_fi.Perun.Wallet.{Wallet}
use air_fi.Api.Wallet.{
  TransferRequest, submitted, invalid_body, invalid_amount, Transferred, post_transfer,
  post_transfer_outcome,
}

abbrev chain : Chain ℕ ℕ
chain = record {
  dial = true;
  has_cells = λ address. true;
  add_output = λ address. true;
  build = λ order. some order.amount;
  sign = λ key tx. some (tx + key);
  send = λ tx. some (tx % 256 ∷ []);
  get_transaction = λ hash. none;
}

abbrev ready : Wallet ℕ
ready = record {
  network = mainnet;
  ckb_key = some 3;
  private_key = none;
  address = [];
  lock_script = none;
  assets = [];
}

abbrev request : TransferRequest
request = record { to_address = "ckt1"; amount = "6100000000" }

post_transfer_outcome_example :
    (((some request ≡ none)
        ⊎ ((req : TransferRequest) × (some request ≡ some req)
            × ((req.to_address ≡ "") ⊎ (req.amount ≡ ""))))
      × (post_transfer chain ready (some request) ≡ invalid_body))
    ⊎ ((req : TransferRequest) × (some request ≡ some req)
        × (req.to_address ≢ "")
        × (req.amount ≢ "")
        × (((set_string (codes req.amount) ≡ none)
              × (post_transfer chain ready (some request) ≡ invalid_amount))
            ⊎ ((amount : ℤ) × (set_string (codes req.amount) ≡ some amount)
                × Transferred chain ready req.to_address amount
                    (post_transfer chain ready (some request)))))
post_transfer_outcome_example = post_transfer_outcome chain ready (some request)

-- The host's 61 CKB are sent.
answered :
    post_transfer chain ready (some request)
    ≡ submitted
        (codes "0x03")
        (codes "https://pudge.explorer.nervos.org/transaction/0x03")
        "ckt1"
        (pos 6_100_000_000)
unfolding post_transfer transfer hex_encode set_string scan_digits starts_digit digits_value
answered = refl
