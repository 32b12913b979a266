-- ===== src/Perun/PerunClient/Tests.antt =====
-- One channel of internal/perun/perun_client.go, over libraries that refuse to close it.
use air_fi.Base.{ℕ, ◌≡◌, refl, true, false, none, some, List, [], ◌∷◌, ok}
use air_fi.Base.Int.{pos}
use air_fi.Base.Map.{lookup}
use air_fi.Perun.PerunClient.{PaymentChannel, open_state, Sdk, Channels, send_payment}
use air_fi.Perun.PerunClient.Money.{Call, sends, receives, settles, disputes}

abbrev sdk : Sdk ℕ ℕ
sdk = record {
  new_account = some 2;
  new_params = λ account. some 3;
  params_id = λ params. "c";
  start = λ params state. some "0x5";
  fund = λ pcts state params. true;
  pack = λ state. some (1 ∷ []);
  sign_data = λ bytes. some bytes;
  peer_sign_data = λ account bytes. some bytes;
  close = λ id state sigs params. false;
  dispute = λ id state sigs params. true;
  force_close = λ id state params. true;
}

abbrev channel : PaymentChannel ℕ ℕ
channel = record {
  id = "c";
  params = 3;
  peer_account = 2;
  peer_address = "ckt1";
  my_balance = pos 500;
  peer_balance = pos 100;
  state = open_state;
  funding_tx = "0x5";
  pcts = none;
  created_at = pos 1;
  updated_at = pos 1;
}

abbrev channels : Channels ℕ ℕ
channels = ("c", channel) ∷ []

found : lookup "c" channels ≡ some channel
unfolding lookup
found = refl

-- A payment of more than the balance is taken all the same.
overdrawn : (send_payment channels "c" (pos 600) (pos 2)).1 ≡ ok tt
unfolding send_payment lookup
overdrawn = refl

abbrev calls : List (Call ℕ)
calls =
    sends "c" (pos 200) (pos 2)
    ∷ receives "c" (pos 50) (pos 3)
    ∷ settles "c" (pos 4)
    ∷ disputes "c" (pos 5)
    ∷ []
