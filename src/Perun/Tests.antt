-- ===== src/Perun/Tests.antt =====
-- Concrete channels and clients of internal/perun, on which the theorems are run.
use air_fi.Base.{
  ℕ, ◌+◌, ◌^◌, ◌≡◌, refl, ◌≢◌, ◌⊎◌, true, false, Option, some, none, List, [], ◌∷◌, ok, err, arith,
}
use air_fi.Base.Int.{ℤ, pos, ◌+ℤ◌, ◌-ℤ◌}
use air_fi.Base.Map.{lookup}
use air_fi.Perun.Config.{default_testnet_config}
use air_fi.Perun.Crypto.{Crypto}
use air_fi.Perun.Channel.{
  Channel, ChannelError, SignedState, OpenChannelRequest, open_state, closed, settling,
  compute_state_hash, send_payment, settle, update_of, already_closed, already_settling, cancelled,
}
use air_fi.Perun.Channel.Invariant.{IsValid, IsPayable}
use air_fi.Perun.Channel.Payments.{Paid, send_payment_moves}
use air_fi.Perun.Channel.Settlement.{SameMoney, settle_outcome}
use air_fi.Perun.Channel.Runs.{Call, sends, receives, settles, run, run-IsValid}
use air_fi.Perun.Client.{Client, open_channel}
use air_fi.Perun.Client.Lifecycle.{Opens, open_channel_outcome}

-- No key is loaded: the hash stands for the signature.
abbrev plain : Crypto
plain = record { sha256 = λ b. 7 ∷ []; private_key = none; ecdsa_verify = λ d r s. true }

abbrev sign_full : List ℕ → Option (ℕ × ℕ)
sign_full d = some (256 ^ 31 + 1, 256 ^ 31 + 2)

abbrev sign_low : List ℕ → Option (ℕ × ℕ)
sign_low d = some (5, 256 ^ 31 + 2)

abbrev full : Crypto
full = record { sha256 = λ b. b; private_key = some sign_full; ecdsa_verify = λ d r s. true }

abbrev low : Crypto
low = record { sha256 = λ b. b; private_key = some sign_low; ecdsa_verify = λ d r s. true }

abbrev first_state : SignedState
first_state = record {
  channel_id = "a";
  version = 0;
  my_balance = pos 0;
  peer_balance = pos 500;
  state_hash = 7 ∷ [];
  signature = 7 ∷ [];
  timestamp = pos 10;
}

abbrev live : Channel
live = record {
  id = "a";
  peer_address = "ckt1";
  state = open_state;
  version = 0;
  my_balance = pos 0;
  peer_balance = pos 500;
  total_funding = pos 500;
  created_at = pos 10;
  updated_at = pos 10;
  settled_at = none;
  state_hash = 7 ∷ [];
  my_signature = 7 ∷ [];
  funding_tx_hash = [];
  settlement_tx_hash = [];
  challenge_duration = pos 60;
  nonce = 10;
  state_history = first_state ∷ [];
}

abbrev settled : Channel
settled = record live { state = closed; settled_at = some (pos 20) }

abbrev client : Client
client = record {
  config = default_testnet_config;
  channels = ("a", live) ∷ [];
  connected = true;
  ctx_done = false;
}

abbrev settled_client : Client
settled_client = record client { channels = ("a", settled) ∷ [] }

abbrev request : OpenChannelRequest
request = record {
  peer_address = "ckt2";
  my_funding = none;
  peer_funding = some (pos 700);
  challenge_dur = pos 0;
}

abbrev calls : List Call
calls =
    receives (pos 30) (some (pos 120))
    ∷ sends (pos 40) (some (pos 20))
    ∷ settles (pos 50) false
    ∷ []

conserved : pos 0 +ℤ pos 500 ≡ pos 500
unfolding ◌+ℤ◌
conserved = refl

live-IsValid : IsValid plain live
unfolding compute_state_hash
live-IsValid = record {
  mine = omega arith;
  peers = omega arith;
  conserved = conserved;
  counted = refl;
  history = (refl, refl, omega arith, omega arith, conserved, tt);
  latest = (
    [],
    first_state,
    refl,
    record {
      same_version = refl;
      same_mine = refl;
      same_peer = refl;
      same_hash = refl;
      hashed = refl;
      signed = refl;
    },
  );
}

stored_live : lookup "a" client.channels ≡ some live
unfolding lookup
stored_live = refl

stored_settled : lookup "a" settled_client.channels ≡ some settled
unfolding lookup
stored_settled = refl

run-IsValid_example : IsValid plain (run plain live calls)
run-IsValid_example = run-IsValid plain live calls live-IsValid (omega arith)

send_payment_moves_example :
    ((a : ℤ) × IsPayable open_state (some (pos 20)) (pos 0) a
      × Paid plain
          (pos 30)
          (pos 0 -ℤ a)
          (pos 500 +ℤ a)
          live
          (send_payment plain (pos 30) live (some (pos 20))).0
      × ((send_payment plain (pos 30) live (some (pos 20))).1
          ≡ ok (update_of (send_payment plain (pos 30) live (some (pos 20))).0)))
    ⊎ ((e : ChannelError) × (send_payment plain (pos 30) live (some (pos 20)) ≡ (live, err e))
        × ((a : ℤ) → ¬ IsPayable open_state (some (pos 20)) (pos 0) a))
send_payment_moves_example = send_payment_moves plain (pos 30) live (some (pos 20))

settle_outcome_example :
    SameMoney plain live (settle plain (pos 50) false live).0
    × (((open_state ≡ closed) × (settle plain (pos 50) false live ≡ (live, err already_closed)))
        ⊎ ((open_state ≡ settling)
            × (settle plain (pos 50) false live ≡ (live, err already_settling)))
        ⊎ ((open_state ≢ closed)
            × (open_state ≢ settling)
            × (false ≡ false)
            × ((settle plain (pos 50) false live).1 ≡ ok tt)
            × ((settle plain (pos 50) false live).0.state ≡ closed)
            × ((settle plain (pos 50) false live).0.settled_at ≡ some (pos 50)))
        ⊎ ((open_state ≢ closed)
            × (open_state ≢ settling)
            × (false ≡ true)
            × ((settle plain (pos 50) false live).1 ≡ err cancelled)
            × ((settle plain (pos 50) false live).0.state ≡ open_state)
            × ((settle plain (pos 50) false live).0.settled_at ≡ none)))
settle_outcome_example = settle_outcome plain (pos 50) false live

open_channel_outcome_example :
    ((e : ChannelError) × (open_channel plain client request "b" (pos 60) false ≡ (client, err e)))
    ⊎ ((ch : Channel) × ((open_channel plain client request "b" (pos 60) false).1 ≡ ok ch)
        × Opens plain client request "b"
            (open_channel plain client request "b" (pos 60) false).0
            ch)
open_channel_outcome_example = open_channel_outcome plain client request "b" (pos 60) false
