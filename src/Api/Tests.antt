-- ===== src/Api/Tests.antt =====
-- Concrete requests to internal/api: a channel that is opened and paid into.
use air_fi.Base.{
  ℕ, ◌*◌, ◌≡◌, refl, ◌⊎◌, String, true, false, Option, some, none, List, [], ◌∷◌, arith,
}
use air_fi.Base.Int.{ℤ, pos}
use air_fi.Base.Map.{lookup}
use air_fi.Perun.Config.{default_testnet_config, minute, hour}
use air_fi.Perun.Crypto.{Crypto}
use air_fi.Perun.Client.{Client}
use air_fi.Auth.{Jwt, Claims}
use air_fi.Session.Defs.{Session, remaining_time_formatted}
use air_fi.Session.Store.{new_store}
use air_fi.Session.Manager.{Manager}
use air_fi.Session.Manager.Access.{Admits}
use air_fi.Perun.PerunClient.{PaymentChannel, open_state, Sdk}
use air_fi.Perun.PerunClient.Money.{SameMoney}
use air_fi.Api.PerunHandlers.{PerunHandler}
use air_fi.Api.PerunMoney.{
  PerunRequest, post_send, post_receive, post_settle, answer_all, answer_all-SameMoney,
}
use air_fi.Api.{Handler, PaymentRequest, OpenChannelRequest, wifi_status, ok_json}
use air_fi.Api.Handlers.{process_payment}
use air_fi.Api.Middleware.{wifi_route}
use air_fi.Api.Middleware.Header.{Carries}
use air_fi.Api.Middleware.Outcome.{wifi_route_outcome}
use air_fi.Api.Router.{post_open, serve}
use air_fi.Api.Safety.{Reach, start, next, Reach-IsSound}
use air_fi.Api.Safety.Sound.{IsSound}
use air_fi.Api.Payments.{Received, process_payment_outcome}

abbrev crypto : Crypto
crypto = record { sha256 = λ b. 7 ∷ []; private_key = none; ecdsa_verify = λ d r s. true }

abbrev claims : String → Claims
claims id = record {
  session_id = id;
  channel_id = "";
  mac_address = "";
  ip_address = "";
  issuer = "airfi";
  subject = id;
  issued_at = pos 0;
  expires_at = pos 1_000;
  not_before = pos 0;
}

abbrev jwt : Jwt
jwt = record {
  numeric_date = λ t. t;
  signed_string = λ c. some c.session_id;
  decode = λ s. some (true, claims s);
  verified = λ s. true;
}

abbrev client : Client
client = record {
  config = default_testnet_config;
  channels = [];
  connected = true;
  ctx_done = false;
}

abbrev manager : Manager
manager = record {
  store = new_store;
  perun_client = some client;
  jwt_service = record { jwt = jwt; issuer = "airfi" };
  rate_config = record {
    ckbytes_per_minute = pos 1;
    min_session_time = pos (5 * minute);
    max_session_time = pos (24 * hour);
  };
}

abbrev empty : Handler
empty = record { perun_client = client; session_manager = manager }

abbrev open_request : Option OpenChannelRequest
open_request = some (record { guest_address = "ckt1"; funding_amount = "60" })

abbrev opened : Handler
opened = (serve crypto empty (post_open open_request "c" "s" false) (pos 5)).0

fresh : lookup "s" manager.store.sessions ≡ none
unfolding new_store lookup
fresh = refl

reached : Reach crypto 1 opened
reached =
    next (post_open open_request "c" "s" false) (pos 5) (start client manager refl refl) fresh
      (omega arith)

Reach-IsSound_example : IsSound crypto 1 opened
Reach-IsSound_example = Reach-IsSound crypto reached

abbrev payment : Option PaymentRequest
payment = some (record { amount = "10" })

process_payment_outcome_example :
    (((process_payment crypto opened "c" payment (pos 6)).0 ≡ opened)
      × (((process_payment crypto opened "c" payment (pos 6)).1.status ≡ 400)
          ⊎ ((process_payment crypto opened "c" payment (pos 6)).1.status ≡ 404)))
    ⊎ Received crypto opened "c" payment (pos 6)
process_payment_outcome_example =
    process_payment_outcome crypto opened "c" payment (pos 6) (Reach-IsSound crypto reached).agreed

wifi_route_outcome_example :
    ((token : String) × (s : Session) × Carries "Bearer s" token
      × Admits opened.session_manager token (pos 6) s
      × (wifi_route opened "Bearer s" (pos 6)
          ≡ ok_json (wifi_status s.id (remaining_time_formatted (pos 6) (pos 6) s))))
    ⊎ (((wifi_route opened "Bearer s" (pos 6)).status ≡ 401)
        × ((token : String) (s : Session)
            → Carries "Bearer s" token
            → ¬ Admits opened.session_manager token (pos 6) s))
wifi_route_outcome_example = wifi_route_outcome opened "Bearer s" (pos 6)

abbrev sdk : Sdk ℕ ℕ
sdk = record {
  new_account = some 2;
  new_params = λ account. some 3;
  params_id = λ params. "c";
  start = λ params state. some "0x5";
  fund = λ pcts state params. true;
  pack = λ state. some (1 ∷ []);
  sign_data = λ bytes. some bytes;
  peer_sign_data = λ account bytes. some bytes;
  close = λ id state sigs params. false;
  dispute = λ id state sigs params. true;
  force_close = λ id state params. true;
}

abbrev channel : PaymentChannel ℕ ℕ
channel = record {
  id = "c";
  params = 3;
  peer_account = 2;
  peer_address = "ckt1";
  my_balance = pos 500;
  peer_balance = pos 100;
  state = open_state;
  funding_tx = "0x5";
  pcts = none;
  created_at = pos 1;
  updated_at = pos 1;
}

abbrev perun_handler : PerunHandler ℕ ℕ
perun_handler = record { perun_client = ("c", channel) ∷ []; session_manager = some manager }

channel_there : lookup "c" perun_handler.perun_client ≡ some channel
unfolding lookup
channel_there = refl

abbrev requests : List (PerunRequest × ℤ)
requests =
    (post_send "c" (some (pos 200)), pos 2)
    ∷ (post_receive "c" (some (pos 50)), pos 3)
    ∷ (post_send "d" none, pos 3)
    ∷ (post_settle "c", pos 4)
    ∷ []

answer_all-SameMoney_example :
    (ch : PaymentChannel ℕ ℕ) × (lookup "c"
        (answer_all crypto sdk perun_handler requests).perun_client
      ≡ some ch)
    × SameMoney channel ch
answer_all-SameMoney_example =
    answer_all-SameMoney crypto sdk requests perun_handler "c" channel channel_there
