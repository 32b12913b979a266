-- ===== src/Api/PerunMoney.antt =====
-- The money of the channels behind internal/api/perun_handler.go, over any requests.
use air_fi.Base.{String, ◌≡◌, inl, inr, Option, none, some, List, [], ◌∷◌, Result-cases}
use air_fi.Base.Int.{ℤ}
use air_fi.Base.Map.{lookup}
use air_fi.Perun.Crypto.{Crypto}
use air_fi.Perun.PerunClient as Perun
use air_fi.Perun.PerunClient.{PaymentChannel, Sdk, Channels}
use air_fi.Perun.PerunClient.Money.{
  SameMoney, Keeps, Keeps-refl, Keeps-trans, sends, receives, settles, step-Keeps,
}
use air_fi.Api.PerunHandlers.{PerunHandler, send_payment, receive_payment, settle_channel}

-- The requests that change a channel.
pub data PerunRequest : Type 0 where
  post_send post_receive : String → Option ℤ → PerunRequest
  post_settle : String → PerunRequest

module _ {Params Account : Type 0} (c : Crypto) (sdk : Sdk Params Account) where
  unfoldable pub answer :
      PerunHandler Params Account → PerunRequest → ℤ → PerunHandler Params Account
  answer h (post_send id amount) now = (send_payment h id amount now).0
  answer h (post_receive id amount) now = (receive_payment h id amount now).0
  answer h (post_settle id) now = (settle_channel c sdk h id now).0

  unfoldable pub answer_all :
      PerunHandler Params Account → List (PerunRequest × ℤ) → PerunHandler Params Account
  unfolding answer
  answer_all h [] = h
  answer_all h ((r, now) ∷ rest) = answer_all (answer h r now) rest

  send_payment-Keeps :
      (h : PerunHandler Params Account) (id : String) (amount : Option ℤ) (now : ℤ)
      → Keeps h.perun_client (send_payment h id amount now).0.perun_client
  unfolding send_payment
  send_payment-Keeps h id none now = Keeps-refl h.perun_client
  send_payment-Keeps h id (some amount) now =
      elim (Result-cases (Perun.get_channel_by_string h.perun_client id)) [
        | inl (e, missing) ↦ rw (send_payment, missing) (Keeps-refl h.perun_client)
        | inr (ch, found) ↦
            let kept = step-Keeps sdk h.perun_client (sends ch.id amount now) in
            elim (Result-cases (Perun.send_payment h.perun_client ch.id amount now).1) [
              | inl (e, failed) ↦ rw (send_payment, found, failed) kept
              | inr (u, done) ↦ rw (send_payment, found, done) kept
            ]
      ]

  receive_payment-Keeps :
      (h : PerunHandler Params Account) (id : String) (amount : Option ℤ) (now : ℤ)
      → Keeps h.perun_client (receive_payment h id amount now).0.perun_client
  unfolding receive_payment
  receive_payment-Keeps h id none now = Keeps-refl h.perun_client
  receive_payment-Keeps h id (some amount) now =
      elim (Result-cases (Perun.get_channel_by_string h.perun_client id)) [
        | inl (e, missing) ↦ rw (receive_payment, missing) (Keeps-refl h.perun_client)
        | inr (ch, found) ↦
            let kept = step-Keeps sdk h.perun_client (receives ch.id amount now) in
            elim (Result-cases (Perun.receive_payment h.perun_client ch.id amount now).1) [
              | inl (e, failed) ↦ rw (receive_payment, found, failed) kept
              | inr (u, done) ↦ rw (receive_payment, found, done) kept
            ]
      ]

  settle_channel-Keeps :
      (h : PerunHandler Params Account) (id : String) (now : ℤ)
      → Keeps h.perun_client (settle_channel c sdk h id now).0.perun_client
  unfolding settle_channel
  settle_channel-Keeps h id now =
      elim (Result-cases (Perun.get_channel_by_string h.perun_client id)) [
        | inl (e, missing) ↦ rw (settle_channel, missing) (Keeps-refl h.perun_client)
        | inr (ch, found) ↦
            let kept = step-Keeps sdk h.perun_client (settles ch.id now) in
            elim (Result-cases (Perun.settle_channel sdk h.perun_client ch.id now).1) [
              | inl (e, failed) ↦ rw (settle_channel, found, failed) kept
              | inr (u, done) ↦ rw (settle_channel, found, done) kept
            ]
      ]

  answer-Keeps :
      (h : PerunHandler Params Account) (r : PerunRequest) (now : ℤ)
      → Keeps h.perun_client (answer h r now).perun_client
  unfolding answer
  answer-Keeps h (post_send id amount) now = send_payment-Keeps h id amount now
  answer-Keeps h (post_receive id amount) now = receive_payment-Keeps h id amount now
  answer-Keeps h (post_settle id) now = settle_channel-Keeps h id now

  answer_all-Keeps :
      (rs : List (PerunRequest × ℤ)) (h : PerunHandler Params Account)
      → Keeps h.perun_client (answer_all h rs).perun_client
  unfolding answer_all
  answer_all-Keeps [] h = Keeps-refl h.perun_client
  answer_all-Keeps ((r, now) ∷ rest) h =
      Keeps-trans h.perun_client (answer h r now).perun_client
        (answer_all h ((r, now) ∷ rest)).perun_client (answer-Keeps h r now)
        (answer_all-Keeps rest (answer h r now))

  -- After any requests to send, to receive and to settle, on any channels, whatever they answer and
  -- whether or not a session goes with them, a channel that was there is still there, with the same
  -- parameters and peer, and its two balances add up to what they did before.
  pub answer_all-SameMoney :
      (rs : List (PerunRequest × ℤ)) (h : PerunHandler Params Account) (id : String)
      (ch : PaymentChannel Params Account)
      → lookup id h.perun_client ≡ some ch
      → (ch' : PaymentChannel Params Account) × (lookup id (answer_all h rs).perun_client
          ≡ some ch')
        × SameMoney ch ch'
  answer_all-SameMoney rs h id ch found = answer_all-Keeps rs h id ch found
