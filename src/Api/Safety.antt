-- ===== src/Api/Safety.antt =====
-- What every sequence of requests to internal/api keeps: the channels of the client valid, and the
-- sessions of the manager in order.
pub mod Sound
pub mod Changes
use air_fi.Base.{
  ℕ, ◌+◌, ◌<◌, ◌^◌, ◌≡◌, refl, sym, ◌∙◌, subst, inl, inr, String, Bool, Option, none, some, [], ok,
  Bool-cases, Option-cases, Result-cases,
}
use air_fi.Base.Int.{ℤ}
use air_fi.Base.Map.{lookup}
use air_fi.Perun.Crypto.{Crypto}
use air_fi.Perun.Channel.{Channel, receive_payment, settle}
use air_fi.Perun.Client.{
  Client, get_channel as get_perun_channel, open_channel as open_perun_channel,
}
use air_fi.Perun.Client.Channels.{
  Fits, HoldsValid, HoldsValid_later, empty-HoldsValid, insert-HoldsValid, receive_payment-Fits,
  settle-Fits, open_channel-HoldsValid, close_channel-HoldsValid,
}
use air_fi.Session.Defs.{Session}
use air_fi.Session.Store.{new_store, get_by_channel}
use air_fi.Session.Store.Invariant.{IsWellFormed, new_store-IsWellFormed}
use air_fi.Session.Manager.{
  Manager, create_session, activate_session, extend_session as extend_paid, settle_client, end,
}
use air_fi.Session.Manager.Maps.{
  Keeps, create_session-Keeps, activate_session-Keeps, extend_session-Keeps, end-Keeps,
}
use air_fi.Api.{Handler, OpenChannelRequest, PaymentRequest}
use air_fi.Api.Handlers.{
  manager_of, client_after, with_manager, put_channel, payment_amount, opening_amount,
  perun_request, open_session, open_channel, activate_paid, pay_session, credit_session,
  process_payment, end_of_channel, settle_channel, end_session, extend_session, is_pending,
}
use air_fi.Api.Router.{
  Request, post_open, post_pay, post_settle, post_extend, post_end, get_wifi, get_health,
  get_sessions, get_prices, get_index, get_connect, get_channel_info, get_session_info, get_token,
  get_guest_session, serve,
}
use air_fi.Api.Safety.Sound.{
  IsSound, later-IsSound, with_manager-IsSound, put_channel-IsSound, open_channel-IsSound,
}
use air_fi.Api.Safety.Changes.{
  process_payment-IsSound, settle_channel-IsSound, end_session-IsSound, extend_session-IsSound,
}

module _ (c : Crypto) where
  -- The UUID of a new session is one that no stored session has.
  abbrev pub IsFresh : Handler → Request → Type 0
  IsFresh h (post_open req channel_id session_id cancel) =
      lookup session_id h.session_manager.store.sessions ≡ none
  IsFresh h _ = Unit {0}

  serve-IsSound :
      (n : ℕ) (h : Handler) (req : Request) (now : ℤ)
      → n + 1 < 2 ^ 64
      → IsFresh h req
      → IsSound c n h
      → IsSound c (n + 1) (serve c h req now).0
  unfolding serve
  serve-IsSound n h (post_open req channel_id session_id cancel) now small fresh s =
      later-IsSound c n _ (open_channel-IsSound c n h req channel_id session_id now cancel fresh s)
  serve-IsSound n h (post_pay id req) now small fresh s =
      process_payment-IsSound c n h id req now small s
  serve-IsSound n h (post_settle id cancel) now small fresh s =
      later-IsSound c n _ (settle_channel-IsSound c n h id now cancel s)
  serve-IsSound n h (post_extend id req) now small fresh s =
      later-IsSound c n _ (extend_session-IsSound c n h id req now s)
  serve-IsSound n h (post_end id) now small fresh s =
      later-IsSound c n _ (end_session-IsSound c n h id now s)
  serve-IsSound n h get_health now small fresh s = later-IsSound c n h s
  serve-IsSound n h get_sessions now small fresh s = later-IsSound c n h s
  serve-IsSound n h get_prices now small fresh s = later-IsSound c n h s
  serve-IsSound n h get_index now small fresh s = later-IsSound c n h s
  serve-IsSound n h get_connect now small fresh s = later-IsSound c n h s
  serve-IsSound n h (get_channel_info id) now small fresh s = later-IsSound c n h s
  serve-IsSound n h (get_session_info id) now small fresh s = later-IsSound c n h s
  serve-IsSound n h (get_token id) now small fresh s = later-IsSound c n h s
  serve-IsSound n h (get_guest_session id) now small fresh s = later-IsSound c n h s
  serve-IsSound n h (get_wifi header) now small fresh s = later-IsSound c n h s

  -- The states that `n` requests lead to, from a client and a store that are empty.
  pub data Reach : ℕ → Handler → Type 0 where
    start :
        (cl : Client) (m : Manager)
        → cl.channels ≡ []
        → m.store ≡ new_store
        → Reach 0 (record { perun_client = cl; session_manager = m })
    next :
        {n : ℕ} {h : Handler} (req : Request) (now : ℤ)
        → Reach n h
        → IsFresh h req
        → n + 1 < 2 ^ 64
        → Reach (n + 1) (serve c h req now).0

  -- After any requests, fewer than 2 ^ 64, in any order and whatever they answer, every channel of
  -- the client is valid and stored under its own ID: no balance is negative, the balances add up to
  -- the funding, and the history is complete. The store of sessions is well-formed.
  pub Reach-IsSound : {n : ℕ} {h : Handler} → Reach n h → IsSound c n h
  Reach-IsSound (start cl m no_channels no_sessions) = record {
    held = subst (HoldsValid c 0) (sym no_channels) (empty-HoldsValid c 0);
    agreed = subst IsWellFormed (sym no_sessions) new_store-IsWellFormed;
  }
  Reach-IsSound (next {n} {h} req now r fresh small) =
      serve-IsSound n h req now small fresh (Reach-IsSound r)
