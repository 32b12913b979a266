-- ===== src/Perun/Client.antt =====
-- internal/perun/channel.go and client.go: the client, which keeps the channels by their ID. The
-- pointers that it hands out are the IDs here, and the map is the store that they point into.
pub mod Lifecycle
pub mod Channels
use air_fi.Base.{
  ℕ, suc, ◌+◌, String, Bool, true, false, not, str_eq, Option, none, some, List, [], ◌∷◌, ◌++◌,
  if◌then◌else◌, ◌==◌, Result, ok, err, ◌>>=◌, ◌>>◌, fail_if, or_fail, length,
}
use air_fi.Base.Int.{ℤ, pos, ◌+ℤ◌, non_positive, pos_part, neg_part}
use air_fi.Base.Word.{bits64}
use air_fi.Base.Map.{Map, lookup, insert, erase, values}
use air_fi.Perun.Crypto.{Crypto}
use air_fi.Perun.Config.{Config, ConfigError, validate}
use air_fi.Perun.Channel.{
  ChannelState, Channel, ChannelError, OpenChannelRequest, initiating, funding, open_state, closed,
  is_open, not_connected, peer_required, peer_funding_not_positive, cancelled, channel_not_found,
  SignedState, snapshot, compute_state_hash, sign_state, generate_tx_hash, settle,
}

pub record Client : Type 0 where
  pub config : Config
  pub channels : Map Channel
  pub connected : Bool
  -- Whether the client's own context has been cancelled.
  pub ctx_done : Bool

unfoldable new_client : Config → Result ConfigError Client
new_client config = do
  validate config
  ok (record { config = config; channels = []; connected = false; ctx_done = false })

-- A failing RPC only leads to a warning.
pub connect : Client → Client
connect cl = record cl { connected = true }

open_guard : Client → OpenChannelRequest → Result ChannelError ℤ
open_guard cl req = do
  fail_if (not cl.connected) not_connected
  fail_if (str_eq req.peer_address "") peer_required
  peer ← or_fail req.peer_funding peer_funding_not_positive
  fail_if (non_positive peer) peer_funding_not_positive
  ok peer

-- The provider's own funding, if it is given and positive.
own_funding : Option ℤ → ℤ
own_funding none = pos 0
own_funding (some a) = if non_positive a then pos 0 else a

module _ (c : Crypto) where
  -- The channel as it is initiated, then funded and signed, then open with its first state.
  initiated : Client → OpenChannelRequest → String → ℤ → ℤ → Channel
  unfolding own_funding
  initiated cl req id now peer = record {
    id = id;
    peer_address = req.peer_address;
    state = initiating;
    version = 0;
    my_balance = own_funding req.my_funding;
    peer_balance = peer;
    total_funding = peer +ℤ own_funding req.my_funding;
    created_at = now;
    updated_at = now;
    settled_at = none;
    state_hash = [];
    my_signature = [];
    funding_tx_hash = [];
    settlement_tx_hash = [];
    challenge_duration = elim req.challenge_dur [
      | pos n ↦ if n == 0 then cl.config.channel_timeout else pos n
      | ℤ.negsuc n ↦ ℤ.negsuc n
    ];
    nonce = bits64 now;
    state_history = [];
  }

  funded : ℤ → Channel → Channel
  funded now ch = record ch {
    state = funding;
    my_signature = sign_state c ch;
    funding_tx_hash = generate_tx_hash c ch.id "funding" ch.nonce now;
  }

  opened : ℤ → Channel → Channel
  opened now ch =
      let hashed : Channel = record ch {
        state = open_state;
        state_hash = compute_state_hash c ch;
      } in
      record hashed { state_history = ch.state_history ++ snapshot now hashed ∷ [] }

  -- `id` is the new UUID; `cancel`, whether the context ends before the confirmation.
  pub open_channel :
      Client → OpenChannelRequest → String → ℤ → Bool → Client × Result ChannelError Channel
  unfolding open_guard initiated funded opened
  open_channel cl req id now cancel = elim (open_guard cl req) [
    | err e ↦ (cl, err e)
    | ok peer ↦
        let ch = opened now (funded now (initiated cl req id now peer)) in
        if cancel
        then (cl, err cancelled)
        else (record cl { channels = insert id ch cl.channels }, ok ch)
  ]

  unfoldable pub get_channel : Client → String → Result ChannelError Channel
  get_channel cl id = or_fail (lookup id cl.channels) channel_not_found

  unfoldable list_channels : Client → List Channel
  list_channels cl = values cl.channels

  close_found :
      ℤ
      → Client
      → String
      → Channel × Result ChannelError (Unit {0})
      → Client × Result ChannelError (Unit {0})
  close_found now cl id (ch, err e) = (record cl { channels = insert id ch cl.channels }, err e)
  close_found now cl id (ch, ok _) = (record cl { channels = erase id cl.channels }, ok tt)

  -- Settles under a context that is never cancelled, and then forgets the channel.
  pub close_channel : ℤ → Client → String → Client × Result ChannelError (Unit {0})
  unfolding get_channel close_found
  close_channel now cl id = elim (get_channel cl id) [
    | err e ↦ (cl, err e)
    | ok ch ↦ close_found now cl id (settle c now false ch)
  ]

  settle_if_open : ℤ → Bool → Channel → Channel
  settle_if_open now cancel ch = if is_open ch.state then (settle c now cancel ch).0 else ch

  settle_all : ℤ → Bool → Map Channel → Map Channel
  unfolding settle_if_open
  settle_all now cancel [] = []
  settle_all now cancel ((k, ch) ∷ m) = (k, settle_if_open now cancel ch) ∷ settle_all now cancel m

  -- Each open channel is settled under the client's own context, which is cancelled after that.
  pub disconnect : ℤ → Client → Client
  unfolding settle_all
  disconnect now cl = record cl {
    channels = settle_all now cl.ctx_done cl.channels;
    ctx_done = true;
    connected = false;
  }

record Stats : Type 0 where
  pub connected : Bool
  pub total_channels : ℕ
  pub open_channels : ℕ
  pub closed_channels : ℕ
  pub total_funding : ℤ

count_state : ChannelState → Channel → Stats → Stats
count_state open_state ch s = record s {
  open_channels = s.open_channels + 1;
  total_funding = s.total_funding +ℤ ch.total_funding;
}
count_state closed ch s = record s { closed_channels = s.closed_channels + 1 }
count_state _ ch s = s

count_from : Stats → List Channel → Stats
unfolding count_state
count_from s [] = s
count_from s (ch ∷ chs) = count_from (count_state ch.state ch s) chs

unfoldable get_stats : Client → Stats
unfolding count_from
get_stats cl =
    count_from
      (record {
        connected = cl.connected;
        total_channels = length cl.channels;
        open_channels = 0;
        closed_channels = 0;
        total_funding = pos 0;
      })
      (values cl.channels)
