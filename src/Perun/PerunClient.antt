-- ===== src/Perun/PerunClient.antt =====
-- internal/perun/perun_client.go: the client of Perun channels that signs for both parties. What its
-- libraries do, go-perun and perun-ckb-backend, is a parameter; a call of theirs that fails gives
-- `none` or `false`. Logging and the clock's place in a call are left out.
pub mod Money
mod Tests
use air_fi.Base.{
  ℕ, String, Bool, true, false, not, Option, none, some, List, [], ◌∷◌, if◌then◌else◌, str_eq,
  Result, ok, err, or_fail, fail_if, ◌>>=◌, ◌>>◌,
}
use air_fi.Base.Bytes.{Bytes}
use air_fi.Base.Int.{ℤ, ◌+ℤ◌, ◌-ℤ◌}
use air_fi.Base.Map.{Map, lookup, insert, values}

pub data PerunState : Type 0 where
  open_state pending funded settled disputed force_closed : PerunState

-- The fields of a `channel.State` that vary: two balances, of this party and of its peer.
pub record ChannelState : Type 0 where
  pub id : String
  pub version : ℕ
  pub balances : ℤ × ℤ
  pub is_final : Bool

-- A script, the channel's type script, stands here as its hash in hexadecimal.
pub record PaymentChannel (Params Account : Type 0) : Type 0 where
  pub id : String
  pub params : Params
  pub peer_account : Account
  pub peer_address : String
  pub my_balance : ℤ
  pub peer_balance : ℤ
  pub state : PerunState
  pub funding_tx : String
  pub pcts : Option String
  pub created_at : ℤ
  pub updated_at : ℤ

pub record Sdk (Params Account : Type 0) : Type 0 where
  pub new_account : Option Account
  pub new_params : Account → Option Params
  pub params_id : Params → String
  pub start : Params → ChannelState → Option String
  pub fund : String → ChannelState → Params → Bool
  pub pack : ChannelState → Option Bytes
  pub sign_data : Bytes → Option Bytes
  pub peer_sign_data : Account → Bytes → Option Bytes
  pub close : String → ChannelState → List Bytes → Params → Bool
  pub dispute : String → ChannelState → List Bytes → Params → Bool
  pub force_close : String → ChannelState → Params → Bool

pub data PerunClientError : Type 0 where
  channel_not_found no_peer_account no_params start_failed fund_failed pack_failed sign_failed
        peer_sign_failed close_failed dispute_failed force_close_failed :
      PerunClientError

abbrev pub Channels : Type 0 → Type 0 → Type 0
Channels Params Account = Map (PaymentChannel Params Account)

abbrev pub Outcome : Type 0 → Type 0 → Type 0
Outcome Params Account = Channels Params Account × Result PerunClientError (Unit {0})

module _ {Params Account : Type 0} where
  -- The channel of an ID is a shared object: a change of it is a change of the map's entry.
  unfoldable pub send_payment : Channels Params Account → String → ℤ → ℤ → Outcome Params Account
  send_payment channels id amount now = elim (lookup id channels) [
    | none ↦ (channels, err channel_not_found)
    | some ch ↦ (
      insert id
          (record ch {
            my_balance = ch.my_balance -ℤ amount;
            peer_balance = ch.peer_balance +ℤ amount;
            updated_at = now;
          })
          channels,
      ok tt,
    )
  ]

  unfoldable pub receive_payment : Channels Params Account → String → ℤ → ℤ → Outcome Params Account
  receive_payment channels id amount now = elim (lookup id channels) [
    | none ↦ (channels, err channel_not_found)
    | some ch ↦ (
      insert id
          (record ch {
            my_balance = ch.my_balance +ℤ amount;
            peer_balance = ch.peer_balance -ℤ amount;
            updated_at = now;
          })
          channels,
      ok tt,
    )
  ]

  abbrev pub chain_state : PaymentChannel Params Account → String → Bool → ChannelState
  chain_state ch id final = record {
    id = id;
    version = 1;
    balances = (ch.my_balance, ch.peer_balance);
    is_final = final;
  }

  -- Both parties' signatures of a state.
  abbrev pub signatures :
      Sdk Params Account
      → PaymentChannel Params Account
      → ChannelState
      → Result PerunClientError (List Bytes)
  signatures sdk ch state = do
    bytes ← or_fail (sdk.pack state) pack_failed
    sig ← or_fail (sdk.sign_data bytes) sign_failed
    peer_sig ← or_fail (sdk.peer_sign_data ch.peer_account bytes) peer_sign_failed
    ok (sig ∷ peer_sig ∷ [])

  abbrev pub closing :
      Sdk Params Account
      → PaymentChannel Params Account
      → String
      → Result PerunClientError (Unit {0})
  closing sdk ch id = do
    let state = chain_state ch id true
    sigs ← signatures sdk ch state
    fail_if (not (sdk.close id state sigs ch.params)) close_failed

  abbrev pub disputing :
      Sdk Params Account
      → PaymentChannel Params Account
      → String
      → Result PerunClientError (Unit {0})
  disputing sdk ch id = do
    let state = chain_state ch id false
    sigs ← signatures sdk ch state
    fail_if (not (sdk.dispute id state sigs ch.params)) dispute_failed

  abbrev pub forcing :
      Sdk Params Account
      → PaymentChannel Params Account
      → String
      → Result PerunClientError (Unit {0})
  forcing sdk ch id =
      fail_if (not (sdk.force_close id (chain_state ch id true) ch.params)) force_close_failed

  -- The three operations on the chain: the state is set where the calls have succeeded.
  abbrev pub on_chain :
      (PaymentChannel Params Account → String → Result PerunClientError (Unit {0}))
      → PerunState
      → Channels Params Account
      → String
      → ℤ
      → Outcome Params Account
  on_chain calls next channels id now = elim (lookup id channels) [
    | none ↦ (channels, err channel_not_found)
    | some ch ↦ elim (calls ch id) [
      | err e ↦ (channels, err e)
      | ok u ↦ (insert id (record ch { state = next; updated_at = now }) channels, ok tt)
    ]
  ]

  -- The string that SettleChannel returns, of the ID's first eight bytes, is left out.
  unfoldable pub settle_channel :
      Sdk Params Account → Channels Params Account → String → ℤ → Outcome Params Account
  settle_channel sdk channels id now = on_chain (closing sdk) settled channels id now

  unfoldable pub dispute_channel :
      Sdk Params Account → Channels Params Account → String → ℤ → Outcome Params Account
  dispute_channel sdk channels id now = on_chain (disputing sdk) disputed channels id now

  unfoldable pub force_close_channel :
      Sdk Params Account → Channels Params Account → String → ℤ → Outcome Params Account
  force_close_channel sdk channels id now = on_chain (forcing sdk) force_closed channels id now

  unfoldable pub fund_channel :
      Sdk Params Account
      → Channels Params Account
      → String
      → Params
      → ChannelState
      → ℤ
      → Outcome Params Account
  fund_channel sdk channels pcts params state now =
      if sdk.fund pcts state params
      then elim (lookup (sdk.params_id params) channels) [
        | none ↦ (channels, ok tt)
        | some ch ↦ (
          insert (sdk.params_id params) (record ch { state = funded; updated_at = now }) channels,
          ok tt,
        )
      ]
      else (channels, err fund_failed)

  unfoldable pub get_channel :
      Channels Params Account → String → Result PerunClientError (PaymentChannel Params Account)
  get_channel channels id = or_fail (lookup id channels) channel_not_found

  unfoldable pub list_channels : Channels Params Account → List (PaymentChannel Params Account)
  list_channels channels = values channels

  -- A map's key is the ID in hexadecimal, which is what is compared.
  unfoldable pub get_channel_by_string :
      Channels Params Account → String → Result PerunClientError (PaymentChannel Params Account)
  get_channel_by_string [] wanted = err channel_not_found
  get_channel_by_string ((id, ch) ∷ rest) wanted =
      if str_eq ch.id wanted then ok ch else get_channel_by_string rest wanted

  unfoldable pub register_channel :
      Channels Params Account
      → String
      → Params
      → Account
      → String
      → ℤ
      → ℤ
      → ℤ
      → Channels Params Account
  register_channel channels id params peer_account peer_address my_balance peer_balance now =
      insert id
        (record {
          id = id;
          params = params;
          peer_account = peer_account;
          peer_address = peer_address;
          my_balance = my_balance;
          peer_balance = peer_balance;
          state = open_state;
          funding_tx = "";
          pcts = none;
          created_at = now;
          updated_at = now;
        })
        channels

  -- Parameters of the two accounts, and the start of the channel on the chain.
  abbrev starting :
      Sdk Params Account
      → Account
      → PerunState
      → String
      → ℤ
      → ℤ
      → ℤ
      → Result PerunClientError (PaymentChannel Params Account)
  starting sdk account state peer my_funding peer_funding now = do
    params ← or_fail (sdk.new_params account) no_params
    let id = sdk.params_id params
    let initial : ChannelState = record {
      id = id;
      version = 0;
      balances = (my_funding, peer_funding);
      is_final = false;
    }
    pcts ← or_fail (sdk.start params initial) start_failed
    ok (record {
      id = id;
      params = params;
      peer_account = account;
      peer_address = peer;
      my_balance = my_funding;
      peer_balance = peer_funding;
      state = state;
      funding_tx = pcts;
      pcts = none;
      created_at = now;
      updated_at = now;
    })

  abbrev stored :
      Channels Params Account
      → Result PerunClientError (PaymentChannel Params Account)
      → Channels Params Account × Result PerunClientError (PaymentChannel Params Account)
  stored channels (err e) = (channels, err e)
  stored channels (ok ch) = (insert ch.id ch channels, ok ch)

  unfoldable pub open_channel :
      Sdk Params Account
      → Channels Params Account
      → String
      → ℤ
      → ℤ
      → ℤ
      → Channels Params Account × Result PerunClientError (PaymentChannel Params Account)
  open_channel sdk channels peer my_funding peer_funding now = stored channels (do
    account ← or_fail sdk.new_account no_peer_account
    starting sdk account open_state peer my_funding peer_funding now)

  unfoldable pub open_channel_with_peer :
      Sdk Params Account
      → Channels Params Account
      → Account
      → String
      → ℤ
      → ℤ
      → ℤ
      → Channels Params Account × Result PerunClientError (PaymentChannel Params Account)
  open_channel_with_peer sdk channels account peer my_funding peer_funding now = stored channels (do
    ch ← starting sdk account pending peer my_funding peer_funding now
    ok (record ch { pcts = some ch.funding_tx }))
