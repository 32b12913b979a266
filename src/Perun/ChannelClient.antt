-- ===== src/Perun/ChannelClient.antt =====
-- internal/perun/channel_client.go: the client of on-chain channels. go-perun keeps the channel's
-- state and has both parties sign it; whether it completes a call is an argument of the operation.
use air_fi.Base.{[], String, Bool, true, false, Option, none, some, if◌then◌else◌, Result, ok, err}
use air_fi.Base.Int.{ℤ, ◌+ℤ◌, ◌-ℤ◌, ltb_ℤ}
use air_fi.Base.Map.{Map, insert, erase}

-- A channel as this side sees it: its own balance and its peer's.
pub record GpChannel : Type 0 where
  pub id : String
  pub my_balance : ℤ
  pub peer_balance : ℤ
  pub is_final : Bool

pub record ActiveChannel : Type 0 where
  pub channel : GpChannel
  pub created_at : ℤ

pub record ChannelClient : Type 0 where
  pub channels : Map ActiveChannel

pub data ChannelClientError : Type 0 where
  insufficient_balance update_failed proposal_invalid proposal_failed settle_failed :
      ChannelClientError

unfoldable pub new_channel_client : ChannelClient
new_channel_client = record { channels = [] }

-- `updated`: whether `ch.Update` succeeds, which the peer has a say in.
unfoldable pub send_payment :
    Bool → GpChannel → ℤ → GpChannel × Result ChannelClientError (Unit {0})
send_payment updated ch amount =
    if ltb_ℤ ch.my_balance amount
    then (ch, err insufficient_balance)
    else if updated
    then (
      record ch { my_balance = ch.my_balance -ℤ amount; peer_balance = ch.peer_balance +ℤ amount },
      ok tt,
    )
    else (ch, err update_failed)

-- The ID of the new channel, where go-perun accepts the proposal and the peer agrees to it.
unfoldable pub propose_channel :
    Bool
    → Option String
    → ChannelClient
    → ℤ
    → ℤ
    → ℤ
    → ChannelClient × Result ChannelClientError GpChannel
propose_channel well_formed agreed cl my_funding peer_funding now =
    if well_formed
    then elim agreed [
      | none ↦ (cl, err proposal_failed)
      | some id ↦
          let ch : GpChannel = record {
            id = id;
            my_balance = my_funding;
            peer_balance = peer_funding;
            is_final = false;
          } in
          (
            record { channels = insert id (record { channel = ch; created_at = now }) cl.channels },
            ok ch,
          )
    ]
    else (cl, err proposal_invalid)

-- Finalizes, then settles on the chain, and then forgets the channel.
unfoldable pub settle_channel :
    Bool
    → Bool
    → ChannelClient
    → GpChannel
    → ChannelClient × GpChannel × Result ChannelClientError (Unit {0})
settle_channel updated settled cl ch =
    let final : GpChannel = record ch { is_final = true } in
    if updated
    then (if settled
        then (record { channels = erase ch.id cl.channels }, final, ok tt)
        else (cl, final, err settle_failed))
    else (cl, ch, err update_failed)
