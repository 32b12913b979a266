-- ===== src/Perun/Channel/Settlement.antt =====
-- Settle of internal/perun/channel.go: its outcomes, and what it leaves alone.
use air_fi.Base.{◌≡◌, ◌⊎◌, Bool, true, false, Option, some, arith, ok, err, ◌≢◌}
use air_fi.Base.Int.{ℤ}
use air_fi.Perun.Crypto.{Crypto}
use air_fi.Perun.Channel.{
  ChannelState, Channel, open_state, settling, closed, cancelled, already_closed, already_settling,
  compute_state_hash, settle_by, settle,
}
use air_fi.Perun.Channel.Invariant.{IsValid}
use air_fi.Base.Bytes.{Bytes}

module _ (c : Crypto) where
  -- Settling changes neither balances, version nor history.
  pub record SameMoney (ch ch' : Channel) : Type 0 where
    pub same_mine : ch'.my_balance ≡ ch.my_balance
    pub same_peer : ch'.peer_balance ≡ ch.peer_balance
    pub same_total : ch'.total_funding ≡ ch.total_funding
    pub same_version : ch'.version ≡ ch.version
    pub same_history : ch'.state_history ≡ ch.state_history
    pub same_id : ch'.id ≡ ch.id

  settle_by-SameMoney :
      (st : ChannelState) (now : ℤ) (cancel : Bool) (ch : Channel)
      → SameMoney ch (settle_by c st now cancel ch).0
  unfolding settle
  settle_by-SameMoney closed now cancel ch = ground arith
  settle_by-SameMoney _ now true ch = ground arith
  settle_by-SameMoney _ now false ch = ground arith

  pub settle-SameMoney :
      (now : ℤ) (cancel : Bool) (ch : Channel) → SameMoney ch (settle c now cancel ch).0
  unfolding settle
  settle-SameMoney now cancel ch = settle_by-SameMoney ch.state now cancel ch

  -- The fields that settling writes are none of the invariant's.
  settled-IsValid :
      (ch : Channel) (st : ChannelState) (at : Option ℤ) (touched : ℤ) (tx : Bytes)
      → IsValid c ch
      → IsValid c
          (record ch { state = st; settled_at = at; updated_at = touched; settlement_tx_hash = tx })
  unfolding compute_state_hash
  settled-IsValid ch st at touched tx v =
      let (prev, s, e, l) = v.latest in
      record {
        mine = v.mine;
        peers = v.peers;
        conserved = v.conserved;
        counted = v.counted;
        history = v.history;
        latest = (
          prev,
          s,
          e,
          record {
            same_version = l.same_version;
            same_mine = l.same_mine;
            same_peer = l.same_peer;
            same_hash = l.same_hash;
            hashed = l.hashed;
            signed = l.signed;
          },
        );
      }

  settle_by-IsValid :
      (st : ChannelState) (now : ℤ) (cancel : Bool) (ch : Channel)
      → IsValid c ch
      → IsValid c (settle_by c st now cancel ch).0
  unfolding settle compute_state_hash
  settle_by-IsValid closed now cancel ch v = v
  settle_by-IsValid settling now cancel ch v = v
  settle_by-IsValid _ now true ch v = settled-IsValid ch _ _ _ _ v
  settle_by-IsValid _ now false ch v = settled-IsValid ch _ _ _ _ v

  -- `Settle` closes a channel, and stamps it, exactly when it was neither closed nor settling and
  -- the wait is not cancelled. Cancelled, it leaves the channel open and unstamped, and fails; on a
  -- closed or settling channel it fails and changes nothing. In no case is any balance, the version or the
  -- history changed.
  pub settle_outcome :
      (now : ℤ) (cancel : Bool) (ch : Channel)
      → SameMoney ch (settle c now cancel ch).0
        × (((ch.state ≡ closed) × (settle c now cancel ch ≡ (ch, err already_closed)))
            ⊎ ((ch.state ≡ settling) × (settle c now cancel ch ≡ (ch, err already_settling)))
            ⊎ ((ch.state ≢ closed)
                × (ch.state ≢ settling)
                × (cancel ≡ false)
                × ((settle c now cancel ch).1 ≡ ok tt)
                × ((settle c now cancel ch).0.state ≡ closed)
                × ((settle c now cancel ch).0.settled_at ≡ some now))
            ⊎ ((ch.state ≢ closed)
                × (ch.state ≢ settling)
                × (cancel ≡ true)
                × ((settle c now cancel ch).1 ≡ err cancelled)
                × ((settle c now cancel ch).0.state ≡ open_state)
                × ((settle c now cancel ch).0.settled_at ≡ ch.settled_at)))
  unfolding settle
  settle_outcome now cancel ch = (settle-SameMoney now cancel ch, ground arith)

  pub settle-IsValid :
      (now : ℤ) (cancel : Bool) (ch : Channel) → IsValid c ch → IsValid c (settle c now cancel ch).0
  unfolding settle compute_state_hash
  settle-IsValid now cancel ch v = settle_by-IsValid ch.state now cancel ch v
