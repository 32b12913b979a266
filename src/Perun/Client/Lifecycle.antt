-- ===== src/Perun/Client/Lifecycle.antt =====
-- Opening, closing and disconnecting: what the client's map holds after each.
use air_fi.Base.{
  ◌≡◌, refl, ◌≢◌, ◌⊎◌, inl, inr, String, Bool, true, false, Option, some, none, [], ◌∷◌, arith,
  Result, ok, err, Result-cases, str_eq, eq_iff, Bool-cases,
}
use air_fi.Base.Int.{ℤ, pos, ◌+ℤ◌, ◌≤ℤ◌, ◌<ℤ◌, int_laws}
use air_fi.Base.Map.{
  Map, lookup, insert, erase, lookup-insert, lookup-insert_self, lookup-erase, lookup-erase_self,
}
use air_fi.Perun.Crypto.{Crypto}
use air_fi.Perun.Channel.{
  Channel, ChannelError, OpenChannelRequest, settling, open_state, closed, already_closed, settle,
  compute_state_hash, snapshot, cancelled,
}
use air_fi.Perun.Channel.Invariant.{IsValid}
use air_fi.Perun.Channel.Settlement.{settle_outcome}
use air_fi.Perun.Client.{
  Client, open_guard, own_funding, initiated, funded, opened, open_channel, close_found,
  close_channel, settle_if_open, settle_all, connect, disconnect,
}

own_funding_nonneg : (a : Option ℤ) → pos 0 ≤ℤ own_funding a
unfolding own_funding
own_funding_nonneg none = omega arith
own_funding_nonneg (some a) = ground arith

open_guard_positive :
    (cl : Client) (req : OpenChannelRequest) (peer : ℤ)
    → open_guard cl req ≡ ok peer
    → (pos 0 <ℤ peer) × (req.peer_funding ≡ some peer)
unfolding open_guard
open_guard_positive cl req peer h = ground arith

add_comm : (a b : ℤ) → a +ℤ b ≡ b +ℤ a
add_comm a b = omega int_laws

module _ (c : Crypto) where
  opened-IsValid :
      (cl : Client) (req : OpenChannelRequest) (id : String) (now peer : ℤ)
      → pos 0 <ℤ peer
      → IsValid c (opened c now (funded c now (initiated c cl req id now peer)))
  unfolding opened funded initiated compute_state_hash snapshot
  opened-IsValid cl req id now peer positive =
      let own = own_funding req.my_funding in
      record {
        mine = own_funding_nonneg req.my_funding;
        peers = omega arith;
        conserved = add_comm own peer;
        counted = omega arith;
        history =
            (refl, refl, own_funding_nonneg req.my_funding, omega arith, add_comm own peer, tt);
        latest = (
          [],
          _,
          refl,
          record {
            same_version = refl;
            same_mine = refl;
            same_peer = refl;
            same_hash = refl;
            hashed = refl;
            signed = refl;
          },
        );
      }

  -- What a successful opening hands out and stores.
  pub record Opens (cl : Client) (req : OpenChannelRequest) (id : String) (cl' : Client)
      (ch : Channel) : Type 0 where
    pub valid : IsValid c ch
    pub in_open : ch.state ≡ open_state
    pub fresh : ch.version ≡ 0
    pub named : ch.id ≡ id
    pub peer_share : req.peer_funding ≡ some ch.peer_balance
    pub stored : lookup id cl'.channels ≡ some ch
    pub others : (j : String) → j ≢ id → lookup j cl'.channels ≡ lookup j cl.channels

  -- `OpenChannel` either fails and leaves the client as it was, or it returns a valid channel in
  -- the open state at version 0, with the requested funding on the peer's side, and stores it
  -- under its ID beside the channels that were there.
  pub open_channel_outcome :
      (cl : Client) (req : OpenChannelRequest) (id : String) (now : ℤ) (cancel : Bool)
      → ((e : ChannelError) × (open_channel c cl req id now cancel ≡ (cl, err e)))
        ⊎ ((ch : Channel) × ((open_channel c cl req id now cancel).1 ≡ ok ch)
            × Opens cl req id (open_channel c cl req id now cancel).0 ch)
  unfolding open_channel
  open_channel_outcome cl req id now cancel = elim (Result-cases (open_guard cl req)) [
    | inl (e, p) ↦ inl (e, rw (p, open_channel))
    | inr (peer, p) ↦ elim (Bool-cases cancel) [
      | inl stop ↦ inl (cancelled, rw (p, stop, open_channel))
      | inr go ↦
          let ch = opened c now (funded c now (initiated c cl req id now peer)) in
          inr (
            ch,
            rw (p, go, open_channel),
            rw (p, go, open_channel)
                (record {
                  valid = opened-IsValid cl req id now peer (open_guard_positive cl req peer p).0;
                  in_open = refl;
                  fresh = refl;
                  named = refl;
                  peer_share = (open_guard_positive cl req peer p).1;
                  stored = lookup-insert_self id ch cl.channels;
                  others = λ j ne. other j ch ne;
                }),
          )
    ]
  ]
    where
      other :
          (j : String) (ch : Channel)
          → j ≢ id
          → lookup j (insert id ch cl.channels) ≡ lookup j cl.channels
      other j ch ne = ground (arith, eq_iff id j, lookup-insert id j ch cl.channels)

  settle_completes :
      (now : ℤ) (ch : Channel)
      → ch.state ≢ closed
      → ch.state ≢ settling
      → (settle c now false ch).1 ≡ ok tt
  settle_completes now ch nc ns = ground (arith, settle_outcome c now false ch)

  close_found_ok :
      (now : ℤ) (cl : Client) (id : String) (r : Channel × Result ChannelError (Unit {0}))
      → r.1 ≡ ok tt
      → close_found c now cl id r ≡ (record cl { channels = erase id cl.channels }, ok tt)
  unfolding close_found
  close_found_ok now cl id (ch, ok u) e = refl
  close_found_ok now cl id (ch, err x) e = cc

  close_channel-eq :
      (now : ℤ) (cl : Client) (id : String) (ch : Channel)
      → lookup id cl.channels ≡ some ch
      → ch.state ≢ closed
      → ch.state ≢ settling
      → close_channel c now cl id ≡ (record cl { channels = erase id cl.channels }, ok tt)
  unfolding close_channel
  close_channel-eq now cl id ch here nc ns =
      rw (here, close_channel)
        (close_found_ok now cl id (settle c now false ch) (settle_completes now ch nc ns))

  lookup-erase_ne : (id j : String) (m : Map Channel) → j ≢ id → lookup j (erase id m) ≡ lookup j m
  lookup-erase_ne id j m ne = ground (arith, eq_iff id j, lookup-erase id j m)

  -- Closing a channel that is not yet closed or settling succeeds and forgets it, and it alone.
  pub close_channel_forgets :
      (now : ℤ) (cl : Client) (id : String) (ch : Channel)
      → lookup id cl.channels ≡ some ch
      → ch.state ≢ closed
      → ch.state ≢ settling
      → ((close_channel c now cl id).1 ≡ ok tt)
        × (lookup id (close_channel c now cl id).0.channels ≡ none)
        × ((j : String)
            → j ≢ id
            → lookup j (close_channel c now cl id).0.channels ≡ lookup j cl.channels)
  close_channel_forgets now cl id ch here nc ns =
      rw (close_channel-eq now cl id ch here nc ns)
        (refl, lookup-erase_self id cl.channels, λ j ne. lookup-erase_ne id j cl.channels ne)

  -- A channel that has already been settled on its own can never be removed: closing it fails, and
  -- it stays in the client's map.
  pub close_channel_stuck :
      (now : ℤ) (cl : Client) (id : String) (ch : Channel)
      → lookup id cl.channels ≡ some ch
      → ch.state ≡ closed
      → ((close_channel c now cl id).1 ≡ err already_closed)
        × (lookup id (close_channel c now cl id).0.channels ≡ some ch)
  unfolding close_channel settle
  close_channel_stuck now cl id ch here e =
      ground (arith, settle_outcome c now false ch, lookup-insert_self id ch cl.channels)

  none_ne : (ch : Channel) → ¬ (none ≡ some ch)
  none_ne ch e = cc

  some_eq : (x y : Channel) → some x ≡ some y → x ≡ y
  some_eq x y e = cc

  -- No channel of the map is open.
  abbrev pub NoneOpen : Map Channel → Type 0
  NoneOpen [] = Unit {0}
  NoneOpen ((k, ch) ∷ m) = (ch.state ≢ open_state) × NoneOpen m

  settle_if_open_closes :
      (now : ℤ) (ch : Channel) → (settle_if_open c now false ch).state ≢ open_state
  unfolding settle_if_open
  settle_if_open_closes now ch = ground (arith, settle_outcome c now false ch)

  settle_all-NoneOpen : (now : ℤ) (m : Map Channel) → NoneOpen (settle_all c now false m)
  unfolding settle_all
  settle_all-NoneOpen now [] = tt
  settle_all-NoneOpen now ((k, ch) ∷ m) = (settle_if_open_closes now ch, settle_all-NoneOpen now m)

  -- Disconnecting a client whose context is live leaves no channel open, and the client
  -- disconnected.
  pub disconnect-NoneOpen :
      (now : ℤ) (cl : Client)
      → cl.ctx_done ≡ false
      → NoneOpen (disconnect c now cl).channels × ((disconnect c now cl).connected ≡ false)
  unfolding disconnect
  disconnect-NoneOpen now cl live = (rw live (settle_all-NoneOpen now cl.channels), refl)

  settle_if_open_cancelled :
      (now : ℤ) (ch : Channel)
      → ch.state ≡ open_state
      → ((settle_if_open c now true ch).state ≡ open_state)
        × ((settle_if_open c now true ch).settled_at ≡ ch.settled_at)
  unfolding settle_if_open
  settle_if_open_cancelled now ch o = ground (arith, settle_outcome c now true ch)

  settle_all_open :
      (now : ℤ) (id : String) (ch : Channel) (m : Map Channel)
      → lookup id m ≡ some ch
      → ch.state ≡ open_state
      → (ch' : Channel) × (lookup id (settle_all c now true m) ≡ some ch')
        × (ch'.state ≡ open_state)
        × (ch'.settled_at ≡ ch.settled_at)
  unfolding settle_all lookup
  settle_all_open now id ch [] here o = absurd (none_ne ch here)
  settle_all_open now id ch ((k, x) ∷ m) here o = elim (Bool-cases (str_eq k id)) [
    | inl hit ↦
        let same : x ≡ ch = some_eq x ch (rw hit at here) in
        (
          settle_if_open c now true ch,
          rw (hit, same),
          (settle_if_open_cancelled now ch o).0,
          (settle_if_open_cancelled now ch o).1,
        )
    | inr miss ↦ rw miss (settle_all_open now id ch m (rw miss at here) o)
  ]

  -- The context is not renewed by connecting again: after a disconnection and a new connection, a
  -- second disconnection settles nothing. A channel that is open then stays open and unsettled.
  pub disconnect_after_reconnect :
      (first now : ℤ) (cl : Client) (id : String) (ch : Channel) (channels : Map Channel)
      → lookup id channels ≡ some ch
      → ch.state ≡ open_state
      → (ch' : Channel) × (lookup id
            (disconnect c now
              (record (connect (disconnect c first cl)) { channels = channels })).channels
          ≡ some ch')
        × (ch'.state ≡ open_state)
        × (ch'.settled_at ≡ ch.settled_at)
  unfolding disconnect connect
  disconnect_after_reconnect first now cl id ch channels here o =
      settle_all_open now id ch channels here o
