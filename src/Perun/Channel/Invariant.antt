-- ===== src/Perun/Channel/Invariant.antt =====
-- What is always true of a channel: nobody's balance is negative, the two add up to the funding,
-- and the history holds every version so far, the current one last.
use air_fi.Base.{
  ℕ, ◌+◌, ◌<◌, ◌^◌, ◌≡◌, refl, subst, String, Option, none, some, List, [], ◌∷◌, ◌++◌, arith, ok,
  length, length-append,
}
use air_fi.Base.Int.{ℤ, pos, ◌+ℤ◌, ◌-ℤ◌, ◌≤ℤ◌, ◌<ℤ◌}
use air_fi.Base.Word.{add_u64, add_u64-eq}
use air_fi.Perun.Crypto.{Crypto}
use air_fi.Perun.Channel.{
  ChannelState, SignedState, Channel, open_state, compute_state_hash, update_of, payment_guard,
  commit, send_amount,
}

-- The entries carry the versions n, n + 1, … of one channel; each shares out the whole funding.
abbrev IsHistory : String → ℤ → ℕ → List SignedState → Type 0
IsHistory id total n [] = Unit {0}
IsHistory id total n (s ∷ ss) =
    (s.channel_id ≡ id)
    × (s.version ≡ n)
    × (pos 0 ≤ℤ s.my_balance)
    × (pos 0 ≤ℤ s.peer_balance)
    × (s.my_balance +ℤ s.peer_balance ≡ total)
    × IsHistory id total (n + 1) ss

-- The entry for the current balances.
pub record IsLatest (c : Crypto) (ch : Channel) (s : SignedState) : Type 0 where
  pub same_version : s.version ≡ ch.version
  pub same_mine : s.my_balance ≡ ch.my_balance
  pub same_peer : s.peer_balance ≡ ch.peer_balance
  pub same_hash : s.state_hash ≡ ch.state_hash
  pub hashed : ch.state_hash ≡ compute_state_hash c ch
  pub signed : s.signature ≡ ch.my_signature

pub record IsValid (c : Crypto) (ch : Channel) : Type 0 where
  pub mine : pos 0 ≤ℤ ch.my_balance
  pub peers : pos 0 ≤ℤ ch.peer_balance
  pub conserved : ch.my_balance +ℤ ch.peer_balance ≡ ch.total_funding
  pub counted : length ch.state_history ≡ ch.version + 1
  pub history : IsHistory ch.id ch.total_funding 0 ch.state_history
  pub latest :
      (prev : List SignedState) × (s : SignedState) × (ch.state_history ≡ prev ++ s ∷ [])
      × IsLatest c ch s

IsHistory-append :
    (id : String) (total : ℤ) (n : ℕ) (ss : List SignedState) (s : SignedState)
    → IsHistory id total n ss
    → IsHistory id total (n + length ss) (s ∷ [])
    → IsHistory id total n (ss ++ s ∷ [])
IsHistory-append id total n [] s h k = subst (λ m. IsHistory id total m (s ∷ [])) (omega arith) k
IsHistory-append id total n (x ∷ ss) s h k = (
  h.0,
  h.1,
  h.2,
  h.3,
  h.4,
  IsHistory-append id total (n + 1) ss s h.5
      (subst (λ m. IsHistory id total m (s ∷ [])) (omega arith) k),
)

module _ (c : Crypto) (now : ℤ) (ch : Channel) where
  -- New balances that share out the same funding, under the next version.
  pub commit-IsValid :
      (mine peers : ℤ)
      → IsValid c ch
      → ch.version + 1 < 2 ^ 64
      → pos 0 ≤ℤ mine
      → pos 0 ≤ℤ peers
      → mine +ℤ peers ≡ ch.total_funding
      → IsValid c (commit c now ch (add_u64 ch.version 1) mine peers)
  unfolding commit compute_state_hash
  commit-IsValid mine peers v small hm hp sum =
      let e : add_u64 ch.version 1 ≡ ch.version + 1 = add_u64-eq ch.version 1 small in
      record {
        mine = hm;
        peers = hp;
        conserved = sum;
        counted = omega (arith, e, v.counted, length-append {0} ch.state_history);
        history =
            IsHistory-append ch.id ch.total_funding 0 ch.state_history _ v.history
              (refl, omega (arith, e, v.counted), hm, hp, sum, tt);
        latest = (
          ch.state_history,
          _,
          refl,
          record {
            same_version = refl;
            same_mine = refl;
            same_peer = refl;
            same_hash = refl;
            hashed = refl;
            signed = refl;
          },
        );
      }

-- The three guards pass for this amount.
pub record IsPayable (st : ChannelState) (amount : Option ℤ) (funds a : ℤ) : Type 0 where
  pub in_open : st ≡ open_state
  pub given : amount ≡ some a
  pub positive : pos 0 <ℤ a
  pub covered : a ≤ℤ funds

pub payment_guard-IsPayable :
    (st : ChannelState) (amount : Option ℤ) (funds a : ℤ)
    → payment_guard st amount funds ≡ ok a
    → IsPayable st amount funds a
unfolding payment_guard
payment_guard-IsPayable st none funds a h = ground arith
payment_guard-IsPayable st (some x) funds a h = ground arith

pub payment_guard-ok :
    (st : ChannelState) (amount : Option ℤ) (funds a : ℤ)
    → IsPayable st amount funds a
    → payment_guard st amount funds ≡ ok a
unfolding payment_guard
payment_guard-ok st amount funds a p =
    rw (p.in_open, p.given) (ground (arith, p.positive, p.covered))

module _ (c : Crypto) (now : ℤ) where
  pub send_amount-eq :
      (ch : Channel) (a : ℤ)
      → let sent =
          commit c now ch (add_u64 ch.version 1) (ch.my_balance -ℤ a) (ch.peer_balance +ℤ a) in
        send_amount c now ch a ≡ (sent, ok (update_of sent))
  unfolding send_amount commit
  send_amount-eq ch a = ground arith
