-- ===== src/Session/Store/Index.antt =====
-- Lookups after creating and deleting, and the two ways to go through the active sessions.
use air_fi.Base.{
  ℕ, ◌+◌, ◌≡◌, refl, ap, or_fail, sym, ◌∙◌, ◌≢◌, ◌⊎◌, inl, inr, String, true, false, some, arith,
  ok, err, Bool-cases, List, [], ◌∷◌, length, All,
}
use air_fi.Base.Int.{ℤ}
use air_fi.Base.Map.{
  lookup, insert, values, lookup-insert_self, lookup-erase_self, lookup-insert_ne, lookup-erase_ne,
}
use air_fi.Session.Defs.{Session, is_active}
use air_fi.Session.Store.{
  Store, channel_busy, session_not_found, no_session_for_channel, new_session, is_busy, create, get,
  get_by_channel, delete, active_of, list_active, count_active, active_count,
}
use air_fi.Session.Store.Writes.{delete-eq, some_eq}

-- A new session is pending and unpaid; it is found by its ID and by its channel, and the other
-- sessions are found as before. A channel whose session is active gets no second one.
pub create_outcome :
    (s : Store) (id channel_id guest_addr : String) (now : ℤ)
    → ((is_busy s channel_id now ≡ true)
        × (create s id channel_id guest_addr now ≡ err channel_busy))
      ⊎ ((t : Store) × (x : Session) × (is_busy s channel_id now ≡ false)
          × (create s id channel_id guest_addr now ≡ ok (t, x))
          × (x ≡ new_session id channel_id guest_addr now)
          × (get t id ≡ ok x)
          × (get_by_channel t channel_id ≡ ok x)
          × ((j : String) → j ≢ id → get t j ≡ get s j))
unfolding create get get_by_channel
create_outcome s id channel_id guest_addr now = elim (Bool-cases (is_busy s channel_id now)) [
  | inl busy ↦ inl (busy, rw (busy, create))
  | inr free ↦ inr (
    record { sessions = insert id x s.sessions; by_channel = insert channel_id id s.by_channel },
    x,
    free,
    rw (free, create),
    refl,
    rw (lookup-insert_self id x s.sessions),
    rw (lookup-insert_self channel_id id s.by_channel, lookup-insert_self id x s.sessions),
    λ j ne. ap (λ o. or_fail o session_not_found) (lookup-insert_ne id j x s.sessions ne),
  )
]
  where
    x : Session
    x = new_session id channel_id guest_addr now

-- Deleting a session forgets it; every other session is still found by its ID.
pub delete_forgets :
    (s t : Store) (id : String)
    → delete s id ≡ ok t
    → (get t id ≡ err session_not_found) × ((j : String) → j ≢ id → get t j ≡ get s j)
unfolding get
delete_forgets s t id e =
    let (x, here, same) = delete-eq s t id e in
    rw same (
      rw (lookup-erase_self id s.sessions),
      λ j ne. ap (λ o. or_fail o session_not_found) (lookup-erase_ne id j s.sessions ne),
    )

-- Deleting also removes the channel's entry, whichever session that names: where a channel has gone
-- on to a newer session, deleting the older one leaves the newer stored, and no longer found by its
-- channel.
pub delete_orphans_newer :
    (s t : Store) (old new : String) (x y : Session)
    → lookup old s.sessions ≡ some x
    → lookup new s.sessions ≡ some y
    → old ≢ new
    → lookup x.channel_id s.by_channel ≡ some new
    → delete s old ≡ ok t
    → (get_by_channel s x.channel_id ≡ ok y)
      × (get t new ≡ ok y)
      × (get_by_channel t x.channel_id ≡ err no_session_for_channel)
unfolding get get_by_channel delete
delete_orphans_newer s t old new x y here there ne index e =
    let (x', here', same) = delete-eq s t old e in
    let one : x' ≡ x = some_eq x' x (sym here' ∙ here) in
    rw (same, one)
      (
        rw (index, there),
        rw (lookup-erase_ne old new s.sessions (λ f. ne (sym f)), there),
        rw (lookup-erase_self x.channel_id s.by_channel),
      )

length-active_of :
    (now : ℤ) (n : ℕ) (ss : List Session) → count_active now n ss ≡ n + length (active_of now ss)
unfolding count_active active_of
length-active_of now n [] = omega arith
length-active_of now n (s ∷ ss) =
    ground (arith, length-active_of now n ss, length-active_of now (n + 1) ss)

All-active_of : (now : ℤ) (ss : List Session) → All (λ x. is_active now x ≡ true) (active_of now ss)
unfolding active_of
All-active_of now [] = tt
All-active_of now (s ∷ ss) = elim (Bool-cases (is_active now s)) [
  | inl e ↦ rw (e, active_of) (e, All-active_of now ss)
  | inr e ↦ rw (e, active_of) (All-active_of now ss)
]

-- The active sessions that are listed are all active, and they are as many as are counted.
pub active_count-list_active :
    (s : Store) (now : ℤ)
    → (active_count s now ≡ length (list_active s now))
      × All (λ x. is_active now x ≡ true) (list_active s now)
unfolding active_count list_active
active_count-list_active s now = (
  omega (arith, length-active_of now 0 (values s.sessions)),
  All-active_of now (values s.sessions),
)
