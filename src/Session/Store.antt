-- ===== src/Session/Store.antt =====
-- internal/session/store.go: the in-memory store. A `*Session` that it hands out is the session's
-- ID here. Each operation holds the lock throughout, so it is one step; `now` is its reading of the
-- clock.
pub mod Writes
pub mod Invariant
pub mod Listed
pub mod Index
use air_fi.Base.{
  ℕ, suc, ◌+◌, String, Bool, true, false, not, Option, none, some, List, [], ◌∷◌, if◌then◌else◌,
  Result, ok, err, ◌>>=◌, ◌>>◌, fail_if, or_fail, length,
}
use air_fi.Base.Int.{ℤ, pos, ◌+ℤ◌}
use air_fi.Base.Word.{add_i64}
use air_fi.Base.Map.{Map, lookup, insert, erase, values}
use air_fi.Session.Defs.{
  Session, SessionStatus, pending, active, expired, ended, is_status_active, is_active,
}

pub record Store : Type 0 where
  pub sessions : Map Session
  pub by_channel : Map String

pub data StoreError : Type 0 where
  channel_busy session_not_found no_session_for_channel session_not_active : StoreError

unfoldable pub new_store : Store
new_store = record { sessions = []; by_channel = [] }

unfoldable pub new_session : String → String → String → ℤ → Session
new_session id channel_id guest_addr now = record {
  id = id;
  channel_id = channel_id;
  guest_addr = guest_addr;
  status = pending;
  start_time = pos 0;
  end_time = none;
  duration = pos 0;
  total_paid = pos 0;
  token = "";
  created_at = now;
  updated_at = now;
}

-- The channel's present session, if the two maps have one and it is active.
unfoldable pub is_busy : Store → String → ℤ → Bool
is_busy s channel_id now = elim (lookup channel_id s.by_channel) [
  | none ↦ false
  | some existing ↦ elim (lookup existing s.sessions) [
    | none ↦ false
    | some session ↦ is_active now session
  ]
]

-- `id` is the new UUID.
unfoldable pub create : Store → String → String → String → ℤ → Result StoreError (Store × Session)
unfolding is_busy new_session
create s id channel_id guest_addr now =
    let session = new_session id channel_id guest_addr now in
    if is_busy s channel_id now
    then err channel_busy
    else ok (
      record {
        sessions = insert id session s.sessions;
        by_channel = insert channel_id id s.by_channel;
      },
      session,
    )

unfoldable pub get : Store → String → Result StoreError Session
get s id = or_fail (lookup id s.sessions) session_not_found

pub get_by_channel : Store → String → Result StoreError Session
get_by_channel s channel_id = do
  id ← or_fail (lookup channel_id s.by_channel) no_session_for_channel
  or_fail (lookup id s.sessions) session_not_found

-- A write through the pointer that the map holds.
unfoldable pub write : Store → String → Session → Store
write s id session = record s { sessions = insert id session s.sessions }

abbrev pub activated : ℤ → String → ℤ → ℤ → Session → Session
activated duration token payment now session = record session {
  status = active;
  start_time = now;
  duration = duration;
  token = token;
  total_paid = payment;
  updated_at = now;
}

abbrev pub extended : ℤ → ℤ → ℤ → Session → Session
extended additional payment now session = record session {
  duration = add_i64 session.duration additional;
  total_paid = session.total_paid +ℤ payment;
  updated_at = now;
}

abbrev pub finished : SessionStatus → ℤ → Session → Session
finished status now session = record session {
  status = status;
  end_time = some now;
  updated_at = now;
}

unfoldable pub activate : Store → String → ℤ → String → ℤ → ℤ → Result StoreError Store
unfolding write
activate s id duration token payment now = do
  session ← or_fail (lookup id s.sessions) session_not_found
  ok (write s id (activated duration token payment now session))

pub extend : Store → String → ℤ → ℤ → ℤ → Result StoreError Store
unfolding write
extend s id additional payment now = do
  session ← or_fail (lookup id s.sessions) session_not_found
  fail_if (not (is_status_active session.status)) session_not_active
  ok (write s id (extended additional payment now session))

unfoldable pub finish : SessionStatus → Store → String → ℤ → Result StoreError Store
unfolding write
finish status s id now = do
  session ← or_fail (lookup id s.sessions) session_not_found
  ok (write s id (finished status now session))

unfoldable pub end_session : Store → String → ℤ → Result StoreError Store
unfolding finish
end_session = finish ended

unfoldable pub mark_expired : Store → String → ℤ → Result StoreError Store
unfolding finish
mark_expired = finish expired

active_of : ℤ → List Session → List Session
active_of now [] = []
active_of now (s ∷ ss) = if is_active now s then s ∷ active_of now ss else active_of now ss

pub list_active : Store → ℤ → List Session
unfolding active_of
list_active s now = active_of now (values s.sessions)

unfoldable pub list_all : Store → List Session
list_all s = values s.sessions

unfoldable pub delete : Store → String → Result StoreError Store
delete s id = do
  session ← or_fail (lookup id s.sessions) session_not_found
  ok (record { sessions = erase id s.sessions; by_channel = erase session.channel_id s.by_channel })

unfoldable count : Store → ℕ
count s = length s.sessions

count_active : ℤ → ℕ → List Session → ℕ
count_active now n [] = n
count_active now n (s ∷ ss) = count_active now (if is_active now s then n + 1 else n) ss

pub active_count : Store → ℤ → ℕ
unfolding count_active
active_count s now = count_active now 0 (values s.sessions)
