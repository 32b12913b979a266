-- ===== src/Session/Store/Writes.antt =====
-- internal/session/store.go: what each successful operation has written.
use air_fi.Base.{◌≡◌, inl, inr, String, false, some, none, arith, ok, Option-cases}
use air_fi.Base.Int.{ℤ}
use air_fi.Base.Map.{lookup, insert, erase, lookup-insert_self}
use air_fi.Session.Defs.{Session, SessionStatus, active}
use air_fi.Session.Store.{
  Store, new_session, is_busy, create, write, activate, activated, extended, finished, extend,
  finish, delete, get,
}

pub some_eq {ℓ} : {A : Type ℓ} (x y : A) → some x ≡ some y → x ≡ y
some_eq x y e = cc

pub none_ne {ℓ} : {A : Type ℓ} (x : A) → ¬ (none ≡ some x)
none_ne x e = cc

-- What a successful call has written: the session that was there, changed.
abbrev pub Wrote : Store → String → (Session → Session) → Store → Type 0
Wrote s id f t = (x : Session) × (lookup id s.sessions ≡ some x) × (t ≡ write s id (f x))

pub activate-eq :
    (s t : Store) (id : String) (duration : ℤ) (token : String) (payment now : ℤ)
    → activate s id duration token payment now ≡ ok t
    → Wrote s id (activated duration token payment now) t
unfolding activate
activate-eq s t id duration token payment now e = elim (Option-cases (lookup id s.sessions)) [
  | inl missing ↦ absurd (ground arith)
  | inr (x, here) ↦ (x, here, ground arith)
]

pub extend-eq :
    (s t : Store) (id : String) (additional payment now : ℤ)
    → extend s id additional payment now ≡ ok t
    → Wrote s id (extended additional payment now) t
unfolding extend
extend-eq s t id additional payment now e = elim (Option-cases (lookup id s.sessions)) [
  | inl missing ↦ absurd (ground arith)
  | inr (x, here) ↦ (x, here, ground arith)
]

pub finish-eq :
    (status : SessionStatus) (s t : Store) (id : String) (now : ℤ)
    → finish status s id now ≡ ok t
    → Wrote s id (finished status now) t
unfolding finish
finish-eq status s t id now e = elim (Option-cases (lookup id s.sessions)) [
  | inl missing ↦ absurd (ground arith)
  | inr (x, here) ↦ (x, here, ground arith)
]

pub delete-eq :
    (s t : Store) (id : String)
    → delete s id ≡ ok t
    → (x : Session) × (lookup id s.sessions ≡ some x)
      × (t
          ≡ record { sessions = erase id s.sessions; by_channel = erase x.channel_id s.by_channel })
unfolding delete
delete-eq s t id e = elim (Option-cases (lookup id s.sessions)) [
  | inl missing ↦ absurd (ground arith)
  | inr (x, here) ↦ (x, here, ground arith)
]

abbrev pub created : Store → String → String → String → ℤ → Store
created s id channel_id guest_addr now = record {
  sessions = insert id (new_session id channel_id guest_addr now) s.sessions;
  by_channel = insert channel_id id s.by_channel;
}

pub create-eq :
    (s t : Store) (id channel_id guest_addr : String) (now : ℤ) (x : Session)
    → create s id channel_id guest_addr now ≡ ok (t, x)
    → (is_busy s channel_id now ≡ false)
      × (t ≡ created s id channel_id guest_addr now)
      × (x ≡ new_session id channel_id guest_addr now)
unfolding create
create-eq s t id channel_id guest_addr now x e = ground arith

pub get-write : (s : Store) (id : String) (x : Session) → get (write s id x) id ≡ ok x
unfolding get write
get-write s id x = rw (lookup-insert_self id x s.sessions)

pub activate-ok :
    (s : Store) (id : String) (x : Session) (duration : ℤ) (token : String) (payment now : ℤ)
    → lookup id s.sessions ≡ some x
    → activate s id duration token payment now
      ≡ ok (write s id (activated duration token payment now x))
unfolding activate
activate-ok s id x duration token payment now here = rw here

pub extend-ok :
    (s : Store) (id : String) (x : Session) (additional payment now : ℤ)
    → lookup id s.sessions ≡ some x
    → x.status ≡ active
    → extend s id additional payment now ≡ ok (write s id (extended additional payment now x))
unfolding extend
extend-ok s id x additional payment now here live = rw (here, live)

pub finish-ok :
    (status : SessionStatus) (s : Store) (id : String) (x : Session) (now : ℤ)
    → lookup id s.sessions ≡ some x
    → finish status s id now ≡ ok (write s id (finished status now x))
unfolding finish
finish-ok status s id x now here = rw here
