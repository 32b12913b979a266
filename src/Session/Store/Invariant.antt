-- ===== src/Session/Store/Invariant.antt =====
-- The two maps of the store agree after every sequence of operations.
use air_fi.Base.{
  ◌≡◌, refl, subst, ◌⊎◌, inl, inr, sym, String, true, false, some, none, arith, ok, str_eq, eq_iff,
  Bool-cases,
}
use air_fi.Base.Int.{ℤ}
use air_fi.Base.Map.{lookup, insert, erase, lookup-insert, lookup-erase}
use air_fi.Session.Defs.{Session, ended, expired}
use air_fi.Session.Store.{
  Store, new_store, new_session, create, write, activate, activated, extended, finished, extend,
  end_session, mark_expired, delete,
}
use air_fi.Session.Store.Writes.{
  none_ne, Wrote, activate-eq, extend-eq, finish-eq, delete-eq, created, create-eq,
}

-- A session is stored under its own ID, and a channel's entry names a stored session of it.
pub record IsWellFormed (s : Store) : Type 0 where
  pub keyed : (id : String) (x : Session) → lookup id s.sessions ≡ some x → x.id ≡ id
  pub indexed :
      (channel_id id : String)
      → lookup channel_id s.by_channel ≡ some id
      → (x : Session) × (lookup id s.sessions ≡ some x) × (x.channel_id ≡ channel_id)

pub new_store-IsWellFormed : IsWellFormed new_store
unfolding new_store lookup
new_store-IsWellFormed = record {
  keyed = λ id x e. absurd (none_ne x e);
  indexed = λ channel_id id e. absurd (none_ne id e);
}

-- A write that keeps a session's ID and channel.
pub write-IsWellFormed :
    (s : Store) (id : String) (old x : Session)
    → IsWellFormed s
    → lookup id s.sessions ≡ some old
    → x.id ≡ old.id
    → x.channel_id ≡ old.channel_id
    → IsWellFormed (write s id x)
unfolding write
write-IsWellFormed s id old x w here same_id same_channel = record {
  keyed = λ j y e. kept j y (Bool-cases (str_eq id j)) e;
  indexed = λ ch j e. found ch j (Bool-cases (str_eq id j)) (w.indexed ch j e);
}
  where
    kept :
        (j : String) (y : Session)
        → (str_eq id j ≡ true) ⊎ (str_eq id j ≡ false)
        → lookup j (insert id x s.sessions) ≡ some y
        → y.id ≡ j
    kept j y (inl hit) e =
        ground (arith, eq_iff id j, lookup-insert id j x s.sessions, w.keyed id old here)
    kept j y (inr miss) e = w.keyed j y (ground (arith, lookup-insert id j x s.sessions))

    found :
        (ch j : String)
        → (str_eq id j ≡ true) ⊎ (str_eq id j ≡ false)
        → ((y : Session) × (lookup j s.sessions ≡ some y) × (y.channel_id ≡ ch))
        → (y : Session) × (lookup j (insert id x s.sessions) ≡ some y) × (y.channel_id ≡ ch)
    found ch j (inl hit) (y, e, c) =
        (x, ground (arith, lookup-insert id j x s.sessions), ground (arith, eq_iff id j))
    found ch j (inr miss) (y, e, c) = (y, ground (arith, lookup-insert id j x s.sessions), c)

created-IsWellFormed :
    (s : Store) (id channel_id guest_addr : String) (now : ℤ)
    → IsWellFormed s
    → lookup id s.sessions ≡ none
    → IsWellFormed (created s id channel_id guest_addr now)
unfolding new_session
created-IsWellFormed s id channel_id guest_addr now w fresh = record {
  keyed = λ j y e. kept j y (Bool-cases (str_eq id j)) e;
  indexed = λ ch j e. found ch j (Bool-cases (str_eq channel_id ch)) e;
}
  where
    x : Session
    x = new_session id channel_id guest_addr now

    kept :
        (j : String) (y : Session)
        → (str_eq id j ≡ true) ⊎ (str_eq id j ≡ false)
        → lookup j (insert id x s.sessions) ≡ some y
        → y.id ≡ j
    kept j y (inl hit) e = ground (arith, eq_iff id j, lookup-insert id j x s.sessions)
    kept j y (inr miss) e = w.keyed j y (ground (arith, lookup-insert id j x s.sessions))

    other :
        (ch j : String)
        → (str_eq id j ≡ true) ⊎ (str_eq id j ≡ false)
        → ((y : Session) × (lookup j s.sessions ≡ some y) × (y.channel_id ≡ ch))
        → (y : Session) × (lookup j (insert id x s.sessions) ≡ some y) × (y.channel_id ≡ ch)
    other ch j (inl hit) (y, e, c) = absurd (ground (arith, eq_iff id j))
    other ch j (inr miss) (y, e, c) = (y, ground (arith, lookup-insert id j x s.sessions), c)

    found :
        (ch j : String)
        → (str_eq channel_id ch ≡ true) ⊎ (str_eq channel_id ch ≡ false)
        → lookup ch (insert channel_id id s.by_channel) ≡ some j
        → (y : Session) × (lookup j (insert id x s.sessions) ≡ some y) × (y.channel_id ≡ ch)
    found ch j (inl hit) e = (
      x,
      ground (
        arith,
        lookup-insert channel_id ch id s.by_channel,
        lookup-insert id j x s.sessions,
        eq_iff id j,
      ),
      ground (arith, eq_iff channel_id ch),
    )
    found ch j (inr miss) e =
        other ch j (Bool-cases (str_eq id j))
          (w.indexed ch j (ground (arith, lookup-insert channel_id ch id s.by_channel)))

-- Creating a session under an unused ID keeps the maps in agreement.
pub create-IsWellFormed :
    (s t : Store) (id channel_id guest_addr : String) (now : ℤ) (x : Session)
    → IsWellFormed s
    → lookup id s.sessions ≡ none
    → create s id channel_id guest_addr now ≡ ok (t, x)
    → IsWellFormed t
create-IsWellFormed s t id channel_id guest_addr now x w fresh e =
    subst IsWellFormed (sym (create-eq s t id channel_id guest_addr now x e).1)
      (created-IsWellFormed s id channel_id guest_addr now w fresh)

deleted-IsWellFormed :
    (s : Store) (id : String) (x : Session)
    → IsWellFormed s
    → lookup id s.sessions ≡ some x
    → IsWellFormed
        (record { sessions = erase id s.sessions; by_channel = erase x.channel_id s.by_channel })
deleted-IsWellFormed s id x w here = record {
  keyed = λ j y e. w.keyed j y (ground (arith, lookup-erase id j s.sessions));
  indexed = λ ch j e.
      found ch j (Bool-cases (str_eq id j))
        (w.indexed ch j (ground (arith, lookup-erase x.channel_id ch s.by_channel))) e;
}
  where
    found :
        (ch j : String)
        → (str_eq id j ≡ true) ⊎ (str_eq id j ≡ false)
        → ((y : Session) × (lookup j s.sessions ≡ some y) × (y.channel_id ≡ ch))
        → lookup ch (erase x.channel_id s.by_channel) ≡ some j
        → (y : Session) × (lookup j (erase id s.sessions) ≡ some y) × (y.channel_id ≡ ch)
    found ch j (inl hit) (y, f, c) e = absurd (
        ground
          (arith, eq_iff id j, eq_iff x.channel_id ch, lookup-erase x.channel_id ch s.by_channel))
    found ch j (inr miss) (y, f, c) e = (y, ground (arith, lookup-erase id j s.sessions), c)

-- One operation of the store that succeeds. A new ID is a UUID, which no stored session has.
pub data Step (s t : Store) : Type 0 where
  creates :
      (id channel_id guest_addr : String) (now : ℤ) (x : Session)
      → lookup id s.sessions ≡ none
      → create s id channel_id guest_addr now ≡ ok (t, x)
      → Step s t
  activates :
      (id : String) (duration : ℤ) (token : String) (payment now : ℤ)
      → activate s id duration token payment now ≡ ok t
      → Step s t
  extends :
      (id : String) (additional payment now : ℤ)
      → extend s id additional payment now ≡ ok t
      → Step s t
  ends : (id : String) (now : ℤ) → end_session s id now ≡ ok t → Step s t
  expires : (id : String) (now : ℤ) → mark_expired s id now ≡ ok t → Step s t
  deletes : (id : String) → delete s id ≡ ok t → Step s t

pub data Reach : Store → Type 0 where
  start : Reach new_store
  next : {s t : Store} → Reach s → Step s t → Reach t

pub writes :
    (s t : Store) (id : String) (f : Session → Session)
    → IsWellFormed s
    → ((x : Session) → (f x).id ≡ x.id)
    → ((x : Session) → (f x).channel_id ≡ x.channel_id)
    → Wrote s id f t
    → IsWellFormed t
writes s t id f w same_id same_channel (x, here, e) =
    subst IsWellFormed (sym e) (write-IsWellFormed s id x (f x) w here (same_id x) (same_channel x))

Step-IsWellFormed : {s t : Store} → Step s t → IsWellFormed s → IsWellFormed t
unfolding end_session mark_expired
Step-IsWellFormed {s} {t} (creates id channel_id guest_addr now x fresh e) w =
    create-IsWellFormed s t id channel_id guest_addr now x w fresh e
Step-IsWellFormed {s} {t} (activates id duration token payment now e) w =
    writes s t id (activated duration token payment now) w (λ x. refl) (λ x. refl)
      (activate-eq s t id duration token payment now e)
Step-IsWellFormed {s} {t} (extends id additional payment now e) w =
    writes s t id (extended additional payment now) w (λ x. refl) (λ x. refl)
      (extend-eq s t id additional payment now e)
Step-IsWellFormed {s} {t} (ends id now e) w =
    writes s t id (finished ended now) w (λ x. refl) (λ x. refl) (finish-eq ended s t id now e)
Step-IsWellFormed {s} {t} (expires id now e) w =
    writes s t id (finished expired now) w (λ x. refl) (λ x. refl) (finish-eq expired s t id now e)
Step-IsWellFormed {s} {t} (deletes id e) w =
    let (x, here, same) = delete-eq s t id e in
    subst IsWellFormed (sym same) (deleted-IsWellFormed s id x w here)

-- After any sequence of successful operations from the empty store, every session is stored under
-- its own ID, and every channel's entry names a stored session of that channel.
pub Reach-IsWellFormed : {s : Store} → Reach s → IsWellFormed s
Reach-IsWellFormed start = new_store-IsWellFormed
Reach-IsWellFormed (next r st) = Step-IsWellFormed st (Reach-IsWellFormed r)
