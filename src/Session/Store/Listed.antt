-- ===== src/Session/Store/Listed.antt =====
-- The store lists each session once, under its own ID, after every sequence of operations.
use air_fi.Base.{
  ◌≡◌, refl, subst, sym, ◌∙◌, inl, inr, String, some, none, List, [], ◌∷◌, arith, str_eq, eq_iff,
  All, Bool-cases,
}
use air_fi.Base.Map.{Map, lookup, insert, erase, values, lookup-insert, lookup-erase}
use air_fi.Session.Defs.{Session, ended, expired}
use air_fi.Session.Store.{
  Store, new_store, new_session, write, activated, extended, finished, end_session, mark_expired,
  list_all,
}
use air_fi.Session.Store.Writes.{
  some_eq, none_ne, Wrote, activate-eq, extend-eq, finish-eq, delete-eq, create-eq,
}
use air_fi.Session.Store.Invariant.{
  Step, Reach, creates, activates, extends, ends, expires, deletes, start, next,
}

-- No key comes twice, and each is its session's ID.
abbrev IsListed : Map Session → Type 0
IsListed [] = Unit {0}
IsListed ((k, x) ∷ m) = (x.id ≡ k) × (lookup k m ≡ none) × IsListed m

insert-IsListed :
    (k : String) (x : Session) (m : Map Session) → x.id ≡ k → IsListed m → IsListed (insert k x m)
unfolding insert lookup
insert-IsListed k x [] named h = (named, refl, tt)
insert-IsListed k x ((j, y) ∷ m) named (own, once, h) = elim (Bool-cases (str_eq j k)) [
  | inl hit ↦ rw hit (ground (arith, eq_iff j k), once, h)
  | inr miss ↦ rw miss (
    own,
    ground (arith, eq_iff j k, eq_iff k j, lookup-insert k j x m),
    insert-IsListed k x m named h,
  )
]

erase-IsListed : (k : String) (m : Map Session) → IsListed m → IsListed (erase k m)
unfolding erase
erase-IsListed k [] h = tt
erase-IsListed k ((j, y) ∷ m) (own, once, h) = elim (Bool-cases (str_eq j k)) [
  | inl hit ↦ rw hit (erase-IsListed k m h)
  | inr miss ↦ rw miss (own, ground (arith, lookup-erase k j m), erase-IsListed k m h)
]

named_by_key :
    (k : String) (x : Session) (m : Map Session) → IsListed m → lookup k m ≡ some x → x.id ≡ k
unfolding lookup
named_by_key k x [] h e = absurd (none_ne x e)
named_by_key k x ((j, y) ∷ m) (own, once, h) e = elim (Bool-cases (str_eq j k)) [
  | inl hit ↦ ground (arith, eq_iff j k, some_eq y x (rw hit at e))
  | inr miss ↦ named_by_key k x m h (rw miss at e)
]

abbrev Finds : Map Session → List Session → Type 0
Finds m xs = All (λ y. lookup y.id m ≡ some y) xs

found_behind :
    (k : String) (x : Session) (m : Map Session) (xs : List Session)
    → lookup k m ≡ none
    → Finds m xs
    → Finds ((k, x) ∷ m) xs
unfolding lookup
found_behind k x m [] once h = tt
found_behind k x m (y ∷ ys) once (here, h) = (
  elim (Bool-cases (str_eq k y.id)) [
    | inl hit ↦ absurd (ground (arith, eq_iff k y.id))
    | inr miss ↦ rw miss here
  ],
  found_behind k x m ys once h,
)

values-Finds : (m : Map Session) → IsListed m → Finds m (values m)
unfolding lookup
values-Finds [] h = tt
values-Finds ((k, x) ∷ m) (own, once, h) =
    (ground (arith, eq_iff k x.id), found_behind k x m (values m) once (values-Finds m h))

writes-IsListed :
    (s t : Store) (id : String) (f : Session → Session)
    → ((x : Session) → (f x).id ≡ x.id)
    → IsListed s.sessions
    → Wrote s id f t
    → IsListed t.sessions
unfolding write
writes-IsListed s t id f same h (x, here, e) =
    subst (λ u. IsListed u.sessions) (sym e)
      (insert-IsListed id (f x) s.sessions (same x ∙ named_by_key id x s.sessions h here) h)

Step-IsListed : {s t : Store} → Step s t → IsListed s.sessions → IsListed t.sessions
unfolding end_session mark_expired new_session
Step-IsListed {s} {t} (creates id channel_id guest_addr now x fresh e) h =
    subst (λ u. IsListed u.sessions) (sym (create-eq s t id channel_id guest_addr now x e).1)
      (insert-IsListed id (new_session id channel_id guest_addr now) s.sessions refl h)
Step-IsListed {s} {t} (activates id duration token payment now e) h =
    writes-IsListed s t id (activated duration token payment now) (λ x. refl) h
      (activate-eq s t id duration token payment now e)
Step-IsListed {s} {t} (extends id additional payment now e) h =
    writes-IsListed s t id (extended additional payment now) (λ x. refl) h
      (extend-eq s t id additional payment now e)
Step-IsListed {s} {t} (ends id now e) h =
    writes-IsListed s t id (finished ended now) (λ x. refl) h (finish-eq ended s t id now e)
Step-IsListed {s} {t} (expires id now e) h =
    writes-IsListed s t id (finished expired now) (λ x. refl) h (finish-eq expired s t id now e)
Step-IsListed {s} {t} (deletes id e) h =
    let (x, here, same) = delete-eq s t id e in
    subst (λ u. IsListed u.sessions) (sym same) (erase-IsListed id s.sessions h)

Reach-IsListed : {s : Store} → Reach s → IsListed s.sessions
unfolding new_store
Reach-IsListed start = tt
Reach-IsListed (next r st) = Step-IsListed st (Reach-IsListed r)

-- Every session that the store lists is the one that it finds under that session's ID.
pub list_all-Finds : {s : Store} → Reach s → All (λ y. lookup y.id s.sessions ≡ some y) (list_all s)
unfolding list_all
list_all-Finds {s} r = values-Finds s.sessions (Reach-IsListed r)
