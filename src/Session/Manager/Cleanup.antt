-- ===== src/Session/Manager/Cleanup.antt =====
-- The loop of the cleanup of internal/session/manager.go, over any turns of its ticker.
use air_fi.Base.{
  ◌≡◌, refl, sym, ap, ◌∙◌, subst, arith, eq_iff, Option-cases, map, ◌++◌, inl, inr, String, false,
  not, ◌&&◌, some, none, List, [], ◌∷◌, Bool-cases, Result-cases,
}
use air_fi.Base.Int.{ℤ}
use air_fi.Base.Map.{lookup, lookup-insert}
use air_fi.Session.Defs.{Session, expired, is_status_active, is_active}
use air_fi.Session.Store.{Store, write, finished, mark_expired, list_all}
use air_fi.Session.Store.Writes.{finish-eq, some_eq, none_ne}
use air_fi.Session.Store.Invariant.{Reach, next, expires}
use air_fi.Session.Manager.{
  Manager, Turn, ticked, stopped, expire_overdue, expire_each, check_expired_sessions, cleanup_loop,
}
use air_fi.Session.Manager.Expiry.{is_overdue, check_expired_sessions_reached}

expire_overdue-Reach :
    (now : ℤ) (x : Session) (s : Store) → Reach s → Reach (expire_overdue now x s)
unfolding expire_overdue
expire_overdue-Reach now x s r =
    elim (Bool-cases (is_status_active x.status && not (is_active now x))) [
      | inr live ↦ rw live r
      | inl overdue ↦ elim (Result-cases (mark_expired s x.id now)) [
        | inl (e, failed) ↦ rw (overdue, failed) r
        | inr (t, marked) ↦ rw (overdue, marked) (next r (expires x.id now marked))
      ]
    ]

expire_each-Reach :
    (now : ℤ) (xs : List Session) (s : Store) → Reach s → Reach (expire_each now xs s)
unfolding expire_each
expire_each-Reach now [] s r = r
expire_each-Reach now (x ∷ xs) s r =
    expire_each-Reach now xs (expire_overdue now x s) (expire_overdue-Reach now x s r)

check_expired_sessions-Reach :
    (m : Manager) (now : ℤ) → Reach m.store → Reach (check_expired_sessions m now).store
unfolding check_expired_sessions
check_expired_sessions-Reach m now r = expire_each-Reach now (list_all m.store) m.store r

pub cleanup_loop-Reach :
    (turns : List Turn) (m : Manager) → Reach m.store → Reach (cleanup_loop m turns).store
unfolding cleanup_loop
cleanup_loop-Reach [] m r = r
cleanup_loop-Reach (stopped ∷ turns) m r = r
cleanup_loop-Reach (ticked now ∷ turns) m r =
    cleanup_loop-Reach turns (check_expired_sessions m now) (check_expired_sessions-Reach m now r)

-- A round adds no session.
expire_overdue_absent :
    (now : ℤ) (x : Session) (s : Store) (id : String)
    → lookup id s.sessions ≡ none
    → lookup id (expire_overdue now x s).sessions ≡ none
unfolding expire_overdue mark_expired
expire_overdue_absent now x s id absent =
    elim (Bool-cases (is_status_active x.status && not (is_active now x))) [
      | inr live ↦ rw live absent
      | inl overdue ↦ elim (Result-cases (mark_expired s x.id now)) [
        | inl (e, failed) ↦ rw (overdue, failed) absent
        | inr (t, marked) ↦
            let (y, here, same) = finish-eq expired s t x.id now marked in
            rw (overdue, marked) (ap (λ u. lookup id u.sessions) same ∙ kept y here)
      ]
    ]
  where
    kept :
        (y : Session)
        → lookup x.id s.sessions ≡ some y
        → lookup id (write s x.id (finished expired now y)).sessions ≡ none
    kept y here =
        ground (arith, eq_iff x.id id, lookup-insert x.id id (finished expired now y) s.sessions)

expire_each_absent :
    (now : ℤ) (xs : List Session) (s : Store) (id : String)
    → lookup id s.sessions ≡ none
    → lookup id (expire_each now xs s).sessions ≡ none
unfolding expire_each
expire_each_absent now [] s id absent = absent
expire_each_absent now (x ∷ xs) s id absent =
    expire_each_absent now xs (expire_overdue now x s) id (expire_overdue_absent now x s id absent)

check_expired_sessions_clears :
    (m : Manager) (now : ℤ) (id : String) (x : Session)
    → Reach m.store
    → lookup id (check_expired_sessions m now).store.sessions ≡ some x
    → is_overdue now x ≡ false
unfolding check_expired_sessions
check_expired_sessions_clears m now id x r here = elim (Option-cases (lookup id m.store.sessions)) [
  | inl absent ↦
      absurd (none_ne x (sym (expire_each_absent now (list_all m.store) m.store id absent) ∙ here))
  | inr (y, there) ↦ elim (check_expired_sessions_reached m now id y r there) [
    | inl (overdue, after) ↦
        subst (λ z. is_overdue now z ≡ false) (some_eq _ _ (sym after ∙ here)) refl
    | inr (spared, after) ↦
        subst (λ z. is_overdue now z ≡ false) (some_eq _ _ (sym after ∙ here)) spared
  ]
]

-- Whatever rounds have gone before over a store that operations have led to, right after a round at
-- `now` no stored session is marked active whose time has run out.
pub cleanup_loop_clears :
    (before : List ℤ) (m : Manager) (now : ℤ) (id : String) (x : Session)
    → Reach m.store
    → lookup id (cleanup_loop m (map ticked before ++ ticked now ∷ [])).store.sessions ≡ some x
    → is_overdue now x ≡ false
unfolding cleanup_loop
cleanup_loop_clears [] m now id x r here = check_expired_sessions_clears m now id x r here
cleanup_loop_clears (t ∷ before) m now id x r here =
    cleanup_loop_clears before (check_expired_sessions m t) now id x
      (check_expired_sessions-Reach m t r) here
