-- ===== src/Session/Manager/Expiry.antt =====
-- One round of the cleanup of internal/session/manager.go: which sessions it marks as expired.
use air_fi.Base.{
  ◌≡◌, refl, ap, sym, ◌∙◌, ◌≢◌, ◌⊎◌, inl, inr, String, Bool, true, false, not, ◌&&◌, some, none,
  List, [], ◌∷◌, ok, arith, str_eq, eq_iff, Bool-cases, Option-cases, All,
}
use mathlib.Core.List.{Memᴰ}
use air_fi.Base.Int.{ℤ}
use air_fi.Base.Map.{Map, lookup, values, lookup-insert_self, lookup-insert_ne}
use air_fi.Session.Defs.{Session, expired, is_status_active, is_active}
use air_fi.Session.Store.{Store, write, finished, finish, mark_expired, list_all}
use air_fi.Session.Store.Writes.{finish-ok, some_eq}
use air_fi.Session.Store.Invariant.{IsWellFormed, Reach, Reach-IsWellFormed}
use air_fi.Session.Store.Listed.{list_all-Finds}
use air_fi.Session.Manager.{Manager, expire_overdue, expire_each, check_expired_sessions}

-- What the cleanup looks for.
abbrev pub is_overdue : ℤ → Session → Bool
is_overdue now x = is_status_active x.status && not (is_active now x)

-- Every session in the list is the one that a map finds under its ID.
abbrev pub AllFound : Map Session → List Session → Type 0
AllFound m xs = All (λ y. lookup y.id m ≡ some y) xs

module _ (now : ℤ) where
  mark :
      (s : Store) (id : String) (x : Session)
      → lookup id s.sessions ≡ some x
      → mark_expired s id now ≡ ok (write s id (finished expired now x))
  unfolding mark_expired
  mark s id x here = finish-ok expired s id x now here

  written : (s : Store) (id : String) (x : Session) → lookup id (write s id x).sessions ≡ some x
  unfolding write
  written s id x = lookup-insert_self id x s.sessions

  kept :
      (s : Store) (id j : String) (x : Session)
      → j ≢ id
      → lookup j (write s id x).sessions ≡ lookup j s.sessions
  unfolding write
  kept s id j x ne = lookup-insert_ne id j x s.sessions ne

  -- A session under another ID is left as it is.
  expire_overdue_other :
      (y : Session) (s : Store) (id : String)
      → id ≢ y.id
      → lookup id (expire_overdue now y s).sessions ≡ lookup id s.sessions
  unfolding expire_overdue mark_expired finish
  expire_overdue_other y s id ne = elim (Bool-cases (is_overdue now y)) [
    | inr spared ↦ rw (spared, expire_overdue) refl
    | inl overdue ↦ elim (Option-cases (lookup y.id s.sessions)) [
      | inl missing ↦ rw (overdue, missing, expire_overdue) refl
      | inr (z, here) ↦
          rw (overdue, here, expire_overdue) (kept s y.id id (finished expired now z) ne)
    ]
  ]

  expire_overdue_spared :
      (y : Session) (s : Store) → is_overdue now y ≡ false → expire_overdue now y s ≡ s
  unfolding expire_overdue
  expire_overdue_spared y s spared = rw (spared, expire_overdue) refl

  expire_overdue_marked :
      (y : Session) (s : Store) (z : Session)
      → is_overdue now y ≡ true
      → lookup y.id s.sessions ≡ some z
      → lookup y.id (expire_overdue now y s).sessions ≡ some (finished expired now z)
  unfolding expire_overdue
  expire_overdue_marked y s z overdue here =
      rw (overdue, mark s y.id z here, expire_overdue) (written s y.id (finished expired now z))

  module _ (m : Map Session) (id : String) (x : Session) (here : lookup id m ≡ some x) where
    -- A listed session under the same ID is the same one.
    same_session : (y : Session) → lookup y.id m ≡ some y → id ≡ y.id → y ≡ x
    same_session y found e = some_eq y x (sym found ∙ ap (λ k. lookup k m) (sym e) ∙ here)

    same_or_other : (y : Session) → (id ≡ y.id) ⊎ (id ≢ y.id)
    same_or_other y = elim (Bool-cases (str_eq id y.id)) [
      | inl hit ↦ inl (ground (arith, eq_iff id y.id))
      | inr miss ↦ inr (λ e. ground (arith, eq_iff id y.id))
    ]

    expire_each_spared :
        (xs : List Session) (s : Store)
        → is_overdue now x ≡ false
        → AllFound m xs
        → lookup id s.sessions ≡ some x
        → lookup id (expire_each now xs s).sessions ≡ some x
    unfolding expire_each
    expire_each_spared [] s spared all at = at
    expire_each_spared (y ∷ ys) s spared (found, all) at = elim (same_or_other y) [
      | inl e ↦
          let one = same_session y found e in
          expire_each_spared ys (expire_overdue now y s) spared all (
            ap (λ t. lookup id t.sessions)
              (expire_overdue_spared y s (ap (is_overdue now) one ∙ spared))
            ∙ at)
      | inr ne ↦
          expire_each_spared ys (expire_overdue now y s) spared all
            (expire_overdue_other y s id ne ∙ at)
    ]

    -- Marking a second time changes nothing.
    step_marked :
        (y : Session) (s : Store) (z : Session)
        → is_overdue now x ≡ true
        → lookup y.id m ≡ some y
        → id ≡ y.id
        → finished expired now z ≡ finished expired now x
        → lookup id s.sessions ≡ some z
        → lookup id (expire_overdue now y s).sessions ≡ some (finished expired now x)
    step_marked y s z overdue found e again at =
        ap (λ k. lookup k (expire_overdue now y s).sessions) e
        ∙ expire_overdue_marked y s z (ap (is_overdue now) (same_session y found e) ∙ overdue)
            (ap (λ k. lookup k s.sessions) (sym e) ∙ at)
        ∙ ap some again

    expire_each_kept :
        (xs : List Session) (s : Store)
        → is_overdue now x ≡ true
        → AllFound m xs
        → lookup id s.sessions ≡ some (finished expired now x)
        → lookup id (expire_each now xs s).sessions ≡ some (finished expired now x)
    unfolding expire_each
    expire_each_kept [] s overdue all at = at
    expire_each_kept (y ∷ ys) s overdue (found, all) at = elim (same_or_other y) [
      | inl e ↦
          expire_each_kept ys (expire_overdue now y s) overdue all
            (step_marked y s (finished expired now x) overdue found e refl at)
      | inr ne ↦
          expire_each_kept ys (expire_overdue now y s) overdue all
            (expire_overdue_other y s id ne ∙ at)
    ]

    expire_each_marks :
        (xs : List Session) (s : Store)
        → is_overdue now x ≡ true
        → x.id ≡ id
        → AllFound m xs
        → Memᴰ x xs
        → lookup id s.sessions ≡ some x
        → lookup id (expire_each now xs s).sessions ≡ some (finished expired now x)
    unfolding expire_each
    expire_each_marks [] s overdue named all member at = elim member [ ]
    expire_each_marks (y ∷ ys) s overdue named (found, all) (Memᴰ.head one) at =
        expire_each_kept ys (expire_overdue now y s) overdue all
          (step_marked y s x overdue found (sym named ∙ ap (λ z. z.id) one) refl at)
    expire_each_marks (y ∷ ys) s overdue named (found, all) (Memᴰ.tail more) at =
        elim (same_or_other y) [
          | inl e ↦
              expire_each_kept ys (expire_overdue now y s) overdue all
                (step_marked y s x overdue found e refl at)
          | inr ne ↦
              expire_each_marks ys (expire_overdue now y s) overdue named all more
                (expire_overdue_other y s id ne ∙ at)
        ]

none_ne : {x : Session} → ¬ (none ≡ some x)
none_ne e = cc

values_Mem :
    (m : Map Session) (id : String) (x : Session) → lookup id m ≡ some x → Memᴰ x (values m)
unfolding lookup
values_Mem [] id x e = absurd (none_ne e)
values_Mem ((k, y) ∷ m) id x e = elim (Bool-cases (str_eq k id)) [
  | inl hit ↦ Memᴰ.head (sym (some_eq y x (rw hit at e)))
  | inr miss ↦ Memᴰ.tail (values_Mem m id x (rw miss at e))
]

-- A round of the cleanup marks as expired, with the end at that time, every stored session that is
-- still marked active after its time has run out, and leaves every other stored session as it is.
-- The store's maps must agree, and each session that it lists be the one found under its ID.
check_expired_sessions_outcome :
    (mg : Manager) (now : ℤ) (id : String) (x : Session)
    → IsWellFormed mg.store
    → AllFound mg.store.sessions (list_all mg.store)
    → lookup id mg.store.sessions ≡ some x
    → ((is_overdue now x ≡ true)
        × (lookup id (check_expired_sessions mg now).store.sessions
            ≡ some (finished expired now x)))
      ⊎ ((is_overdue now x ≡ false)
          × (lookup id (check_expired_sessions mg now).store.sessions ≡ some x))
unfolding check_expired_sessions list_all
check_expired_sessions_outcome mg now id x w all here =
    let m = mg.store.sessions in
    elim (Bool-cases (is_overdue now x)) [
      | inl overdue ↦ inl (
        overdue,
        expire_each_marks now m id x here (values m) mg.store overdue (w.keyed id x here) all
            (values_Mem m id x here) here,
      )
      | inr spared ↦
          inr (spared, expire_each_spared now m id x here (values m) mg.store spared all here)
    ]

-- Over a store that any sequence of successful operations has led to, a round of the cleanup marks as
-- expired, with the end at that time, every session that is still marked active after its time has run
-- out, and leaves every other session as it is.
pub check_expired_sessions_reached :
    (mg : Manager) (now : ℤ) (id : String) (x : Session)
    → Reach mg.store
    → lookup id mg.store.sessions ≡ some x
    → ((is_overdue now x ≡ true)
        × (lookup id (check_expired_sessions mg now).store.sessions
            ≡ some (finished expired now x)))
      ⊎ ((is_overdue now x ≡ false)
          × (lookup id (check_expired_sessions mg now).store.sessions ≡ some x))
check_expired_sessions_reached mg now id x r here =
    check_expired_sessions_outcome mg now id x (Reach-IsWellFormed r) (list_all-Finds r) here
