-- ===== src/Session/Manager/Access.antt =====
-- Who gets through: ValidateToken, and EndSession, of internal/session/manager.go.
use air_fi.Base.{
  ◌≡◌, refl, ap, sym, ◌∙◌, inl, inr, ◌≢◌, ◌↔◌, arith, String, true, false, Result, ok, err,
  Bool-cases, Option-cases, Result-cases,
}
use air_fi.Base.Int.{ℤ}
use air_fi.Base.Map.{lookup}
use air_fi.Perun.Crypto.{Crypto}
use air_fi.Auth.{Claims, validate_token}
use air_fi.Session.Defs.{Session, ended, is_active}
use air_fi.Session.Store.{StoreError, get, write, end_session, finished}
use air_fi.Session.Store.Writes.{get-write}
use air_fi.Session.Manager.{Manager, ManagerError, settle_client, end, validate}

-- What lets a token through: it is valid itself, and names a stored session that is active.
pub record Admits (m : Manager) (token : String) (now : ℤ) (s : Session) : Type 0 where
  pub claims : Claims
  pub is_valid : validate_token m.jwt_service now token ≡ ok claims
  pub is_stored : get m.store claims.session_id ≡ ok s
  pub is_live : is_active now s ≡ true

validate-Admits :
    (m : Manager) (token : String) (now : ℤ) (s : Session)
    → validate m token now ≡ ok s
    → Admits m token now s
unfolding validate
validate-Admits m token now s e = elim (Result-cases (validate_token m.jwt_service now token)) [
  | inl (x, bad) ↦ absurd (ground arith)
  | inr (c, good) ↦ elim (Result-cases (get m.store c.session_id)) [
    | inl (x, missing) ↦ absurd (ground arith)
    | inr (y, here) ↦ elim (Bool-cases (is_active now y)) [
      | inr dead ↦ absurd (ground arith)
      | inl live ↦
          let same : y ≡ s = ground arith in
          record {
            claims = c;
            is_valid = good;
            is_stored = here ∙ ap ok same;
            is_live = ap (is_active now) (sym same) ∙ live;
          }
    ]
  ]
]

-- A token is let through exactly when it is valid itself and names a stored session that is
-- active at that time; what is returned is that session.
pub validate_iff_Admits :
    (m : Manager) (token : String) (now : ℤ) (s : Session)
    → (validate m token now ≡ ok s) ↔ Admits m token now s
unfolding validate
validate_iff_Admits m token now s =
    (validate-Admits m token now s, λ a. rw (a.is_valid, a.is_stored, a.is_live) refl)

err_ne : {e : ManagerError} {m : Manager} → ¬ (◌≡◌ {A = Result ManagerError Manager} (err e) (ok m))
err_ne e = cc

ok_eq : {a b : Manager} → ◌≡◌ {A = Result ManagerError Manager} (ok a) (ok b) → a ≡ b
ok_eq e = cc

stored_eq : {a b : Session} → ◌≡◌ {A = Result StoreError Session} (ok a) (ok b) → a ≡ b
stored_eq e = cc

true_ne : ¬ (true ≡ false)
true_ne e = cc

-- Ending a session succeeds where it is stored: it is then stored as ended, at that time.
end_stored :
    (c : Crypto) (m m' : Manager) (id : String) (now : ℤ)
    → end c m id now ≡ ok m'
    → (x : Session) × (get m'.store id ≡ ok (finished ended now x))
unfolding end end_session get
end_stored c m m' id now e = elim (Option-cases (lookup id m.store.sessions)) [
  | inl missing ↦ absurd (err_ne (rw (missing, end) at e))
  | inr (x, here) ↦
      let y : Session = finished ended now x in
      let left : Manager = record m {
        store = write m.store id y;
        perun_client = settle_client c now m.perun_client x.channel_id;
      } in
      let same : left ≡ m' = ok_eq (rw (here, end) at e) in
      (x, ap (λ n. get n.store id) (sym same) ∙ get-write m.store id y)
]

ended_inactive : (now later : ℤ) (x : Session) → is_active later (finished ended now x) ≡ false
unfolding is_active
ended_inactive now later x = refl

-- Once a session has been ended, no token that names it is let through: a token that still passes
-- names another session.
pub end_revokes :
    (c : Crypto) (m m' : Manager) (id token : String) (now later : ℤ) (s : Session)
    → end c m id now ≡ ok m'
    → validate m' token later ≡ ok s
    → (claims : Claims) × (validate_token m'.jwt_service later token ≡ ok claims)
      × (get m'.store claims.session_id ≡ ok s)
      × (claims.session_id ≢ id)
end_revokes c m m' id token now later s e v =
    let a = validate-Admits m' token later s v in
    let (x, stored) = end_stored c m m' id now e in
    let dead = ended_inactive now later x in
    (
      a.claims,
      a.is_valid,
      a.is_stored,
      λ same.
          let one : s ≡ finished ended now x =
            stored_eq (sym a.is_stored ∙ ap (get m'.store) same ∙ stored) in
          true_ne (sym a.is_live ∙ ap (is_active later) one ∙ dead),
    )
