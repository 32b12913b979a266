-- ===== src/Api/Middleware/Outcome.antt =====
-- internal/api/middleware.go and handler.go: what GET /wifi/status answers.
use air_fi.Base.{
  ◌≡◌, ◌⊎◌, refl, sym, subst, inl, inr, eq_iff, Bool-cases, Option-cases, Result-cases, String,
  true, none, some, str_eq, err, arith,
}
use air_fi.Base.Int.{ℤ}
use air_fi.Session.Defs.{Session, remaining_time_formatted}
use air_fi.Session.Manager.{ManagerError, validate}
use air_fi.Session.Manager.Access.{Admits, validate_iff_Admits}
use air_fi.Api.{Handler, wifi_status, ok_json}
use air_fi.Api.Middleware.{auth_middleware, bearer_token, split_space, get_wifi_status, wifi_route}
use air_fi.Api.Middleware.Header.{Carries, bearer_token-Carries}

empty_header : (header : String) → str_eq header "" ≡ true → bearer_token header ≡ none
unfolding bearer_token split_space
empty_header header e =
    let same : header ≡ "" = ground (arith, eq_iff header "") in
    subst (λ x. bearer_token x ≡ none) (sym same) refl

-- A request is answered 200, with the ID of its session and the time that is left of it, where its
-- header is the word "bearer", in any case of letters, a space, and a token that the manager admits
-- at that time: one that is valid and names a stored, active session. Any other is answered 401.
pub wifi_route_outcome :
    (h : Handler) (header : String) (now : ℤ)
    → ((token : String) × (s : Session) × Carries header token
        × Admits h.session_manager token now s
        × (wifi_route h header now
            ≡ ok_json (wifi_status s.id (remaining_time_formatted now now s))))
      ⊎ (((wifi_route h header now).status ≡ 401)
          × ((token : String) (s : Session)
              → Carries header token
              → ¬ Admits h.session_manager token now s))
unfolding wifi_route auth_middleware get_wifi_status
wifi_route_outcome h header now = elim (Option-cases (bearer_token header)) [
  | inl other ↦ inr (
    unmarked other,
    λ token s carries admits.
        let found = (bearer_token-Carries header token).1 carries in cc (found, other),
  )
  | inr (token, bearer) ↦ elim (Bool-cases (str_eq header "")) [
    | inl empty ↦ absurd (differ token (cc (empty_header header empty, bearer)))
    | inr given ↦ elim (Result-cases (validate h.session_manager token now)) [
      | inl (x, bad) ↦ inr (rw (wifi_route, given, bearer, bad) refl, denied token x bearer bad)
      | inr (s, good) ↦ inl (
        token,
        s,
        (bearer_token-Carries header token).0 bearer,
        (validate_iff_Admits h.session_manager token now s).0 good,
        rw (wifi_route, given, bearer, good) refl,
      )
    ]
  ]
]
  where
    unmarked : bearer_token header ≡ none → (wifi_route h header now).status ≡ 401
    unmarked other = elim (Bool-cases (str_eq header "")) [
      | inl empty ↦ rw (wifi_route, empty) refl
      | inr given ↦ rw (wifi_route, given, other) refl
    ]

    differ : (token : String) → ¬ (none ≡ some token)
    differ token e = cc e

    denied :
        (token : String) (x : ManagerError)
        → bearer_token header ≡ some token
        → validate h.session_manager token now ≡ err x
        → (t : String) (s : Session) → Carries header t
        → ¬ Admits h.session_manager t now s
    denied token x bearer bad t s carries admits =
        let found = (bearer_token-Carries header t).1 carries in
        let good = (validate_iff_Admits h.session_manager t now s).1 admits in
        cc (found, bearer, good, bad)
