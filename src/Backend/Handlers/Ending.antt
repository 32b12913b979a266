-- ===== src/Backend/Handlers/Ending.antt =====
-- What is left of a session when its guest ends it.
use air_fi.Base.{◌≡◌, refl, ◌⊎◌, inl, inr, String, false, str_eq, none, some, ◌∷◌, Bool-cases, ok}
use air_fi.Base.Int.{ℤ, ltb_ℤ}
use air_fi.Base.Map.{lookup, lookup-erase_self}
use air_fi.Auth.{JwtService}
use air_fi.Db.{Session, get_session, update_session_status}
use air_fi.Db.Queries.{get_session-on_session}
use air_fi.Backend.{GuestSession, Server, settle_in_background}
use air_fi.Backend.Settlement.{revoke_session}
use air_fi.Backend.Settlement.Refunds.{deauthorized}
use air_fi.Backend.Handlers.{
  handle_end_session, handle_get_session_token, session_expired, not_ready,
}

-- What the next requests and the background see of an ended session.
abbrev pub Ended : Server → Server → String → GuestSession → Session → Type 0
Ended srv after id s row =
    (lookup id after.sessions ≡ none)
    × (get_session after.db id ≡ ok (record row { status = "settling" }))
    × (after.router_calls ≡ deauthorized row.mac_address srv.router_calls)
    × (after.tasks ≡ settle_in_background s ∷ srv.tasks)

handle_end_session-Ended :
    (srv : Server) (id : String) (s : GuestSession) (row : Session)
    → lookup id srv.sessions ≡ some s
    → get_session srv.db id ≡ ok row
    → Ended srv (handle_end_session srv id).0 id s row
unfolding handle_end_session revoke_session update_session_status
handle_end_session-Ended srv id s row held here =
    let written =
      get_session-on_session srv.db id (λ r. record r { status = "settling" }) row (λ x. refl)
        here in
    let gone = lookup-erase_self id srv.sessions in
    elim (Bool-cases (str_eq row.mac_address "")) [
      | inl blank ↦
          rw (handle_end_session, held, revoke_session, written, blank) (gone, written, refl, refl)
      | inr named ↦
          rw (handle_end_session, held, revoke_session, written, named) (gone, written, refl, refl)
    ]

no_token :
    (jwt : JwtService) (now later : ℤ) (srv : Server) (id : String) (row : Session)
    → get_session srv.db id ≡ ok row
    → row.status ≡ "settling"
    → (handle_get_session_token jwt now later srv id ≡ session_expired)
      ⊎ (handle_get_session_token jwt now later srv id ≡ not_ready "settling")
unfolding handle_get_session_token
no_token jwt now later srv id row here status = elim (Bool-cases (ltb_ℤ row.expires_at now)) [
  | inl late ↦ inl (rw (handle_get_session_token, here, late) refl)
  | inr due ↦ inr (rw (handle_get_session_token, here, due, status) refl)
]

again :
    (srv : Server) (id : String)
    → lookup id srv.sessions ≡ none
    → handle_end_session srv id ≡ (srv, false)
unfolding handle_end_session
again srv id gone = rw (handle_end_session, gone) refl

-- Ending a session that is in memory and in the database takes it out of memory, so that it is not
-- charged again, marks its row as settling, takes its device off the router and starts the
-- settlement; from then on it is refused a token at any time, and cannot be ended again.
pub handle_end_session_revokes :
    (srv : Server) (id : String) (s : GuestSession) (row : Session) (jwt : JwtService)
    (now later : ℤ)
    → lookup id srv.sessions ≡ some s
    → get_session srv.db id ≡ ok row
    → let after = (handle_end_session srv id).0 in
      Ended srv after id s row
      × ((handle_get_session_token jwt now later after id ≡ session_expired)
          ⊎ (handle_get_session_token jwt now later after id ≡ not_ready "settling"))
      × (handle_end_session after id ≡ (after, false))
handle_end_session_revokes srv id s row jwt now later held here =
    let after = (handle_end_session srv id).0 in
    let ended : Ended srv after id s row = handle_end_session-Ended srv id s row held here in
    (
      ended,
      no_token jwt now later after id (record row { status = "settling" }) ended.1 refl,
      again after id ended.0,
    )
