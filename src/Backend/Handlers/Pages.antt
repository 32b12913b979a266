-- ===== src/Backend/Handlers/Pages.antt =====
-- What the pages and listings of cmd/backend/handlers.go, handlers_api.go and utils.go show, and the
-- host's login.
use air_fi.Base.{
  ℕ, ◌/◌, ◌%◌, String, Bool, true, false, ◌&&◌, str_eq, ltb, Option, none, some, List, [], ◌∷◌,
  ◌++◌, map, if◌then◌else◌, ok, err,
}
use air_fi.Base.Int.{ℤ, pos, pos_part, ◌-ℤ◌, ltb_ℤ, quot_ℕ, non_positive}
use air_fi.Base.Word.{wrap64, sub_i64}
use air_fi.Base.Bytes.{Bytes, codes, decimal}
use air_fi.Base.Map.{Map, lookup}
use air_fi.Db.{Session, get_session, list_sessions}
use air_fi.Perun.Config.{second, minute, hour}
use air_fi.Backend.{GuestSession, Server, shannons_per_ckb}
use air_fi.Backend.Handlers.{is_host}

-- `%02d`, of a number below 100.
abbrev pub two_digits : ℕ → Bytes
two_digits n = if ltb n 10 then codes "0" ++ decimal n else decimal n

unfoldable pub format_duration : ℤ → Bytes
format_duration d =
    let n = pos_part d in
    if ltb_ℤ d (pos 0)
    then codes "0:00"
    else if ltb 0 (n / hour)
    then decimal (n / hour)
      ++ (codes ":"
          ++ (two_digits (n / minute % 60) ++ (codes ":" ++ two_digits (n / second % 60))))
    else decimal (n / minute % 60) ++ (codes ":" ++ two_digits (n / second % 60))

-- What is left until `expires_at`, and not less than nothing.
unfoldable pub remaining : ℤ → ℤ → ℤ
remaining now expires_at =
    let left = expires_at -ℤ now in if ltb_ℤ left (pos 0) then pos 0 else left

unfoldable pub shown_status : String → ℤ → String
shown_status status left = if non_positive left && str_eq status "active" then "expired" else status

pub record SessionInfo : Type 0 where
  pub session_id : String
  pub guest_address : String
  pub balance_ckb : ℤ
  pub funding_ckb : ℤ
  pub spent_ckb : ℤ
  pub remaining_time : Bytes
  pub status : String
  pub channel_id : String
  pub created_at : ℤ

unfoldable pub info_of_row : ℤ → Session → SessionInfo
unfolding remaining shown_status format_duration
info_of_row now r =
    let opening = str_eq r.status "channel_opening" in
    let left = remaining now r.expires_at in
    record {
      session_id = r.id;
      guest_address = r.guest_address;
      balance_ckb = r.balance_ckb;
      funding_ckb = r.funding_ckb;
      spent_ckb = r.spent_ckb;
      remaining_time = if opening then codes "-" else format_duration left;
      status = if opening then r.status else shown_status r.status left;
      channel_id = r.channel_id;
      created_at = r.created_at;
    }

-- `short`: the first 16 digits of a channel's ID.
unfoldable pub info_of_session : (String → String) → ℤ → GuestSession → SessionInfo
unfolding remaining shown_status format_duration
info_of_session short now s =
    let left = remaining now s.expires_at in
    let funding = quot_ℕ (wrap64 s.funding_amount) shannons_per_ckb in
    let spent = quot_ℕ (wrap64 s.total_paid) shannons_per_ckb in
    record {
      session_id = s.id;
      guest_address = s.guest_address;
      balance_ckb = sub_i64 funding spent;
      funding_ckb = funding;
      spent_ckb = spent;
      remaining_time = format_duration left;
      status = shown_status "active" left;
      channel_id = short s.channel.id;
      created_at = s.created_at;
    }

abbrev pub has_info : String → List SessionInfo → Bool
has_info id [] = false
has_info id (x ∷ xs) = if str_eq x.session_id id then true else has_info id xs

-- The sessions in memory that the database does not list.
unfoldable pub unlisted :
    (String → String) → ℤ → List SessionInfo → Map GuestSession → List SessionInfo
unfolding info_of_session
unlisted short now listed [] = []
unlisted short now listed ((key, s) ∷ rest) =
    if has_info s.id listed
    then unlisted short now listed rest
    else info_of_session short now s ∷ unlisted short now listed rest

unfoldable pub handle_list_sessions : (String → String) → ℤ → Server → List SessionInfo
unfolding info_of_row unlisted
handle_list_sessions short now srv =
    let listed = map (info_of_row now) (list_sessions srv.db "") in
    listed ++ unlisted short now listed srv.sessions

-- The database first, then the memory.
unfoldable pub handle_get_session : (String → String) → ℤ → Server → String → Option SessionInfo
unfolding info_of_row info_of_session
handle_get_session short now srv id = elim (get_session srv.db id) [
  | ok row ↦ some (info_of_row now row)
  | err e ↦ elim (lookup id srv.sessions) [
    | none ↦ none
    | some s ↦ some (info_of_session short now s)
  ]
]

-- The cookie that a login sets, where the password is right.
unfoldable pub handle_dashboard_login_post : Server → String → Option String
handle_dashboard_login_post srv password =
    if str_eq password srv.dashboard_password then some password else none

-- Whether the dashboard is shown, or the login.
unfoldable pub handle_dashboard : Server → Option String → Bool
unfolding is_host
handle_dashboard srv cookie = is_host srv cookie

-- What a logout leaves of the cookie.
unfoldable pub handle_dashboard_logout : Option String → Option String
handle_dashboard_logout cookie = none
