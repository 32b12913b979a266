-- ===== src/Api/Views.antt =====
-- internal/api/handler.go: the answers that change nothing, on sessions and prices.
use air_fi.Base.{◌*◌, String, map, length, if◌then◌else◌, str_eq, ok, err}
use air_fi.Base.Int.{ℤ, pos}
use air_fi.Perun.Config.{minute, hour}
use air_fi.Session.Defs.{remaining_time_formatted}
use air_fi.Session.Store.{get, list_active}
use air_fi.Session.Manager.{default_rate_config, calculate_price}
use air_fi.Api.{
  Handler, failure, session_info, session_list, access_token, pricing, page, Response, ok_json,
  bad_request, not_found,
}
use air_fi.Api.Handlers.{session_view}

unfoldable pub get_session : Handler → String → ℤ → Response
get_session h session_id now = elim (get h.session_manager.store session_id) [
  | err e ↦ not_found "session not found"
  | ok s ↦ ok_json (session_info (session_view now s))
]

unfoldable pub list_sessions : Handler → ℤ → Response
list_sessions h now =
    let views = map (session_view now) (list_active h.session_manager.store now) in
    ok_json (session_list views (length views))

unfoldable pub get_session_token : Handler → String → ℤ → Response
get_session_token h session_id now = elim (get h.session_manager.store session_id) [
  | err e ↦ not_found "session not found"
  | ok s ↦
      if str_eq s.token ""
      then bad_request (failure "session not activated")
      else ok_json (access_token s.token (remaining_time_formatted now now s))
]

-- The rates that are shown are the defaults; the prices are the manager's.
unfoldable pub get_pricing : Handler → Response
get_pricing h =
    let rates = default_rate_config in
    let price = calculate_price h.session_manager.rate_config in
    ok_json (
      pricing rates.ckbytes_per_minute rates.min_session_time rates.max_session_time
        (price (pos (5 * minute))) (price (pos (30 * minute))) (price (pos (1 * hour)))
        (price (pos (24 * hour))))

unfoldable pub guest_session : Handler → String → Response
guest_session h session_id = elim (get h.session_manager.store session_id) [
  | err e ↦ record { status = 404; body = page "index.html" }
  | ok s ↦ ok_json (page "session.html")
]
