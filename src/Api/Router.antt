-- ===== src/Api/Router.antt =====
-- internal/api/router.go: the routes, each with what gin hands to its handler, and what answers
-- them. Static files and the CORS headers of every answer are left out.
use air_fi.Base.{String, Bool, Option}
use air_fi.Base.Int.{ℤ}
use air_fi.Perun.Crypto.{Crypto}
use air_fi.Api.{Handler, OpenChannelRequest, PaymentRequest, Response, page, ok_json}
use air_fi.Api.Handlers.{
  health_check, open_channel, process_payment, settle_channel, get_channel, end_session,
  extend_session,
}
use air_fi.Api.Views.{get_session, list_sessions, get_session_token, get_pricing, guest_session}
use air_fi.Api.Middleware.{wifi_route}

-- A new channel's and a new session's UUID come with the request that makes them.
pub data Request : Type 0 where
  get_health get_sessions get_prices get_index get_connect : Request
  post_open : Option OpenChannelRequest → String → String → Bool → Request
  post_pay : String → Option PaymentRequest → Request
  post_settle : String → Bool → Request
  get_channel_info get_session_info get_token get_guest_session : String → Request
  post_extend : String → Option PaymentRequest → Request
  post_end : String → Request
  -- With the Authorization header, "" where there is none.
  get_wifi : String → Request

unfoldable pub serve : Crypto → Handler → Request → ℤ → Handler × Response
serve c h get_health now = (h, health_check h now)
serve c h get_sessions now = (h, list_sessions h now)
serve c h get_prices now = (h, get_pricing h)
serve c h get_index now = (h, ok_json (page "index.html"))
serve c h get_connect now = (h, ok_json (page "connect.html"))
serve c h (post_open req channel_id session_id cancel) now =
    open_channel c h req channel_id session_id now cancel
serve c h (post_pay id req) now = process_payment c h id req now
serve c h (post_settle id cancel) now = settle_channel c h id now cancel
serve c h (get_channel_info id) now = (h, get_channel c h id)
serve c h (get_session_info id) now = (h, get_session h id now)
serve c h (get_token id) now = (h, get_session_token h id now)
serve c h (get_guest_session id) now = (h, guest_session h id)
serve c h (post_extend id req) now = extend_session h id req now
serve c h (post_end id) now = end_session c h id now
serve c h (get_wifi header) now = (h, wifi_route h header now)
