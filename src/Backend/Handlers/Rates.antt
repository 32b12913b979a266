-- ===== src/Backend/Handlers/Rates.antt =====
-- The rate, from the host's request to what the guests are shown.
use air_fi.Base.{◌≡◌, refl, ap, String, false, str_eq, eq_refl, Option, some, arith}
use air_fi.Base.Int.{ℤ, pos, ◌≤ℤ◌, ltb_ℤ}
use air_fi.Base.Word.{IsInt64, add_i64}
use air_fi.Db.{set_rate_per_hour, get_rate_per_hour}
use air_fi.Db.Queries.{get_rate-set_rate}
use air_fi.Backend.{Server, per_minute, update_rate_per_min}
use air_fi.Backend.Handlers.{
  unauthorized, updated, is_host, handle_update_rate, handle_get_settings,
}
use air_fi.Backend.Handlers.Pages.{handle_dashboard_login_post}

at_least_one : (rate : ℤ) → pos 1 ≤ℤ rate → ltb_ℤ rate (pos 1) ≡ false
at_least_one rate h = ground arith

with_rate : Server → ℤ → Server
with_rate srv rate = update_rate_per_min (record srv { db = set_rate_per_hour srv.db rate }) rate

accepted :
    (srv : Server) (rate : ℤ)
    → pos 1 ≤ℤ rate
    → handle_update_rate srv (some srv.dashboard_password) (some rate)
      ≡ (with_rate srv rate, updated rate)
unfolding handle_update_rate is_host with_rate
accepted srv rate h =
    rw (handle_update_rate, is_host, eq_refl srv.dashboard_password, at_least_one rate h) refl

-- A rate that the host sets, at least 1, is the rate that guests are shown and that new sessions
-- are priced at, with the minimum that goes with it; and every minute costs what it says.
pub handle_get_settings-handle_update_rate :
    (srv : Server) (rate : ℤ)
    → pos 1 ≤ℤ rate
    → IsInt64 rate
    → let after = (handle_update_rate srv (some srv.dashboard_password) (some rate)).0 in
      (handle_get_settings after
        ≡ (rate, srv.channel_setup_ckb, add_i64 srv.channel_setup_ckb rate))
      × (get_rate_per_hour after.db ≡ rate)
      × (after.rate_per_min ≡ per_minute rate)
unfolding handle_get_settings with_rate update_rate_per_min
handle_get_settings-handle_update_rate srv rate h fits =
    let read = get_rate-set_rate srv.db rate fits in
    rw (accepted srv rate h)
      (ap (λ r. (r, srv.channel_setup_ckb, add_i64 srv.channel_setup_ckb r)) read, read, refl)

-- The cookie that a login with a wrong password leaves does not let anyone set the rate.
pub handle_update_rate-handle_dashboard_login_post :
    (srv : Server) (password : String) (rate : Option ℤ)
    → str_eq password srv.dashboard_password ≡ false
    → handle_update_rate srv (handle_dashboard_login_post srv password) rate ≡ (srv, unauthorized)
unfolding handle_update_rate is_host handle_dashboard_login_post
handle_update_rate-handle_dashboard_login_post srv password rate wrong =
    rw (handle_update_rate, is_host, handle_dashboard_login_post, wrong) refl
