-- ===== src/Session/Tests.antt =====
-- Concrete stores and managers of internal/session, on which the theorems are run.
use air_fi.Base.{
  ℕ, ◌+◌, ◌*◌, ◌/◌, ◌≤◌, ◌<◌, ◌≡◌, refl, ◌≢◌, ◌⊎◌, ◌↔◌, String, true, false, some, none, [], ◌∷◌,
  ok, map, ◌++◌, err, arith, eq_iff,
}
use air_fi.Base.Int.{ℤ, pos, ◌+ℤ◌}
use air_fi.Base.Map.{lookup, insert, erase}
use air_fi.Perun.Config.{minute, hour}
use air_fi.Auth.{JwtService, Jwt, Claims, generate_token, validate_token}
use air_fi.Session.Defs.{Session, active, ended, is_active}
use air_fi.Session.Store.{
  Store, new_store, new_session, create, is_busy, get, delete, write, finished, finish, end_session,
}
use air_fi.Session.Store.Invariant.{
  IsWellFormed, Reach, start, next, creates, activates, Reach-IsWellFormed,
}
use air_fi.Session.Manager.{
  Manager, ManagerError, RateConfig, calculate_duration, calculate_price, activate_session, end,
  validate,
}
use air_fi.Session.Manager.Pricing.{calculate_duration_exact, calculate_price-calculate_duration}
use air_fi.Session.Manager.Lifecycle.{Sells, Activated, activate_session_outcome}
use air_fi.Session.Manager.Expiry.{is_overdue, check_expired_sessions_reached}
use air_fi.Session.Manager.{
  check_expired_sessions, expire_each, expire_overdue, cleanup_loop, ticked,
}
use air_fi.Session.Store.{activate, activated}
use air_fi.Session.Store.{mark_expired, list_all}
use air_fi.Session.Defs.{expired}
use air_fi.Session.Manager.Cleanup.{cleanup_loop_clears}
use air_fi.Session.Manager.Access.{Admits, validate_iff_Admits, end_revokes}
use air_fi.Perun.Crypto.{Crypto}

-- Every token is the ID of the session that it names.
abbrev claims : String → Claims
claims id = record {
  session_id = id;
  channel_id = "";
  mac_address = "";
  ip_address = "";
  issuer = "airfi";
  subject = id;
  issued_at = pos 0;
  expires_at = pos 1_000;
  not_before = pos 0;
}

abbrev jwt : Jwt
jwt = record {
  numeric_date = λ t. t;
  signed_string = λ c. some c.session_id;
  decode = λ s. some (true, claims s);
  verified = λ s. true;
}

abbrev service : JwtService
service = record { jwt = jwt; issuer = "airfi" }

-- Session "s" of channel "c" is active until ten minutes after the start of the clock; "old" is an
-- earlier session of the same channel.
abbrev current : Session
current = record {
  id = "s";
  channel_id = "c";
  guest_addr = "g";
  status = active;
  start_time = pos 0;
  end_time = none;
  duration = pos (10 * minute);
  total_paid = pos 10;
  token = "t";
  created_at = pos 0;
  updated_at = pos 0;
}

abbrev older : Session
older = record current { id = "old"; status = ended }

abbrev store : Store
store = record { sessions = ("s", current) ∷ ("old", older) ∷ []; by_channel = ("c", "s") ∷ [] }

abbrev deleted : Store
deleted = record { sessions = ("s", current) ∷ []; by_channel = [] }

abbrev rates : RateConfig
rates = record {
  ckbytes_per_minute = pos 2;
  min_session_time = pos (5 * minute);
  max_session_time = pos (24 * hour);
}

abbrev manager : Manager
manager = record { store = store; perun_client = none; jwt_service = service; rate_config = rates }

stored_older : lookup "old" store.sessions ≡ some older
unfolding lookup
stored_older = refl

indexed_current : lookup "c" store.by_channel ≡ some "s"
unfolding lookup
indexed_current = refl

deleted_older : delete store "old" ≡ ok deleted
unfolding delete lookup erase
deleted_older = refl

abbrev old_id : String
old_id = "old"

names_differ : old_id ≢ "s"
names_differ e = ground (arith, eq_iff old_id "s")

calculate_duration_exact_example : calculate_duration rates (some (pos 25)) ≡ pos (25 / 2 * minute)
calculate_duration_exact_example =
    calculate_duration_exact rates 2 25 refl (omega arith) (omega arith) (omega arith)

calculate_price-calculate_duration_example :
    (spent : ℕ) × (calculate_price rates (calculate_duration rates (some (pos 25))) ≡ pos spent)
    × (spent ≤ 25)
    × (25 < spent + 2)
calculate_price-calculate_duration_example =
    calculate_price-calculate_duration rates 2 25 refl (omega arith) (omega arith) (omega arith)

activate_session_outcome_example :
    ((e : ManagerError) × (activate_session manager "s" (pos 25) (pos 7) ≡ err e)
      × ((s : Session) (d : ℤ) (token : String)
          → get store "s" ≡ ok s
          → Sells rates (pos 25) d
          → ¬ (generate_token service (pos 7) "s" s.channel_id "" "" d ≡ ok token)))
    ⊎ ((m' : Manager) × (s : Session) × (token : String) × (activate_session manager "s"
            (pos 25)
            (pos 7)
          ≡ ok (m', s, token))
        × Activated manager "s" (pos 25) (pos 7) m' s token)
activate_session_outcome_example =
    activate_session_outcome manager "s" (pos 25) (pos 7) (omega arith)

abbrev one : Session
one = new_session "s" "c" "g" (pos 0)

abbrev one_store : Store
one_store = record { sessions = ("s", one) ∷ []; by_channel = ("c", "s") ∷ [] }

none_yet : lookup "s" new_store.sessions ≡ none
unfolding lookup new_store
none_yet = refl

created_one : create new_store "s" "c" "g" (pos 0) ≡ ok (one_store, one)
unfolding create is_busy lookup insert new_store
created_one = refl

Reach-IsWellFormed_example : IsWellFormed one_store
Reach-IsWellFormed_example =
    Reach-IsWellFormed (next start (creates "s" "c" "g" (pos 0) one none_yet created_one))

validate_iff_Admits_example :
    (validate manager "s" (pos 7) ≡ ok current) ↔ Admits manager "s" (pos 7) current
validate_iff_Admits_example = validate_iff_Admits manager "s" (pos 7) current

-- Ends the older session; the other one's token still passes.
abbrev left : Manager
left = record manager { store = write store "old" (finished ended (pos 7) older) }

abbrev plain : Crypto
plain = record { sha256 = λ b. b; private_key = none; ecdsa_verify = λ d r s. true }

ended_older : end plain manager "old" (pos 7) ≡ ok left
unfolding end get lookup end_session finish write insert
ended_older = refl

passes : validate left "s" (pos 8) ≡ ok current
unfolding validate validate_token get lookup is_active ◌+ℤ◌ write insert
passes = refl

end_revokes_example :
    (c : Claims) × (validate_token service (pos 8) "s" ≡ ok c)
    × (get left.store c.session_id ≡ ok current)
    × (c.session_id ≢ "old")
end_revokes_example =
    end_revokes plain manager left "old" "s" (pos 7) (pos 8) current ended_older passes

-- Activated at 1 for 60, and so overdue at 100.
abbrev active_one : Session
active_one = activated (pos 60) "t" (pos 5) (pos 1) one

abbrev active_store : Store
active_store = record { sessions = ("s", active_one) ∷ []; by_channel = ("c", "s") ∷ [] }

activated_one : activate one_store "s" (pos 60) "t" (pos 5) (pos 1) ≡ ok active_store
unfolding activate write lookup insert
activated_one = refl

active_reached : Reach active_store
active_reached =
    next (next start (creates "s" "c" "g" (pos 0) one none_yet created_one))
      (activates "s" (pos 60) "t" (pos 5) (pos 1) activated_one)

abbrev active_manager : Manager
active_manager = record manager { store = active_store }

active_here : lookup "s" active_store.sessions ≡ some active_one
unfolding lookup
active_here = refl

check_expired_sessions_reached_example :
    ((is_overdue (pos 100) active_one ≡ true)
      × (lookup "s" (check_expired_sessions active_manager (pos 100)).store.sessions
          ≡ some (finished expired (pos 100) active_one)))
    ⊎ ((is_overdue (pos 100) active_one ≡ false)
        × (lookup "s" (check_expired_sessions active_manager (pos 100)).store.sessions
            ≡ some active_one))
check_expired_sessions_reached_example =
    check_expired_sessions_reached active_manager (pos 100) "s" active_one active_reached
      active_here

abbrev expired_one : Session
expired_one = finished expired (pos 100) active_one

cleared :
    lookup "s"
      (cleanup_loop active_manager
        (map ticked (pos 30 ∷ []) ++ ticked (pos 100) ∷ [])).store.sessions
    ≡ some expired_one
unfolding cleanup_loop check_expired_sessions expire_each expire_overdue mark_expired finish write
    list_all lookup insert new_session is_active ◌+ℤ◌
cleared = refl

cleanup_loop_clears_example : is_overdue (pos 100) expired_one ≡ false
cleanup_loop_clears_example =
    cleanup_loop_clears (pos 30 ∷ []) active_manager (pos 100) "s" expired_one active_reached
      cleared
