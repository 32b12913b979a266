-- ===== src/Hostcli/Tests.antt =====
-- A dashboard of cmd/hostcli over three polls.
use air_fi.Base.{ℕ, ◌==◌, ◌≤◌, ◌≡◌, refl, ltb, some, List, [], ◌∷◌, length, All, arith, eq_iff}
use air_fi.Base.Int.{pos}
use air_fi.Base.Map.{lookup, insert}
use air_fi.Hostcli.{
  Session, Floats, Dashboard, start_dashboard, learn_all, note_all, note_session, note_known,
  note_balance, add_event, poll,
}
use air_fi.Hostcli.Polls.{AreApart, Knows, poll-Knows}

abbrev session : Session
session = record {
  id = "s1";
  channel_id = "c1";
  guest_address = "ckt1qzda0cr08m85hc8jlnfp3zer7xulejywt49kt2rr0vthywaa50xwsq";
  status = "active";
  remaining_time = "5 min";
  total_paid = "60";
  created_at = "2025";
  kind = "wifi";
}

abbrev floats : Floats ℕ
floats = record { same = λ a b. a == b; grew = λ a b. ltb a b }

abbrev before : Dashboard ℕ
before = start_dashboard (session ∷ []) 100

abbrev now_there : List Session
now_there = record session { total_paid = "90" } ∷ record session { id = "s2" } ∷ []

apart : AreApart now_there
apart = (((λ e. ground (arith, eq_iff "s1" "s2")), tt), (tt, tt))

few : length before.events ≤ 10
unfolding start_dashboard learn_all
few = omega arith

poll-Knows_example :
    (length (poll floats (pos 7) (some now_there) (some 130) before).events ≤ 10)
    × All (Knows (poll floats (pos 7) (some now_there) (some 130) before)) now_there
poll-Knows_example = poll-Knows floats (pos 7) now_there (some 130) before few apart

changes : length (poll floats (pos 7) (some now_there) (some 130) before).events ≡ 3
unfolding poll note_all note_session note_known note_balance add_event start_dashboard learn_all
    lookup insert
changes = refl
