-- ===== src/Hostcli.antt =====
-- cmd/hostcli/main.go: the host's dashboard, which polls the API and tells what has changed. What is
-- fetched is an argument, `none` where the call fails; events are values, not yet text.
pub mod Polls
pub mod Shortening
mod Tests
use air_fi.Base.{
  ℕ, suc, ◌+◌, ◌-◌, ◌/◌, String, Bool, true, false, not, ◌||◌, Option, none, some, List, [], ◌∷◌,
  ◌++◌, map, length, if◌then◌else◌, leb, ltb, str_eq,
}
use air_fi.Base.Bytes.{Bytes, codes}
use air_fi.Base.Int.{ℤ}
use air_fi.Base.Map.{Map, lookup, insert}
use air_fi.Perun.Crypto.{take, drop}

pub record Session : Type 0 where
  pub id : String
  pub channel_id : String
  pub guest_address : String
  pub status : String
  pub remaining_time : String
  pub total_paid : String
  pub created_at : String
  pub kind : String

-- `BalanceCKB` is a `float64`, of which the dashboard only asks whether it has changed and grown.
pub record Floats (F : Type 0) : Type 0 where
  pub same : F → F → Bool
  pub grew : F → F → Bool

pub data Change (F : Type 0) : Type 0 where
  -- With what has been paid, and the guest's address as it is shown.
  came : String → Bytes → Change F
  expired : Bytes → Change F
  settled extended : Bytes → String → Change F
  -- From one balance to another.
  gained : F → F → Change F

pub record Event (F : Type 0) : Type 0 where
  pub at : ℤ
  pub change : Change F

pub record Dashboard (F : Type 0) : Type 0 where
  pub known : Map Session
  pub events : List (Event F)
  pub last_balance : F

unfoldable pub truncate_address : Bytes → ℕ → Bytes
truncate_address addr max_len =
    let half = (max_len - 3) / 2 in
    if leb (length addr) max_len
    then addr
    else if ltb max_len 10
    then take max_len addr
    else take half addr ++ (codes "..." ++ drop (length addr - half) addr)

-- For a length of at least 3.
unfoldable truncate : Bytes → ℕ → Bytes
truncate text max_len =
    if leb (length text) max_len then text else take (max_len - 3) text ++ codes "..."

abbrev shown_address : Session → Bytes
shown_address s = truncate_address (codes s.guest_address) 20

abbrev tail : {F : Type 0} → List (Event F) → List (Event F)
tail [] = []
tail (e ∷ es) = es

abbrev pub drop_oldest : {F : Type 0} → List (Event F) → List (Event F)
drop_oldest es = if ltb 10 (length es) then tail es else es

-- The oldest event goes when there are more than ten.
unfoldable pub add_event : {F : Type 0} → ℤ → Change F → Dashboard F → Dashboard F
add_event now change d = record d {
  events = drop_oldest (d.events ++ (record { at = now; change = change }) ∷ []);
}

abbrev pub learn : {F : Type 0} → Session → Dashboard F → Dashboard F
learn s d = record d { known = insert s.id s d.known }

unfoldable pub note_status : {F : Type 0} → ℤ → Session → Dashboard F → Dashboard F
unfolding add_event
note_status now s d =
    if str_eq s.status "expired"
    then add_event now (expired (shown_address s)) d
    else if str_eq s.status "settled" || str_eq s.status "ended"
    then add_event now (settled (shown_address s) s.total_paid) d
    else d

-- The first thing that has changed about a session that is known.
unfoldable pub note_known : {F : Type 0} → ℤ → Session → Session → Dashboard F → Dashboard F
unfolding note_status
note_known now existing s d =
    if not (str_eq existing.status s.status)
    then learn s (note_status now s d)
    else if not (str_eq existing.total_paid s.total_paid)
    then learn s (add_event now (extended (shown_address s) s.total_paid) d)
    else if not (str_eq existing.remaining_time s.remaining_time)
    then learn s d
    else d

unfoldable pub note_session : {F : Type 0} → ℤ → Session → Dashboard F → Dashboard F
unfolding note_known
note_session now s d = elim (lookup s.id d.known) [
  | none ↦ learn s (add_event now (came s.total_paid (shown_address s)) d)
  | some existing ↦ note_known now existing s d
]

unfoldable pub note_all : {F : Type 0} → ℤ → List Session → Dashboard F → Dashboard F
unfolding note_session
note_all now [] d = d
note_all now (s ∷ ss) d = note_all now ss (note_session now s d)

unfoldable pub note_balance : {F : Type 0} → Floats F → ℤ → Option F → Dashboard F → Dashboard F
unfolding add_event
note_balance floats now none d = d
note_balance floats now (some balance) d =
    if floats.same balance d.last_balance
    then d
    else let told =
        if floats.grew d.last_balance balance
        then add_event now (gained d.last_balance balance) d
        else d in
      record told { last_balance = balance }

-- One turn of the ticker.
unfoldable pub poll :
    {F : Type 0} → Floats F → ℤ → Option (List Session) → Option F → Dashboard F → Dashboard F
unfolding note_all note_balance
poll floats now none wallet d = d
poll floats now (some sessions) wallet d = note_balance floats now wallet (note_all now sessions d)

-- The dashboard as it starts: every session that is there is known, without an event.
unfoldable learn_all : {F : Type 0} → List Session → Dashboard F → Dashboard F
learn_all [] d = d
learn_all (s ∷ ss) d = learn_all ss (learn s d)

unfoldable start_dashboard : {F : Type 0} → List Session → F → Dashboard F
unfolding learn_all
start_dashboard ss balance =
    learn_all ss (record { known = []; events = []; last_balance = balance })

-- The table of sessions: at most eight rows, and how many more there are.
pub record Row : Type 0 where
  pub status : String
  pub kind : String
  pub total_paid : String
  pub time_left : String
  pub guest : Bytes

pub record Panel : Type 0 where
  pub total : ℕ
  pub active : ℕ
  pub rows : List Row
  pub more : ℕ

abbrev count_active : List Session → ℕ
count_active [] = 0
count_active (s ∷ ss) = let n = count_active ss in if str_eq s.status "active" then n + 1 else n

abbrev row : Session → Row
row s = record {
  status = s.status;
  kind = s.kind;
  total_paid = s.total_paid;
  time_left = if str_eq s.remaining_time "" then "-" else s.remaining_time;
  guest = truncate_address (codes s.guest_address) 18;
}

abbrev pub first_sessions : ℕ → List Session → List Session
first_sessions ℕ.zero ss = []
first_sessions (suc n) [] = []
first_sessions (suc n) (s ∷ ss) = s ∷ first_sessions n ss

unfoldable pub draw_sessions : List Session → Panel
draw_sessions ss = record {
  total = length ss;
  active = count_active ss;
  rows = map row (first_sessions 8 ss);
  more = length ss - 8;
}
