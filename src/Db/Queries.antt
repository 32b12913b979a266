-- ===== src/Db/Queries.antt =====
-- Listing the sessions, and the rate that is kept in the settings (internal/db/db.go).
use air_fi.Base.{
  eq_refl, [], ◌∷◌, ◌++◌, ◌≡◌, refl, ap, inl, inr, String, some, List, if◌then◌else◌, str_eq,
  Bool-cases, Result-cases, or_fail, ok, err, Result, Option, none,
}
use mathlib.Core.List.{Perm}
use air_fi.Base.Int.{ℤ}
use air_fi.Base.Bytes.{Bytes, decimal_ℤ}
use air_fi.Base.Word.{IsInt64}
use air_fi.Base.Scan.{scan_i64, scan_i64-decimal_ℤ}
use air_fi.Base.Map.{lookup-insert_self}
use air_fi.Db.Rows.{
  find_row, find_row-append, find_row-update_rows, insert_row, filter_rows, IsOrdered,
  order_by-IsOrdered, order_by-perm,
}
use air_fi.Db.{
  Db, Session, has_id, create_session, get_session, on_session, newest_first, list_sessions,
  get_setting, set_setting, get_rate_per_hour, set_rate_per_hour, no_rows, DbError,
  default_rate_per_hour,
}

-- The rows that a listing asks for.
abbrev pub wanted : Db → String → List Session
wanted db status =
    if str_eq status "" then db.sessions else filter_rows (λ r. str_eq r.status status) db.sessions

-- A listing is the wanted rows, each as often as it is there, with the newest first.
pub list_sessions-IsOrdered :
    (db : Db) (status : String)
    → IsOrdered newest_first (list_sessions db status)
      × Perm (list_sessions db status) (wanted db status)
unfolding list_sessions
list_sessions-IsOrdered db status = elim (Bool-cases (str_eq status "")) [
  | inl e ↦ rw (e, list_sessions) (order_by-IsOrdered newest_first _, order_by-perm newest_first _)
  | inr e ↦ rw (e, list_sessions) (order_by-IsOrdered newest_first _, order_by-perm newest_first _)
]

read_rate : Result DbError Bytes → ℤ
read_rate (err _) = default_rate_per_hour
read_rate (ok value) = elim (scan_i64 value) [ none ↦ default_rate_per_hour | some rate ↦ rate ]

get_rate-read : (db : Db) → get_rate_per_hour db ≡ read_rate (get_setting db "rate_per_hour")
unfolding get_rate_per_hour read_rate
get_rate-read db = elim (Result-cases (get_setting db "rate_per_hour")) [
  | inl (e, missing) ↦ rw (missing, get_rate_per_hour)
  | inr (v, found) ↦ rw (found, get_rate_per_hour)
]

-- The rate that was set last is the rate that is read, for every `int64`.
pub get_rate-set_rate :
    (db : Db) (rate : ℤ) → IsInt64 rate → get_rate_per_hour (set_rate_per_hour db rate) ≡ rate
unfolding set_rate_per_hour set_setting get_setting read_rate
get_rate-set_rate db rate h =
    rw
      (
        get_rate-read (set_rate_per_hour db rate),
        lookup-insert_self "rate_per_hour" (decimal_ℤ rate) db.settings,
        scan_i64-decimal_ℤ rate h,
        read_rate,
      )
      refl

abbrev pub with_session : Db → Session → Db
with_session db s = record db { sessions = db.sessions ++ s ∷ [] }

pub create_session-fresh :
    (db : Db) (s : Session)
    → find_row (has_id s.id) db.sessions ≡ none
    → create_session db s ≡ ok (with_session db s)
unfolding create_session insert_row
create_session-fresh db s fresh = rw (create_session, insert_row, fresh) refl

pub get_session-with_session :
    (db : Db) (s : Session)
    → find_row (has_id s.id) db.sessions ≡ none
    → get_session (with_session db s) s.id ≡ ok s
unfolding get_session
get_session-with_session db s fresh =
    rw (get_session, find_row-append (has_id s.id) s db.sessions fresh (eq_refl s.id)) refl

pub found_row :
    {R : Type 0} (found : Option R) (r : R)
    → or_fail {E = DbError} found no_rows ≡ ok r
    → found ≡ some r
found_row none r e = cc e
found_row (some x) r e = cc e

-- A write to the session's row is seen by the next read of it.
pub get_session-on_session :
    (db : Db) (id : String) (f : Session → Session) (r : Session)
    → ((x : Session) → (f x).id ≡ x.id)
    → get_session db id ≡ ok r
    → get_session (on_session db id f) id ≡ ok (f r)
unfolding get_session on_session
get_session-on_session db id f r same e =
    rw
      (
        get_session,
        on_session,
        find_row-update_rows (has_id id) f db.sessions r (λ x. ap (λ i. str_eq i id) (same x))
            (found_row (find_row (has_id id) db.sessions) r e),
      )
      refl
