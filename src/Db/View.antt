-- ===== src/Db/View.antt =====
-- What the sessions table of internal/db/db.go promises: a map from IDs to sessions, on which every
-- statement acts at one ID, and the cleanup at each.
use air_fi.Base.{
  ◌≡◌, refl, ap, ◌∙◌, sym, inl, inr, String, Option, none, some, List, [], ◌∷◌, ◌++◌, str_eq,
  eq_iff, if◌then◌else◌, Result, ok, err, arith, Bool-cases, Option-cases,
}
use air_fi.Base.Int.{ℤ, ◌+ℤ◌, ◌-ℤ◌}
use air_fi.Db.Rows.{find_row, update_rows, insert_row}
use air_fi.Db.{
  Db, DbError, unique_violated, Session, has_id, is_used_up, on_session, create_session,
  update_session_status, update_session_mac, update_session_channel,
  update_session_channel_and_activate, update_session_balance, settle_session, extend_session,
  cleanup_expired,
}

abbrev pub View : Type 0
View = String → Option Session

abbrev pub view : Db → View
view db id = find_row (has_id id) db.sessions

-- A statement of the sessions table, with its arguments.
pub data Statement : Type 0 where
  creates : Session → Statement
  sets_status : String → String → Statement
  sets_mac sets_channel : String → String → String → Statement
  activates : String → String → ℤ → ℤ → Statement
  sets_balance : String → ℤ → ℤ → Statement
  settles : String → ℤ → Statement
  extends : String → ℤ → ℤ → Statement
  cleans_up : Statement

abbrev map_some : (Session → Session) → Option Session → Option Session
map_some f none = none
map_some f (some r) = some (f r)

-- The statements on the map: at one ID, at a new ID only, and at every ID.
unfoldable pub change_at : String → (Session → Session) → View → View
change_at id f v j = if str_eq id j then map_some f (v j) else v j

abbrev add_new : Option Session → Session → View → View
add_new none s v j = if str_eq s.id j then some s else v j
add_new (some _) s v j = v j

unfoldable pub expire_used_up : View → View
expire_used_up v j =
    map_some (λ r. if is_used_up r then record r { status = "expired" } else r) (v j)

keep_db : Db → Result DbError Db → Db
keep_db db (ok db') = db'
keep_db db (err _) = db

module _ (datetime : ℤ → ℤ → ℤ) where
  unfoldable pub apply : Statement → View → View
  apply (creates s) v = add_new (v s.id) s v
  apply (sets_status id status) v = change_at id (λ r. record r { status = status }) v
  apply (sets_mac id mac ip) v =
      change_at id (λ r. record r { mac_address = mac; ip_address = ip }) v
  apply (sets_channel id channel_id status) v =
      change_at id (λ r. record r { channel_id = channel_id; status = status }) v
  apply (activates id channel_id duration now) v =
      change_at id
        (λ r. record r { channel_id = channel_id; status = "active"; expires_at = now +ℤ duration })
        v
  apply (sets_balance id balance spent) v =
      change_at id (λ r. record r { balance_ckb = balance; spent_ckb = spent }) v
  apply (settles id now) v =
      change_at id (λ r. record r { status = "settled"; settled_at = some now }) v
  apply (extends id minutes spent) v =
      change_at id
        (λ r. record r {
          expires_at = datetime r.expires_at minutes;
          spent_ckb = r.spent_ckb +ℤ spent;
          balance_ckb = r.balance_ckb -ℤ spent;
        })
        v
  apply cleans_up v = expire_used_up v

  -- A statement that is refused changes nothing.
  unfoldable pub exec : Statement → Db → Db
  unfolding keep_db
  exec (creates s) db = keep_db db (create_session db s)
  exec (sets_status id status) db = update_session_status db id status
  exec (sets_mac id mac ip) db = update_session_mac db id mac ip
  exec (sets_channel id channel_id status) db = update_session_channel db id channel_id status
  exec (activates id channel_id duration now) db =
      update_session_channel_and_activate db id channel_id duration now
  exec (sets_balance id balance spent) db = update_session_balance db id balance spent
  exec (settles id now) db = settle_session db id now
  exec (extends id minutes spent) db = extend_session datetime db id minutes spent
  exec cleans_up db = (cleanup_expired db).0

  unfoldable pub exec_all : List Statement → Db → Db
  exec_all [] db = db
  exec_all (x ∷ xs) db = exec_all xs (exec x db)

  unfoldable pub apply_all : List Statement → View → View
  apply_all [] v = v
  apply_all (x ∷ xs) v = apply_all xs (apply x v)

find-update :
    (id j : String) (f : Session → Session) (rows : List Session)
    → ((r : Session) → (f r).id ≡ r.id)
    → find_row (has_id j) (update_rows (has_id id) f rows)
      ≡ (if str_eq id j then map_some f (find_row (has_id j) rows) else find_row (has_id j) rows)
unfolding find_row update_rows
find-update id j f [] keeps = ground arith
find-update id j f (r ∷ rs) keeps =
    ground (arith, keeps r, eq_iff r.id id, eq_iff r.id j, eq_iff id j, find-update id j f rs keeps)

view-on_session :
    (db : Db) (id : String) (f : Session → Session)
    → ((r : Session) → (f r).id ≡ r.id)
    → view (on_session db id f) ≡ change_at id f (view db)
unfolding on_session change_at
view-on_session db id f keeps = λ i j. find-update id j f db.sessions keeps i

used_up_at :
    (j : String) (rows : List Session)
    → find_row (has_id j) (update_rows is_used_up (λ r. record r { status = "expired" }) rows)
      ≡ map_some
          (λ r. if is_used_up r then record r { status = "expired" } else r)
          (find_row (has_id j) rows)
unfolding find_row update_rows
used_up_at j [] = refl
used_up_at j (r ∷ rs) = elim (Bool-cases (str_eq r.id j)) [
  | inl hit ↦ elim (Bool-cases (is_used_up r)) [
    | inl e ↦ rw (hit, e) (rw hit refl)
    | inr e ↦ rw (hit, e) (rw hit refl)
  ]
  | inr miss ↦ elim (Bool-cases (is_used_up r)) [
    | inl e ↦ rw (miss, e) (rw miss (used_up_at j rs))
    | inr e ↦ rw (miss, e) (rw miss (used_up_at j rs))
  ]
]

find-append :
    (j : String) (rows : List Session) (s : Session)
    → find_row (has_id s.id) rows ≡ none
    → find_row (has_id j) (rows ++ s ∷ [])
      ≡ (if str_eq s.id j then some s else find_row (has_id j) rows)
unfolding find_row
find-append j [] s fresh = refl
find-append j (r ∷ rs) s fresh =
    ground (arith, eq_iff r.id s.id, eq_iff r.id j, eq_iff s.id j, find-append j rs s)

created :
    (db : Db) (s : Session)
    → find_row (has_id s.id) db.sessions ≡ none
    → create_session db s ≡ ok (record db { sessions = db.sessions ++ s ∷ [] })
unfolding create_session insert_row
created db s fresh = rw (fresh, create_session)

refused :
    (db : Db) (s r : Session)
    → find_row (has_id s.id) db.sessions ≡ some r
    → create_session db s ≡ err unique_violated
unfolding create_session insert_row
refused db s r there = rw (there, create_session)

view-create :
    (datetime : ℤ → ℤ → ℤ) (db : Db) (s : Session)
    → view (exec datetime (creates s) db) ≡ add_new (view db s.id) s (view db)
unfolding exec keep_db
view-create datetime db s = elim (Option-cases (find_row (has_id s.id) db.sessions)) [
  | inl fresh ↦
      ap (λ r. view (keep_db db r)) (created db s fresh)
      ∙ (λ i j. find-append j db.sessions s fresh i)
      ∙ ap (λ o. add_new o s (view db)) (sym fresh)
  | inr (r, there) ↦
      ap (λ e. view (keep_db db e)) (refused db s r there)
      ∙ ap (λ o. add_new o s (view db)) (sym there)
]

module _ (datetime : ℤ → ℤ → ℤ) where
  -- Each statement does to the map what it says.
  exec-apply : (x : Statement) (db : Db) → view (exec datetime x db) ≡ apply datetime x (view db)
  unfolding exec apply update_session_status update_session_mac update_session_channel
      update_session_channel_and_activate update_session_balance settle_session extend_session
      cleanup_expired expire_used_up
  exec-apply (creates s) db = view-create datetime db s
  exec-apply (sets_status id status) db = view-on_session db id _ (λ r. refl)
  exec-apply (sets_mac id mac ip) db = view-on_session db id _ (λ r. refl)
  exec-apply (sets_channel id channel_id status) db = view-on_session db id _ (λ r. refl)
  exec-apply (activates id channel_id duration now) db = view-on_session db id _ (λ r. refl)
  exec-apply (sets_balance id balance spent) db = view-on_session db id _ (λ r. refl)
  exec-apply (settles id now) db = view-on_session db id _ (λ r. refl)
  exec-apply (extends id minutes spent) db = view-on_session db id _ (λ r. refl)
  exec-apply cleans_up db = λ i j. used_up_at j db.sessions i

  -- After any sequence of statements the table is found by IDs as the map that went through the
  -- same changes: an insertion takes a new ID only, an update touches the session under its ID and
  -- no other, and the cleanup marks exactly the active sessions with nothing left.
  pub exec_all-apply_all :
      (xs : List Statement) (db : Db)
      → view (exec_all datetime xs db) ≡ apply_all datetime xs (view db)
  unfolding exec_all apply_all
  exec_all-apply_all [] db = refl
  exec_all-apply_all (x ∷ xs) db =
      exec_all-apply_all xs (exec datetime x db) ∙ ap (apply_all datetime xs) (exec-apply x db)
