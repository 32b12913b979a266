-- ===== src/Backend/Settlement/Refunds.antt =====
-- What settling and refunding leave in the database, on the router and to be done.
use air_fi.Base.{
  ◌≡◌, refl, ap, ◌∙◌, inl, inr, String, Bool, str_eq, some, List, [], ◌∷◌, Bool-cases, Option-cases,
  Result-cases, map, if◌then◌else◌, Result, ok, err,
}
use air_fi.Base.Int.{ℤ}
use air_fi.Base.Bytes.{Bytes}
use air_fi.Db.Rows.{update_rows}
use air_fi.Db.{
  Db, Session, GuestWallet, wallet_has_id, get_session, settle_session, get_wallet_by_session_id,
  on_wallet, update_wallet_sender_address, update_wallet_status,
}
use air_fi.Db.Queries.{get_session-on_session}
use air_fi.Perun.Withdraw.{get_sender_address}
use air_fi.Backend.{GuestSession, Server, RouterCall, deauthorize_mac, withdraw}
use air_fi.Backend.Settlement.{
  Outside, RefundError, revoke_session, settle_expired_session, withdraw_attempts, wait_times,
  known_sender, withdraw_from, withdraw_to_sender,
}

-- The calls to the router that take a MAC address off it.
abbrev pub deauthorized : String → List RouterCall → List RouterCall
deauthorized mac calls = if str_eq mac "" then calls else deauthorize_mac mac ∷ calls

-- Settling an expired session marks its row as settled now, takes the device that the row names off
-- the router, and starts the withdrawal, whether or not the channel could be settled.
pub settle_expired_session_outcome :
    (updated settled : Bool) (now : ℤ) (srv : Server) (session : GuestSession) (row : Session)
    → get_session srv.db session.id ≡ ok row
    → let after = (settle_expired_session updated settled now srv session).1 in
      (get_session after.db session.id
        ≡ ok (record row { status = "settled"; settled_at = some now }))
      × (after.router_calls ≡ deauthorized row.mac_address srv.router_calls)
      × (after.tasks ≡ withdraw session.id ∷ srv.tasks)
unfolding settle_expired_session revoke_session settle_session
settle_expired_session_outcome updated settled now srv session row e =
    let written =
      get_session-on_session srv.db session.id
        (λ r. record r { status = "settled"; settled_at = some now }) row (λ x. refl) e in
    elim (Bool-cases (str_eq row.mac_address "")) [
      | inl blank ↦
          rw (settle_expired_session, revoke_session, written, blank) (written, refl, refl)
      | inr named ↦
          rw (settle_expired_session, revoke_session, written, named) (written, refl, refl)
    ]

abbrev pub statuses : List GuestWallet → List String
statuses ws = map (λ w. w.status) ws

-- The statuses once the wallets of one ID are withdrawn.
abbrev pub withdrawn_in : String → List GuestWallet → List String
withdrawn_in id ws = map (λ w. if wallet_has_id id w then "withdrawn" else w.status) ws

set_sender : String → GuestWallet → GuestWallet
set_sender sender w = record w { sender_address = sender }

statuses-sender :
    (id sender : String) (ws : List GuestWallet)
    → statuses (update_rows (wallet_has_id id) (set_sender sender) ws) ≡ statuses ws
unfolding update_rows set_sender
statuses-sender id sender [] = refl
statuses-sender id sender (w ∷ ws) = elim (Bool-cases (wallet_has_id id w)) [
  | inl hit ↦ rw (hit, update_rows) (ap (◌∷◌ w.status) (statuses-sender id sender ws))
  | inr miss ↦ rw (miss, update_rows) (ap (◌∷◌ w.status) (statuses-sender id sender ws))
]

withdrawn-sender :
    (id sender : String) (ws : List GuestWallet)
    → withdrawn_in id (update_rows (wallet_has_id id) (set_sender sender) ws) ≡ withdrawn_in id ws
unfolding update_rows set_sender
withdrawn-sender id sender [] = refl
withdrawn-sender id sender (w ∷ ws) = elim (Bool-cases (wallet_has_id id w)) [
  | inl hit ↦ rw (hit, update_rows) (rw hit (ap (◌∷◌ "withdrawn") (withdrawn-sender id sender ws)))
  | inr miss ↦ rw (miss, update_rows) (rw miss (ap (◌∷◌ w.status) (withdrawn-sender id sender ws)))
]

statuses-withdrawn :
    (id : String) (ws : List GuestWallet)
    → statuses (update_rows (wallet_has_id id) (λ r. record r { status = "withdrawn" }) ws)
      ≡ withdrawn_in id ws
unfolding update_rows
statuses-withdrawn id [] = refl
statuses-withdrawn id (w ∷ ws) = elim (Bool-cases (wallet_has_id id w)) [
  | inl hit ↦ rw (hit, update_rows) (ap (◌∷◌ "withdrawn") (statuses-withdrawn id ws))
  | inr miss ↦ rw (miss, update_rows) (ap (◌∷◌ w.status) (statuses-withdrawn id ws))
]

module _ {S W : Type 0} (out : Outside S W) where
  abbrev pub Refunded : Db → String → Db → Result RefundError Bytes → Type 0
  Refunded db id db' (err e) =
      (statuses db'.guest_wallets ≡ statuses db.guest_wallets) × (db'.sessions ≡ db.sessions)
  Refunded db id db' (ok hash) =
      (wallet : GuestWallet) × (get_wallet_by_session_id db id ≡ ok wallet)
      × (statuses db'.guest_wallets ≡ withdrawn_in wallet.id db.guest_wallets)
      × (db'.sessions ≡ db.sessions)

  -- What is known of the sender changes no status.
  known_sender_keeps :
      (w : W) (db : Db) (wallet : GuestWallet)
      → let db' = (known_sender out w db wallet).0 in
        (statuses db'.guest_wallets ≡ statuses db.guest_wallets)
        × (withdrawn_in wallet.id db'.guest_wallets ≡ withdrawn_in wallet.id db.guest_wallets)
        × (db'.sessions ≡ db.sessions)
  unfolding known_sender update_wallet_sender_address on_wallet set_sender
  known_sender_keeps w db wallet = elim (Bool-cases (str_eq wallet.sender_address "")) [
    | inr there ↦ rw (there, known_sender) (refl, refl, refl)
    | inl blank ↦
        elim (Result-cases (get_sender_address out.scripts (out.history w) wallet.address)) [
          | inl (e, unknown) ↦ rw (blank, unknown, known_sender) (refl, refl, refl)
          | inr (sender, found) ↦
              rw (blank, found, known_sender)
                (
                  statuses-sender wallet.id sender db.guest_wallets,
                  withdrawn-sender wallet.id sender db.guest_wallets,
                  refl,
                )
        ]
  ]

  withdraw_from-Refunded :
      (w : W) (db : Db) (id : String) (wallet : GuestWallet) (to : String)
      → (db₀ : Db) → get_wallet_by_session_id db₀ id ≡ ok wallet
      → (statuses db.guest_wallets ≡ statuses db₀.guest_wallets)
      → (withdrawn_in wallet.id db.guest_wallets ≡ withdrawn_in wallet.id db₀.guest_wallets)
      → (db.sessions ≡ db₀.sessions)
      → let r = withdraw_from out w db wallet to in Refunded db₀ id r.1 r.2
  unfolding withdraw_from update_wallet_status on_wallet
  withdraw_from-Refunded w db id wallet to db₀ here same marked rows =
      elim (Option-cases (out.decode_key wallet.private_key_hex)) [
        | inl e ↦ rw (e, withdraw_from) (same, rows)
        | inr (key, e) ↦ elim (Option-cases (out.decode_wallet_address wallet.address)) [
          | inl f ↦ rw (e, f, withdraw_from) (same, rows)
          | inr (lock, f) ↦
              elim (Option-cases (withdraw_attempts out w (wait_times out) key lock to).1) [
                | inl g ↦ rw (e, f, g, withdraw_from) (same, rows)
                | inr (hash, g) ↦
                    rw (e, f, g, withdraw_from)
                      (wallet, here, statuses-withdrawn wallet.id db.guest_wallets ∙ marked, rows)
              ]
        ]
      ]

  -- A refund either fails, and then leaves every wallet's status and every session's row, or it
  -- succeeds, and then makes the status of the session's wallet withdrawn, and no other.
  pub withdraw_to_sender-Refunded :
      (w : W) (db : Db) (id : String)
      → let r = withdraw_to_sender out w db id in Refunded db id r.1 r.2
  unfolding withdraw_to_sender
  withdraw_to_sender-Refunded w db id = elim (Result-cases (get_wallet_by_session_id db id)) [
    | inl (e, missing) ↦ rw (missing, withdraw_to_sender) (refl, refl)
    | inr (wallet, here) ↦
        let (same, marked, rows) = known_sender_keeps w db wallet in
        elim (Result-cases (known_sender out w db wallet).1) [
          | inl (e, unknown) ↦ rw (here, unknown, withdraw_to_sender) (same, rows)
          | inr (to, known) ↦
              rw (here, known, withdraw_to_sender)
                (withdraw_from-Refunded w (known_sender out w db wallet).0 id wallet to db here same
                  marked rows)
        ]
  ]
