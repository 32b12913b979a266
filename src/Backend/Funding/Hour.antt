-- ===== src/Backend/Funding/Hour.antt =====
-- The announced minimum: what a wallet that holds it gets.
use air_fi.Base.{
  ℕ, ◌+◌, ◌*◌, ◌-◌, ◌/◌, ◌≤◌, ◌<◌, ◌^◌, ◌≡◌, refl, ap, ◌∙◌, none, some, ok, arith, ◌∷◌,
}
use air_fi.Base.Int.{ℤ, pos, ◌+ℤ◌, quot_ℕ}
use air_fi.Base.Word.{add_i64, wrap64}
use air_fi.Db.Rows.{find_row}
use air_fi.Db.{Session, GuestWallet, has_id, get_session, get_rate_per_hour}
use air_fi.Backend.{Server, open_channel, shannons_per_ckb}
use air_fi.Backend.Sessions.{made, create_session_from_wallet}
use air_fi.Backend.Sessions.Minutes.{bought, create_session_from_wallet_buys}
use air_fi.Backend.Funding.{
  Watch, get_minimum_funding, note_sender, admit, check_wallet_balance, detect_sender_address,
  fund_pending, check_wallet,
}
use air_fi.Backend.Funding.Detected.{
  authorized, note_sender_keeps, rate-settings, admit_outcome, created_calls,
}

minimum-eq :
    (srv : Server) (setup rate : ℕ)
    → srv.channel_setup_ckb ≡ pos setup
    → get_rate_per_hour srv.db ≡ pos rate
    → setup + rate < 2 ^ 63
    → get_minimum_funding srv ≡ pos (setup + rate)
unfolding get_minimum_funding add_i64 wrap64
minimum-eq srv setup rate e f h = rw (get_minimum_funding, e, f) (ground arith)

module _ {S W : Type 0} (watch : Watch S W) where
  funded :
      (w : W) (now : ℤ) (srv : Server) (wallet : GuestWallet) (balance : ℤ) (x : Session)
      → let noted = note_sender srv wallet (detect_sender_address watch w wallet.address) in
        let r =
          create_session_from_wallet noted
            (watch.fresh_id wallet.id)
            watch.host_address
            now
            wallet
            balance in
        r.1 ≡ made x
        → fund_pending watch w now srv wallet balance
          ≡ some (admit r.0 now wallet (watch.fresh_id wallet.id) balance)
  unfolding fund_pending
  funded w now srv wallet balance x e = rw (fund_pending, e) refl

  checked :
      (w : W) (now : ℤ) (srv : Server) (wallet : GuestWallet) (least shannons : ℕ)
      → get_minimum_funding srv ≡ pos least
      → check_wallet_balance watch wallet.address ≡ some (pos shannons)
      → least ≤ shannons / shannons_per_ckb
      → check_wallet watch w now (get_minimum_funding srv) srv wallet
        ≡ fund_pending watch w now srv wallet (pos (shannons / shannons_per_ckb))
  unfolding check_wallet quot_ℕ
  checked w now srv wallet least shannons e seen enough = rw (check_wallet, seen, e) (ground arith)

  -- A pending wallet that is found to hold the reserve and an hour's price gets its device let in,
  -- its channel opened, and an active session of at least 60 minutes, kept under its fresh ID. The
  -- amounts are below 9 * 10 ^ 10 CKBytes, the session's length fits a duration, and no session has
  -- the ID yet.
  pub check_wallet_buys :
      (w : W) (now : ℤ) (srv : Server) (wallet : GuestWallet) (setup rate shannons : ℕ)
      → let balance = shannons / shannons_per_ckb in
        srv.channel_setup_ckb ≡ pos setup
        → get_rate_per_hour srv.db ≡ pos rate
        → 1 ≤ rate
        → rate < 90_000_000_000
        → check_wallet_balance watch wallet.address ≡ some (pos shannons)
        → setup + rate ≤ balance
        → balance < 90_000_000_000
        → bought rate (balance - setup) * 60_000_000_000 < 2 ^ 63
        → find_row (has_id (watch.fresh_id wallet.id)) srv.db.sessions ≡ none
        → (after : Server) × (check_wallet watch w now (get_minimum_funding srv) srv wallet
            ≡ some after)
          × (after.router_calls ≡ authorized wallet (watch.fresh_id wallet.id) srv.router_calls)
          × (after.tasks ≡ open_channel wallet (watch.fresh_id wallet.id) (pos balance) ∷ srv.tasks)
          × ((x : Session) × (get_session after.db (watch.fresh_id wallet.id) ≡ ok x)
              × (x.status ≡ "active")
              × (x.expires_at ≡ now +ℤ pos (bought rate (balance - setup) * 60_000_000_000))
              × (60 ≤ bought rate (balance - setup)))
  check_wallet_buys w now srv wallet setup rate shannons setup_is rate_is positive bounded seen
        enough held lasts fresh =
      let balance = shannons / shannons_per_ckb in
      let id = watch.fresh_id wallet.id in
      let sender = detect_sender_address watch w wallet.address in
      let noted = note_sender srv wallet sender in
      let (setups, settings, rows, calls, tasks) = note_sender_keeps srv wallet sender in
      let (x, result, found, active, spend, ends, hour) =
        create_session_from_wallet_buys noted setup rate balance (setups ∙ setup_is)
          (rate-settings noted.db srv.db settings ∙ rate_is) positive bounded (omega arith) held id
          watch.host_address now wallet 1 (omega arith) lasts
          (ap (find_row (has_id id)) rows ∙ fresh) in
      let r = create_session_from_wallet noted id watch.host_address now wallet (pos balance) in
      let (made_calls, made_tasks) =
        created_calls noted id watch.host_address now wallet (pos balance) in
      let (let_in, started, kept) = admit_outcome r.0 now wallet id (pos balance) id in
      (
        admit r.0 now wallet id (pos balance),
        checked w now srv wallet (setup + rate) shannons
              (minimum-eq srv setup rate setup_is rate_is (omega arith)) seen enough
            ∙ funded w now srv wallet (pos balance) x result,
        let_in ∙ ap (authorized wallet id) (made_calls ∙ calls),
        started ∙ ap (◌∷◌ (open_channel wallet id (pos balance))) (made_tasks ∙ tasks),
        (x, kept ∙ found, active, ends, hour),
      )
