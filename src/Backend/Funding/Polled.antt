-- ===== src/Backend/Funding/Polled.antt =====
-- What the guest's own polling does to its access.
use air_fi.Base.{◌≡◌, refl, ◌∙◌, inl, inr, String, Bool-cases, Option-cases, Result-cases, str_eq}
use air_fi.Base.Int.{ℤ, pos, leb_ℤ, ltb_ℤ, quot_ℕ}
use air_fi.Db.{GuestWallet, get_guest_wallet}
use air_fi.Backend.{Server, shannons_per_ckb}
use air_fi.Backend.Sessions.{create_session_from_wallet}
use air_fi.Backend.Funding.{
  Watch, get_minimum_funding, note_sender, check_wallet_balance, detect_sender_address, fund_polled,
  poll_created, handle_get_guest_wallet,
}
use air_fi.Backend.Funding.Detected.{note_sender_keeps, created_calls, Created-cases}

module _ {S W : Type 0} (watch : Watch S W) where
  fund_polled_calls :
      (w : W) (now : ℤ) (srv : Server) (wallet : GuestWallet) (balance : ℤ)
      → (fund_polled watch w now srv wallet balance).0.router_calls ≡ srv.router_calls
  unfolding fund_polled
  fund_polled_calls w now srv wallet balance =
      let sender = detect_sender_address watch w wallet.address in
      let noted = note_sender srv wallet sender in
      let id = watch.fresh_id wallet.id in
      let (_, _, _, calls, _) = note_sender_keeps srv wallet sender in
      let r = create_session_from_wallet noted id watch.host_address now wallet balance in
      let same : r.0.router_calls ≡ srv.router_calls =
        (created_calls noted id watch.host_address now wallet balance).0 ∙ calls in
      elim (Created-cases r.1) [
        | inl (inl e) ↦ rw (fund_polled, e) same
        | inl (inr e) ↦ rw (fund_polled, e) same
        | inr (x, e) ↦ rw (fund_polled, e) same
      ]

  poll_created_calls :
      (w : W) (now minimum : ℤ) (srv : Server) (wallet : GuestWallet)
      → (poll_created watch w now minimum srv wallet).0.router_calls ≡ srv.router_calls
  unfolding poll_created
  poll_created_calls w now minimum srv wallet =
      elim (Option-cases (check_wallet_balance watch wallet.address)) [
        | inl e ↦ rw (poll_created, e) refl
        | inr (b, e) ↦ elim (Bool-cases (leb_ℤ minimum (quot_ℕ b shannons_per_ckb))) [
          | inl enough ↦
              rw (poll_created, e, enough)
                (fund_polled_calls w now srv wallet (quot_ℕ b shannons_per_ckb))
          | inr short ↦ elim (Bool-cases (ltb_ℤ (pos 0) (quot_ℕ b shannons_per_ckb))) [
            | inl partial ↦ rw (poll_created, e, short, partial) refl
            | inr nothing ↦ rw (poll_created, e, short, nothing) refl
          ]
        ]
      ]

  -- Polling a wallet asks nothing of the router, even where it finds the wallet funded, marks it so
  -- and starts its session: nothing lets the device in.
  pub handle_get_guest_wallet_calls :
      (w : W) (now : ℤ) (srv : Server) (wallet_id : String)
      → (handle_get_guest_wallet watch w now srv wallet_id).0.router_calls ≡ srv.router_calls
  unfolding handle_get_guest_wallet
  handle_get_guest_wallet_calls w now srv wallet_id =
      elim (Result-cases (get_guest_wallet srv.db wallet_id)) [
        | inl (e, missing) ↦ rw (handle_get_guest_wallet, missing) refl
        | inr (wallet, found) ↦ elim (Bool-cases (str_eq wallet.status "created")) [
          | inr other ↦ rw (handle_get_guest_wallet, found, other) refl
          | inl waiting ↦
              elim (Option-cases
                (poll_created watch w now (get_minimum_funding srv) srv wallet).1) [
                  | inl e ↦
                      rw (handle_get_guest_wallet, found, waiting, e)
                        (poll_created_calls w now (get_minimum_funding srv) srv wallet)
                  | inr (after, e) ↦
                      rw (handle_get_guest_wallet, found, waiting, e)
                        (poll_created_calls w now (get_minimum_funding srv) srv wallet)
                ]
        ]
      ]
