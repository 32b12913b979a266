-- ===== src/Backend/Funding/Detected.antt =====
-- What a round of the funding detector does, to one wallet and altogether.
use air_fi.Base.{
  ◌≡◌, refl, ap, sym, ◌∙◌, ◌⊎◌, inl, inr, String, true, str_eq, none, some, List, [], ◌∷◌, ◌++◌,
  Bool-cases, Option-cases, Result-cases, if◌then◌else◌, All,
}
use mathlib.Core.List.{Memᴰ}
use air_fi.Base.Int.{ℤ, pos, leb_ℤ, ltb_ℤ, quot_ℕ}
use air_fi.Db.{
  Db, Session, GuestWallet, create_session, get_session, get_rate_per_hour, get_setting, on_wallet,
  update_wallet_sender_address, update_wallet_funded, list_pending_wallets,
}
use air_fi.Backend.{Server, RouterCall, authorize_mac, open_channel, shannons_per_ckb}
use air_fi.Backend.Sessions.{
  Created, panicked, refused, made, session_minutes, session_of, create_session_from_wallet,
}
use air_fi.Backend.Funding.{
  Watch, get_minimum_funding, note_sender, authorize, admit, check_wallet_balance,
  detect_sender_address, fund_pending, check_wallet, check_each, check_pending_wallets,
}

-- The calls to the router that let a wallet's device in for a session.
abbrev pub authorized : GuestWallet → String → List RouterCall → List RouterCall
authorized wallet id calls =
    if str_eq wallet.mac_address ""
    then calls
    else authorize_mac wallet.mac_address wallet.ip_address id ∷ calls

pub note_sender_keeps :
    (srv : Server) (wallet : GuestWallet) (sender : String)
    → let noted = note_sender srv wallet sender in
      (noted.channel_setup_ckb ≡ srv.channel_setup_ckb)
      × (noted.db.settings ≡ srv.db.settings)
      × (noted.db.sessions ≡ srv.db.sessions)
      × (noted.router_calls ≡ srv.router_calls)
      × (noted.tasks ≡ srv.tasks)
unfolding note_sender update_wallet_sender_address on_wallet
note_sender_keeps srv wallet sender = elim (Bool-cases (str_eq sender "")) [
  | inl blank ↦ rw (blank, note_sender) (refl, refl, refl, refl, refl)
  | inr named ↦ rw (named, note_sender) (refl, refl, refl, refl, refl)
]

pub rate-settings : (d e : Db) → d.settings ≡ e.settings → get_rate_per_hour d ≡ get_rate_per_hour e
unfolding get_rate_per_hour get_setting
rate-settings d e same = rw (get_rate_per_hour, get_setting, same) refl

pub admit_outcome :
    (srv : Server) (now : ℤ) (wallet : GuestWallet) (id : String) (balance : ℤ) (i : String)
    → let after = admit srv now wallet id balance in
      (after.router_calls ≡ authorized wallet id srv.router_calls)
      × (after.tasks ≡ open_channel wallet id balance ∷ srv.tasks)
      × (get_session after.db i ≡ get_session srv.db i)
unfolding admit authorize update_wallet_funded on_wallet get_session
admit_outcome srv now wallet id balance i = elim (Bool-cases (str_eq wallet.mac_address "")) [
  | inl blank ↦ rw (blank, admit, authorize) (refl, refl, refl)
  | inr named ↦ rw (named, admit, authorize) (refl, refl, refl)
]

-- Making the session writes to the database alone.
pub created_calls :
    (srv : Server) (id host : String) (now : ℤ) (wallet : GuestWallet) (balance : ℤ)
    → let after = (create_session_from_wallet srv id host now wallet balance).0 in
      (after.router_calls ≡ srv.router_calls) × (after.tasks ≡ srv.tasks)
unfolding create_session_from_wallet
created_calls srv id host now wallet balance = elim (Option-cases (session_minutes srv balance)) [
  | inl e ↦ rw (create_session_from_wallet, e) (refl, refl)
  | inr (m, e) ↦
      elim (Result-cases (create_session srv.db (session_of srv id host now wallet balance m))) [
        | inl (x, f) ↦ rw (create_session_from_wallet, e, f) (refl, refl)
        | inr (d, f) ↦ rw (create_session_from_wallet, e, f) (refl, refl)
      ]
]

pub Created-cases :
    (c : Created) → ((c ≡ panicked) ⊎ (c ≡ refused)) ⊎ ((x : Session) × (c ≡ made x))
Created-cases panicked = inl (inl refl)
Created-cases refused = inl (inr refl)
Created-cases (made x) = inr (x, refl)

some_eq : {a b : Server} → some a ≡ some b → a ≡ b
some_eq e = cc e

none_absurd : {a : Server} → ¬ (none ≡ some a)
none_absurd e = cc e

authorized-cases :
    (wallet : GuestWallet) (id : String) (calls : List RouterCall)
    → (authorized wallet id calls ≡ calls)
      ⊎ (authorized wallet id calls ≡ authorize_mac wallet.mac_address wallet.ip_address id ∷ calls)
authorized-cases wallet id calls = elim (Bool-cases (str_eq wallet.mac_address "")) [
  | inl blank ↦ inl (rw blank refl)
  | inr named ↦ inr (rw named refl)
]

module _ {S W : Type 0} (watch : Watch S W) where
  -- The wallet holds a minimum, in CKBytes.
  abbrev pub Holds : ℤ → GuestWallet → Type 0
  Holds minimum wallet =
      (balance : ℤ) × (check_wallet_balance watch wallet.address ≡ some balance)
      × (leb_ℤ minimum (quot_ℕ balance shannons_per_ckb) ≡ true)

  -- What a check of a wallet may have asked of the router: to let in its own device, for its own
  -- session, where it holds the minimum.
  abbrev pub LetsIn : ℤ → List GuestWallet → RouterCall → Type 0
  LetsIn minimum wallets call =
      (wallet : GuestWallet) × Memᴰ wallet wallets
      × Holds minimum wallet
      × (call ≡ authorize_mac wallet.mac_address wallet.ip_address (watch.fresh_id wallet.id))

  abbrev pub Grown : ℤ → List GuestWallet → List RouterCall → List RouterCall → Type 0
  Grown minimum wallets before after =
      (news : List RouterCall) × (after ≡ news ++ before) × All (LetsIn minimum wallets) news

  fund_pending_calls :
      (w : W) (now balance : ℤ) (srv after : Server) (wallet : GuestWallet)
      → fund_pending watch w now srv wallet balance ≡ some after
      → (after.router_calls ≡ srv.router_calls)
        ⊎ (after.router_calls ≡ authorized wallet (watch.fresh_id wallet.id) srv.router_calls)
  unfolding fund_pending
  fund_pending_calls w now balance srv after wallet e =
      let noted = note_sender srv wallet (detect_sender_address watch w wallet.address) in
      let id = watch.fresh_id wallet.id in
      let (_, _, _, calls, _) =
        note_sender_keeps srv wallet (detect_sender_address watch w wallet.address) in
      let r = create_session_from_wallet noted id watch.host_address now wallet balance in
      let (made_calls, _) = created_calls noted id watch.host_address now wallet balance in
      elim (Created-cases r.1) [
        | inl (inl f) ↦ absurd (none_absurd (rw (fund_pending, f) at e))
        | inl (inr f) ↦ inl (
            ap (λ s. s.router_calls) (sym (some_eq (rw (fund_pending, f) at e)))
            ∙ made_calls
            ∙ calls)
        | inr (x, f) ↦ inr (
            ap (λ s. s.router_calls) (sym (some_eq (rw (fund_pending, f) at e)))
            ∙ (admit_outcome r.0 now wallet id balance id).0
            ∙ ap (authorized wallet id) (made_calls ∙ calls))
      ]

  funded-Grown :
      (w : W) (now minimum balance : ℤ) (srv after : Server) (wallet : GuestWallet)
      (wallets : List GuestWallet)
      → Memᴰ wallet wallets
      → Holds minimum wallet
      → fund_pending watch w now srv wallet balance ≡ some after
      → Grown minimum wallets srv.router_calls after.router_calls
  funded-Grown w now minimum balance srv after wallet wallets mem holds e =
      elim (fund_pending_calls w now balance srv after wallet e) [
        | inl same ↦ ([], same, tt)
        | inr new ↦ elim (authorized-cases wallet (watch.fresh_id wallet.id) srv.router_calls) [
          | inl blank ↦ ([], new ∙ blank, tt)
          | inr named ↦ (_ ∷ [], new ∙ named, ((wallet, mem, holds, refl), tt))
        ]
      ]

  check_wallet-Grown :
      (w : W) (now minimum : ℤ) (srv after : Server) (wallet : GuestWallet)
      (wallets : List GuestWallet)
      → Memᴰ wallet wallets
      → check_wallet watch w now minimum srv wallet ≡ some after
      → Grown minimum wallets srv.router_calls after.router_calls
  unfolding check_wallet
  check_wallet-Grown w now minimum srv after wallet wallets mem e =
      elim (Option-cases (check_wallet_balance watch wallet.address)) [
        | inl f ↦ ([], ap (λ s. s.router_calls) (sym (some_eq (rw (check_wallet, f) at e))), tt)
        | inr (b, f) ↦ elim (Bool-cases (leb_ℤ minimum (quot_ℕ b shannons_per_ckb))) [
          | inl enough ↦
              funded-Grown w now minimum (quot_ℕ b shannons_per_ckb) srv after wallet wallets mem
                (b, f, enough) (rw (check_wallet, f, enough) at e)
          | inr short ↦ elim (Bool-cases (ltb_ℤ (pos 0) (quot_ℕ b shannons_per_ckb))) [
            | inl partial ↦ (
              [],
              ap (λ s. s.router_calls) (sym (some_eq (rw (check_wallet, f, short, partial) at e))),
              tt,
            )
            | inr nothing ↦ (
              [],
              ap (λ s. s.router_calls) (sym (some_eq (rw (check_wallet, f, short, nothing) at e))),
              tt,
            )
          ]
        ]
      ]

  All-append :
      (minimum : ℤ) (wallets : List GuestWallet) (xs ys : List RouterCall)
      → All (LetsIn minimum wallets) xs
      → All (LetsIn minimum wallets) ys
      → All (LetsIn minimum wallets) (xs ++ ys)
  All-append minimum wallets [] ys a b = b
  All-append minimum wallets (x ∷ xs) ys (a, more) b = (a, All-append minimum wallets xs ys more b)

  LetsIn-tail :
      (minimum : ℤ) (wallet : GuestWallet) (wallets : List GuestWallet) (xs : List RouterCall)
      → All (LetsIn minimum wallets) xs
      → All (LetsIn minimum (wallet ∷ wallets)) xs
  LetsIn-tail minimum wallet wallets [] a = tt
  LetsIn-tail minimum wallet wallets (x ∷ xs) ((v, mem, holds, e), more) =
      ((v, Memᴰ.tail mem, holds, e), LetsIn-tail minimum wallet wallets xs more)

  append_assoc : (xs ys zs : List RouterCall) → (xs ++ ys) ++ zs ≡ xs ++ (ys ++ zs)
  append_assoc [] ys zs = refl
  append_assoc (x ∷ xs) ys zs = ap (◌∷◌ x) (append_assoc xs ys zs)

  check_each-Grown :
      (w : W) (now minimum : ℤ) (wallets : List GuestWallet) (srv after : Server)
      → check_each watch w now minimum srv wallets ≡ some after
      → Grown minimum wallets srv.router_calls after.router_calls
  unfolding check_each
  check_each-Grown w now minimum [] srv after e =
      ([], ap (λ s. s.router_calls) (sym (some_eq e)), tt)
  check_each-Grown w now minimum (wallet ∷ wallets) srv after e =
      elim (Option-cases (check_wallet watch w now minimum srv wallet)) [
        | inl f ↦ absurd (none_absurd (rw (check_each, f) at e))
        | inr (next, f) ↦
            let (first, grown, named) =
              check_wallet-Grown w now minimum srv next wallet (wallet ∷ wallets) (Memᴰ.head refl)
                f in
            let (more, grows, names) =
              check_each-Grown w now minimum wallets next after (rw (check_each, f) at e) in
            (
              more ++ first,
              grows ∙ ap (◌++◌ more) grown ∙ sym (append_assoc more first srv.router_calls),
              All-append minimum (wallet ∷ wallets) more first
                  (LetsIn-tail minimum wallet wallets more names) named,
            )
      ]

  -- A round of the detector lets devices in and takes none off, and every device that it lets in is
  -- that of a pending wallet which holds the minimum funding.
  pub check_pending_wallets_lets_in :
      (w : W) (now : ℤ) (srv after : Server)
      → check_pending_wallets watch w now srv ≡ some after
      → Grown
          (get_minimum_funding srv)
          (list_pending_wallets srv.db)
          srv.router_calls
          after.router_calls
  unfolding check_pending_wallets
  check_pending_wallets_lets_in w now srv after e =
      check_each-Grown w now (get_minimum_funding srv) (list_pending_wallets srv.db) srv after e
