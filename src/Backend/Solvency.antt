-- ===== src/Backend/Solvency.antt =====
-- The backend's requests and rounds as steps, in any order: what holds of the sessions throughout.
use air_fi.Base.{
  ℕ, ◌<◌, ◌≡◌, refl, ap, ◌∙◌, inl, inr, String, Bool, true, Option, some, Bool-cases, Option-cases,
  Result-cases, str_eq, ok, arith,
}
use air_fi.Base.Int.{ℤ, pos, ◌≤ℤ◌, ltb_ℤ}
use air_fi.Base.Map.{lookup, erase}
use air_fi.Db.{Session, GuestWallet, get_session, update_session_status}
use air_fi.Backend.{Server, update_rate_per_min}
use air_fi.Backend.Sessions.Minutes.{per_minute-eq}
use air_fi.Backend.Billing.{process_micropayments}
use air_fi.Backend.Billing.Backing.{AllBacked, process_micropayments-AllBacked}
use air_fi.Backend.Settlement.{revoke_session}
use air_fi.Backend.Opening.{Run, catch_up, open_channel_for_session, pay_catch_up}
use air_fi.Backend.Opening.Access.{is_prepared}
use air_fi.Backend.Opening.CatchUp.{
  funding_of, fresh_channel, opened, IsBacked-of, pay_catch_up_paid,
}
use air_fi.Backend.Handlers.{is_host, handle_extend_session, handle_end_session, handle_update_rate}
use air_fi.Backend.Handlers.Extending.{
  insert-AllBacked, erase-AllBacked, handle_extend_session-AllBacked, handle_extend_session_rate,
}

-- A rate that is set is below 9 * 10 ^ 10 CKBytes an hour, and a channel that is opened has its
-- catch-up payment go through.
pub data Step : Server → Server → Type 0 where
  round :
      (accepts : String → Bool) (now : ℤ) (srv : Server)
      → Step srv (process_micropayments accepts now srv)
  extend :
      (datetime : ℤ → ℤ → ℤ) (accepted : Bool) (srv : Server) (id : String) (amount_ckb : Option ℤ)
      → Step srv (handle_extend_session datetime accepted srv id amount_ckb).0
  finish : (srv : Server) (id : String) → Step srv (handle_end_session srv id).0
  set_rate :
      (srv : Server) (cookie : Option String) (rate : ℕ)
      → rate < 90_000_000_000
      → Step srv (handle_update_rate srv cookie (some (pos rate))).0
  open_channel :
      (run : Run) (srv : Server) (wallet : GuestWallet) (id : String) (balance : ℤ) (cid : String)
      (row : Session)
      → is_prepared run srv balance ≡ true
      → run.proposal_well_formed ≡ true
      → run.agreed ≡ some cid
      → run.payment_accepted ≡ true
      → get_session srv.db id ≡ ok row
      → pos 0 ≤ℤ catch_up srv run row
      → catch_up srv run row ≤ℤ funding_of srv balance
      → Step srv (open_channel_for_session run srv wallet id balance)

pub data Reach : Server → Server → Type 0 where
  here : (srv : Server) → Reach srv srv
  next : (a b c : Server) → Reach a b → Step b c → Reach a c

abbrev pub IsSolvent : Server → Type 0
IsSolvent srv = (pos 0 ≤ℤ srv.rate_per_min) × AllBacked srv.sessions

revoke_session_keeps :
    (srv : Server) (id : String)
    → ((revoke_session srv id).sessions ≡ srv.sessions)
      × ((revoke_session srv id).rate_per_min ≡ srv.rate_per_min)
unfolding revoke_session
revoke_session_keeps srv id = elim (Result-cases (get_session srv.db id)) [
  | inl (e, f) ↦ rw (revoke_session, f) (refl, refl)
  | inr (row, f) ↦ elim (Bool-cases (str_eq row.mac_address "")) [
    | inl blank ↦ rw (revoke_session, f, blank) (refl, refl)
    | inr named ↦ rw (revoke_session, f, named) (refl, refl)
  ]
]

finish-IsSolvent :
    (srv : Server) (id : String) → IsSolvent srv → IsSolvent (handle_end_session srv id).0
unfolding handle_end_session
finish-IsSolvent srv id (rate, backed) = elim (Option-cases (lookup id srv.sessions)) [
  | inl gone ↦ rw (handle_end_session, gone) (rate, backed)
  | inr (s, held) ↦
      let removed : Server = record srv {
        sessions = erase id srv.sessions;
        db = update_session_status srv.db id "settling";
      } in
      let (kept, rates) = revoke_session_keeps removed id in
      rw (handle_end_session, held)
        (rw rates rate, rw kept (erase-AllBacked srv.sessions id backed))
]

extend-IsSolvent :
    (datetime : ℤ → ℤ → ℤ) (accepted : Bool) (srv : Server) (id : String) (amount_ckb : Option ℤ)
    → IsSolvent srv
    → IsSolvent (handle_extend_session datetime accepted srv id amount_ckb).0
extend-IsSolvent datetime accepted srv id amount_ckb (rate, backed) = (
  rw (handle_extend_session_rate datetime accepted srv id amount_ckb) rate,
  handle_extend_session-AllBacked datetime accepted srv id amount_ckb backed,
)

set_rate-IsSolvent :
    (srv : Server) (cookie : Option String) (rate : ℕ)
    → rate < 90_000_000_000
    → IsSolvent srv
    → IsSolvent (handle_update_rate srv cookie (some (pos rate))).0
unfolding handle_update_rate update_rate_per_min
set_rate-IsSolvent srv cookie rate bound (nonneg, backed) = elim (Bool-cases (is_host srv cookie)) [
  | inr stranger ↦ rw (handle_update_rate, stranger) (nonneg, backed)
  | inl host ↦ elim (Bool-cases (ltb_ℤ (pos rate) (pos 1))) [
    | inl low ↦ rw (handle_update_rate, host, low) (nonneg, backed)
    | inr enough ↦
        rw (handle_update_rate, host, enough) (rw (per_minute-eq rate bound) (omega arith), backed)
  ]
]

open_channel-IsSolvent :
    (run : Run) (srv : Server) (wallet : GuestWallet) (id : String) (balance : ℤ) (cid : String)
    (row : Session)
    → is_prepared run srv balance ≡ true
    → run.proposal_well_formed ≡ true
    → run.agreed ≡ some cid
    → run.payment_accepted ≡ true
    → get_session srv.db id ≡ ok row
    → pos 0 ≤ℤ catch_up srv run row
    → catch_up srv run row ≤ℤ funding_of srv balance
    → IsSolvent srv
    → IsSolvent (open_channel_for_session run srv wallet id balance)
open_channel-IsSolvent run srv wallet id balance cid row good well_formed agreed accepted found
      nonneg covered (rate, backed) =
    let (x, put, same, funding, paid, channel, _) =
      opened run srv wallet id balance cid row good well_formed agreed found in
    let ch = fresh_channel cid (funding_of srv balance) in
    let due = catch_up srv run row in
    let paid_channel : x.channel ≡ pay_catch_up true ch due =
      channel ∙ ap (λ a. pay_catch_up a ch due) accepted in
    (
      rw same rate,
      rw put (
          insert-AllBacked srv.sessions id x backed (
            IsBacked-of x (pay_catch_up true ch due) (funding_of srv balance) due funding paid
              paid_channel (pay_catch_up_paid ch due covered nonneg) nonneg covered)),
    )

step-IsSolvent : (a b : Server) → Step a b → IsSolvent a → IsSolvent b
unfolding process_micropayments
step-IsSolvent _ _ (round accepts now srv) (rate, backed) =
    (rate, process_micropayments-AllBacked accepts now srv rate backed)
step-IsSolvent _ _ (extend datetime accepted srv id amount) h =
    extend-IsSolvent datetime accepted srv id amount h
step-IsSolvent _ _ (finish srv id) h = finish-IsSolvent srv id h
step-IsSolvent _ _ (set_rate srv cookie rate bound) h = set_rate-IsSolvent srv cookie rate bound h
step-IsSolvent _ _ (open_channel run srv wallet id balance cid row g w a p r n c) h =
    open_channel-IsSolvent run srv wallet id balance cid row g w a p r n c h

-- However rounds of payments, extensions, endings, new rates and openings follow each other, every
-- session in memory has paid no more than its funding, and the rest of it is the guest's balance in
-- the session's channel. Rates are below 9 * 10 ^ 10 CKBytes an hour, and every opening's catch-up
-- payment goes through.
pub Reach-IsSolvent : (a b : Server) → Reach a b → IsSolvent a → IsSolvent b
Reach-IsSolvent _ _ (here srv) h = h
Reach-IsSolvent _ _ (next a b c r s) h = step-IsSolvent b c s (Reach-IsSolvent a b r h)
