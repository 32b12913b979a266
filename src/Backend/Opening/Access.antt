-- ===== src/Backend/Opening/Access.antt =====
-- What opening a channel does to the guest's access, which was given before the channel was there.
use air_fi.Base.{
  true-false, ◌≡◌, refl, String, Bool, true, false, not, ◌&&◌, ◌⊎◌, inl, inr, Bool-cases, str_eq,
  none, arith,
}
use air_fi.Base.Int.{ℤ, ltb_ℤ}
use air_fi.Db.{GuestWallet}
use air_fi.Perun.ChannelClient.{propose_channel}
use air_fi.Backend.{Server}
use air_fi.Backend.Settlement.Refunds.{deauthorized}
use air_fi.Backend.Opening.{Run, set_status, revoke, propose, open_channel_for_session}

-- The call gets as far as proposing the channel.
abbrev pub is_prepared : Run → Server → ℤ → Bool
is_prepared run srv balance =
    run.key_decodes
    && run.address_decodes
    && run.cells_prepared
    && run.client_made
    && not (ltb_ℤ balance srv.channel_setup_ckb)

abbrev pub KeepsAccess : Server → Server → Type 0
KeepsAccess srv after =
    (after.router_calls ≡ srv.router_calls)
    × (after.sessions ≡ srv.sessions)
    × (after.tasks ≡ srv.tasks)

-- Where the call ends before the channel is proposed, the device stays on the router, and no
-- session is in memory that would take it off.
pub open_channel_for_session_unprepared :
    (run : Run) (srv : Server) (wallet : GuestWallet) (id : String) (balance : ℤ)
    → is_prepared run srv balance ≡ false
    → KeepsAccess srv (open_channel_for_session run srv wallet id balance)
unfolding open_channel_for_session set_status
open_channel_for_session_unprepared run srv wallet id balance h =
    elim (Bool-cases run.key_decodes) [
      | inr a ↦ rw (a, open_channel_for_session) (refl, refl, refl)
      | inl a ↦ elim (Bool-cases run.address_decodes) [
        | inr b ↦ rw (a, b, open_channel_for_session) (refl, refl, refl)
        | inl b ↦ elim (Bool-cases run.cells_prepared) [
          | inr c ↦ rw (a, b, c, open_channel_for_session) (refl, refl, refl)
          | inl c ↦ elim (Bool-cases run.client_made) [
            | inr d ↦ rw (a, b, c, d, open_channel_for_session) (refl, refl, refl)
            | inl d ↦ elim (Bool-cases (ltb_ℤ balance srv.channel_setup_ckb)) [
              | inl e ↦ rw (a, b, c, d, e, open_channel_for_session) (refl, refl, refl)
              | inr e ↦ absurd (true-false (rw (a, b, c, d, e) at h))
            ]
          ]
        ]
      ]
    ]

-- Otherwise it goes on to the proposal.
pub prepared :
    (run : Run) (srv : Server) (wallet : GuestWallet) (id : String) (balance : ℤ)
    → is_prepared run srv balance ≡ true
    → open_channel_for_session run srv wallet id balance ≡ propose srv run wallet id balance
unfolding open_channel_for_session
prepared run srv wallet id balance h = ground arith

revoke_calls :
    (srv : Server) (wallet : GuestWallet)
    → ((revoke srv wallet).router_calls ≡ deauthorized wallet.mac_address srv.router_calls)
      × ((revoke srv wallet).sessions ≡ srv.sessions)
unfolding revoke
revoke_calls srv wallet = elim (Bool-cases (str_eq wallet.mac_address "")) [
  | inl blank ↦ rw (blank, revoke) (refl, refl)
  | inr named ↦ rw (named, revoke) (refl, refl)
]

failed_proposal :
    (run : Run) (srv : Server) (wallet : GuestWallet) (id : String) (balance : ℤ)
    → (run.proposal_well_formed ≡ false) ⊎ (run.agreed ≡ none)
    → let after = propose srv run wallet id balance in
      (after.router_calls ≡ deauthorized wallet.mac_address srv.router_calls)
      × (after.sessions ≡ srv.sessions)
unfolding propose propose_channel set_status
failed_proposal run srv wallet id balance (inl malformed) =
    rw (propose, propose_channel, malformed)
      (revoke_calls (set_status (set_status srv id "channel_opening") id "channel_failed") wallet)
failed_proposal run srv wallet id balance (inr refused) =
    elim (Bool-cases run.proposal_well_formed) [
      | inl good ↦
          rw (propose, propose_channel, good, refused)
            (revoke_calls (set_status (set_status srv id "channel_opening") id "channel_failed")
              wallet)
      | inr malformed ↦
          rw (propose, propose_channel, malformed)
            (revoke_calls (set_status (set_status srv id "channel_opening") id "channel_failed")
              wallet)
    ]

-- Where the channel is proposed and is not agreed to, the device is taken off the router.
pub open_channel_for_session_failed :
    (run : Run) (srv : Server) (wallet : GuestWallet) (id : String) (balance : ℤ)
    → is_prepared run srv balance ≡ true
    → (run.proposal_well_formed ≡ false) ⊎ (run.agreed ≡ none)
    → let after = open_channel_for_session run srv wallet id balance in
      (after.router_calls ≡ deauthorized wallet.mac_address srv.router_calls)
      × (after.sessions ≡ srv.sessions)
open_channel_for_session_failed run srv wallet id balance h why =
    let (calls, kept) = failed_proposal run srv wallet id balance why in
    rw (prepared run srv wallet id balance h) (calls, kept)
