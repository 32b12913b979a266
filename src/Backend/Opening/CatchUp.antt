-- ===== src/Backend/Opening/CatchUp.antt =====
-- The session that a channel's opening puts in memory, and the payment for the time that it took.
use air_fi.Base.{
  true-false, ◌≡◌, refl, ap, sym, ◌∙◌, inl, inr, String, true, false, Bool-cases, some, ok, arith,
}
use air_fi.Base.Int.{
  ℤ, pos, pos_part, neg_part, ◌+ℤ◌, ◌-ℤ◌, ◌≤ℤ◌, ◌<ℤ◌, ltb_ℤ, quot_ℕ, ltb_ℤ→ge, int_laws, +ℤ_parts,
}
use air_fi.Base.Word.{wrap64, sub_i64, mul_i64}
use air_fi.Base.Map.{Map, lookup, insert, lookup-insert_self}
use air_fi.Db.{
  Db, Session, GuestWallet, get_session, update_session_status, update_session_channel,
  update_session_balance, update_wallet_status, on_wallet,
}
use air_fi.Db.Queries.{get_session-on_session}
use air_fi.Perun.ChannelClient.{
  GpChannel, ChannelClient, propose_channel, new_channel_client, send_payment,
}
use air_fi.Backend.{GuestSession, Server, shannons_per_ckb}
use air_fi.Backend.Billing.Backing.{IsBacked, send_payment-cases}
use air_fi.Backend.Opening.{
  Run, set_status, host_funding, catch_up, pay_catch_up, opened_session, enter_session, propose,
  open_channel_for_session,
}
use air_fi.Backend.Opening.Access.{is_prepared, prepared}

-- What the guest puts into the channel, in shannons.
abbrev pub funding_of : Server → ℤ → ℤ
funding_of srv balance = mul_i64 (sub_i64 balance srv.channel_setup_ckb) (pos shannons_per_ckb)

abbrev pub fresh_channel : String → ℤ → GpChannel
fresh_channel cid funding = record {
  id = cid;
  my_balance = funding;
  peer_balance = host_funding;
  is_final = false;
}

-- The row once the channel is there and caught up.
abbrev pub opened_row : Session → String → ℤ → ℤ → Session
opened_row row cid balance spent = record row {
  channel_id = cid;
  status = "active";
  balance_ckb = balance;
  spent_ckb = spent;
}

-- The CKBytes of the catch-up payment.
abbrev pub due_ckb : Server → Run → Session → ℤ
due_ckb srv run row = quot_ℕ (wrap64 (catch_up srv run row)) shannons_per_ckb

-- The database when the session is entered: the two statuses, and the wallet's.
opened_db : Db → String → String → String → Db
opened_db db id cid wallet_id =
    update_wallet_status
      (update_session_channel (update_session_status db id "channel_opening") id cid "active")
      wallet_id "channel_open"

opened_db-row :
    (db : Db) (id cid wallet_id : String) (row : Session)
    → get_session db id ≡ ok row
    → get_session (opened_db db id cid wallet_id) id
      ≡ ok (record row { channel_id = cid; status = "active" })
unfolding opened_db update_wallet_status on_wallet update_session_channel update_session_status
    get_session
opened_db-row db id cid wallet_id row here =
    let one =
      get_session-on_session db id (λ r. record r { status = "channel_opening" }) row (λ x. refl)
        here in
    get_session-on_session (update_session_status db id "channel_opening") id
      (λ r. record r { channel_id = cid; status = "active" })
      (record row { status = "channel_opening" }) (λ x. refl) one

module _ (run : Run) (srv : Server) (wallet : GuestWallet) (id : String) (balance : ℤ)
    (cid : String) (row : Session) (good : is_prepared run srv balance ≡ true)
    (well_formed : run.proposal_well_formed ≡ true) (agreed : run.agreed ≡ some cid)
    (here : get_session srv.db id ≡ ok row) where
  answer :
      (propose_channel run.proposal_well_formed run.agreed new_channel_client
        (funding_of srv balance)
        host_funding
        run.opened_at).1
      ≡ ok (fresh_channel cid (funding_of srv balance))
  unfolding propose_channel
  answer = rw (propose_channel, well_formed, agreed) refl

  proposed :
      (cl : ChannelClient) × (propose srv run wallet id balance
        ≡ enter_session
            (set_status srv id "channel_opening")
            run
            cl
            (fresh_channel cid (funding_of srv balance))
            wallet
            id
            (sub_i64 balance srv.channel_setup_ckb)
            (funding_of srv balance))
  unfolding propose
  proposed = (
    (propose_channel run.proposal_well_formed run.agreed new_channel_client (funding_of srv balance)
        host_funding run.opened_at).0,
    rw (propose, answer) refl,
  )

  pub opened :
      let after = open_channel_for_session run srv wallet id balance in
      (x : GuestSession) × (after.sessions ≡ insert id x srv.sessions)
      × (after.rate_per_min ≡ srv.rate_per_min)
      × (x.funding_amount ≡ funding_of srv balance)
      × (x.total_paid ≡ catch_up srv run row)
      × (x.channel
          ≡ pay_catch_up run.payment_accepted
              (fresh_channel cid (funding_of srv balance))
              (catch_up srv run row))
      × (get_session after.db id
          ≡ ok (
              opened_row row cid
                (sub_i64 (sub_i64 balance srv.channel_setup_ckb) (due_ckb srv run row))
                (due_ckb srv run row)))
  unfolding enter_session opened_session set_status opened_db update_session_balance catch_up
  opened =
      let (cl, e) = proposed in
      let read = opened_db-row srv.db id cid wallet.id row here in
      rw (prepared run srv wallet id balance good, e, enter_session, read)
        (
          opened_session run cl (fresh_channel cid (funding_of srv balance)) wallet id
              (funding_of srv balance) (catch_up srv run row)
              (record row { channel_id = cid; status = "active" }),
          refl,
          refl,
          refl,
          refl,
          refl,
          get_session-on_session (opened_db srv.db id cid wallet.id) id
              (λ r. record r {
                balance_ckb = sub_i64 (sub_i64 balance srv.channel_setup_ckb) (due_ckb srv run row);
                spent_ckb = (due_ckb srv run row);
              })
              (record row { channel_id = cid; status = "active" }) (λ x. refl) read,
        )

add_zero : (m d : ℤ) → pos 0 ≤ℤ d → d ≤ℤ pos 0 → m +ℤ d ≡ m
add_zero m d h k = omega int_laws

sub_add : (m d : ℤ) → (m -ℤ d) +ℤ d ≡ m
sub_add m d = omega int_laws

-- The peer is paid what a payment that goes through is worth.
pub pay_catch_up_paid :
    (ch : GpChannel) (due : ℤ)
    → due ≤ℤ ch.my_balance
    → pos 0 ≤ℤ due
    → (pay_catch_up true ch due).my_balance +ℤ due ≡ ch.my_balance
unfolding pay_catch_up
pay_catch_up_paid ch due covered nonneg = elim (Bool-cases (ltb_ℤ (pos 0) due)) [
  | inr nothing ↦
      rw (nothing, pay_catch_up) (add_zero ch.my_balance due nonneg (ltb_ℤ→ge (pos 0) due nothing))
  | inl some_due ↦ elim (send_payment-cases true ch due) [
    | inl (e, refused, why) ↦ absurd (elim why [ inl f ↦ true-false f | inr poor ↦ omega arith ])
    | inr (rich, agreed) ↦ rw (some_due, agreed, pay_catch_up) (sub_add ch.my_balance due)
  ]
]

found_in :
    (id : String) (x : GuestSession) (before after : Map GuestSession)
    → after ≡ insert id x before
    → lookup id after ≡ some x
found_in id x before after put = ap (lookup id) put ∙ lookup-insert_self id x before

pub IsBacked-of :
    (x : GuestSession) (ch : GpChannel) (funding due : ℤ)
    → x.funding_amount ≡ funding
    → x.total_paid ≡ due
    → x.channel ≡ ch
    → ch.my_balance +ℤ due ≡ funding
    → pos 0 ≤ℤ due
    → due ≤ℤ funding
    → IsBacked x
IsBacked-of x ch funding due f p c h nonneg covered = rw (f, p, c) (nonneg, covered, h)

pay_catch_up_refused : (ch : GpChannel) (due : ℤ) → pay_catch_up false ch due ≡ ch
unfolding pay_catch_up send_payment
pay_catch_up_refused ch due = elim (Bool-cases (ltb_ℤ (pos 0) due)) [
  | inr nothing ↦ rw (nothing, pay_catch_up) refl
  | inl some_due ↦ elim (Bool-cases (ltb_ℤ ch.my_balance due)) [
    | inl poor ↦ rw (some_due, poor, pay_catch_up, send_payment) refl
    | inr rich ↦ rw (some_due, rich, pay_catch_up, send_payment) refl
  ]
]

unbacked : (m t f d : ℤ) → m ≡ f → t ≡ d → pos 0 <ℤ d → ¬ (m +ℤ t ≡ f)
unbacked m t f d e p h k = omega (
  int_laws,
  +ℤ_parts m t,
  ap pos_part e,
  ap neg_part e,
  ap pos_part p,
  ap neg_part p,
  ap pos_part k,
  ap neg_part k,
)

-- A catch-up payment that is refused is counted as paid all the same: the channel still has the
-- whole funding on the guest's side, and the session is not backed by it.
pub open_channel_for_session_unbacked :
    (run : Run) (srv : Server) (wallet : GuestWallet) (id : String) (balance : ℤ) (cid : String)
    (row : Session)
    → is_prepared run srv balance ≡ true
    → run.proposal_well_formed ≡ true
    → run.agreed ≡ some cid
    → run.payment_accepted ≡ false
    → get_session srv.db id ≡ ok row
    → pos 0 <ℤ catch_up srv run row
    → let after = open_channel_for_session run srv wallet id balance in
      (x : GuestSession) × (lookup id after.sessions ≡ some x)
      × (x.total_paid ≡ catch_up srv run row)
      × (x.channel.my_balance ≡ x.funding_amount)
      × (x.channel.peer_balance ≡ host_funding)
      × ¬ IsBacked x
open_channel_for_session_unbacked run srv wallet id balance cid row good well_formed agreed refused
      here due =
    let (x, put, _, funding, paid, channel, written) =
      opened run srv wallet id balance cid row good well_formed agreed here in
    let ch = fresh_channel cid (funding_of srv balance) in
    let same : x.channel ≡ ch =
      channel
      ∙ ap (λ a. pay_catch_up a ch (catch_up srv run row)) refused
      ∙ pay_catch_up_refused ch (catch_up srv run row) in
    let mine : x.channel.my_balance ≡ x.funding_amount =
      ap (λ c. c.my_balance) same ∙ sym funding in
    (
      x,
      found_in id x srv.sessions _ put,
      paid,
      mine,
      ap (λ c. c.peer_balance) same,
      λ (_, _, backed).
          unbacked x.channel.my_balance x.total_paid x.funding_amount (catch_up srv run row) mine
            paid due backed,
    )
