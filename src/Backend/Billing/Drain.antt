-- ===== src/Backend/Billing/Drain.antt =====
-- Where the rounds of payments lead: no session is lost or settled twice, and every one ends.
use air_fi.Base.{
  ℕ, suc, ◌*◌, ◌≡◌, refl, sym, ap, subst, inl, inr, String, Bool, true, List, [], ◌∷◌, ◌++◌, arith,
  All, length,
}
use mathlib.Core.List.{Perm, perm_middle}
use mathlib.Core.List.Perm
use air_fi.Base.Int.{ℤ, pos, pos_part, neg_part, ◌+ℤ◌, ◌<ℤ◌, int_laws, +ℤ_parts, -ℤ_parts}
use air_fi.Base.Map.{Map}
use air_fi.Db.{Db, update_session_balance}
use air_fi.Backend.{GuestSession, Server}
use air_fi.Backend.Billing.{
  unpaid, paid, charge, balance_ckb, spent_ckb, process_each, process_micropayments,
}
use air_fi.Backend.Billing.Backing.{
  IsBacked, AllBacked, Charged, charge_outcome, Charge-cases, process_micropayments-AllBacked,
}

abbrev pub keys : Map GuestSession → List String
keys [] = []
keys ((id, s) ∷ rest) = id ∷ keys rest

-- A round leaves each session in memory or hands it to settlement, and does one of the two once.
pub process_each_partitions :
    (accepts : String → Bool) (rate now : ℤ) (m : Map GuestSession) (db : Db)
    → let r = process_each accepts rate now db m in Perm (keys r.kept ++ keys r.ended) (keys m)
unfolding process_each
process_each_partitions accepts rate now [] db = Perm.rfl
process_each_partitions accepts rate now ((id, s) ∷ rest) db =
    elim (Charge-cases (charge (accepts id) rate now s)) [
      | inl (inl e) ↦
          rw (e, process_each)
            (Perm.trans
              (perm_middle (keys (process_each accepts rate now db rest).kept)
                (keys (process_each accepts rate now db rest).ended))
              (Perm.cons id (process_each_partitions accepts rate now rest db)))
      | inl (inr e) ↦
          rw (e, process_each) (Perm.cons id (process_each_partitions accepts rate now rest db))
      | inr (s', e) ↦
          rw (e, process_each)
            (Perm.cons id (
              process_each_partitions accepts rate now rest
                (update_session_balance db id (balance_ckb s') (spent_ckb s'))))
    ]

-- The funding is used up within `k` payments of `r`.
abbrev pub IsDue : ℕ → ℕ → GuestSession → Type 0
IsDue r k s = s.funding_amount <ℤ s.total_paid +ℤ pos (k * r)

abbrev pub AllDue : ℕ → ℕ → Map GuestSession → Type 0
AllDue r k m = All (λ e. IsDue r k e.1) m

module _ (r : ℕ) where
  parts : {a b : ℤ} → a ≡ b → (pos_part a ≡ pos_part b) × (neg_part a ≡ neg_part b)
  parts e = (ap pos_part e, ap neg_part e)

  unpaid_absurd : (now : ℤ) (s : GuestSession) → IsBacked s → ¬ Charged true (pos r) now s unpaid
  unpaid_absurd now s (nonneg, bounded, backed) (due, covered, why) = elim why [
    | inl refused ↦ cc refused
    | inr poor ↦ omega (
      int_laws,
      +ℤ_parts s.channel.my_balance s.total_paid,
      -ℤ_parts s.funding_amount s.total_paid,
      parts backed,
    )
  ]

  paid-IsDue :
      (now : ℤ) (k : ℕ) (s s' : GuestSession)
      → IsDue r (suc k) s
      → Charged true (pos r) now s (paid s')
      → IsDue r k s'
  paid-IsDue now k s s' h (due, covered, rich, e) = rw e (
      omega (
        int_laws,
        +ℤ_parts s.total_paid (pos r),
        +ℤ_parts s'.total_paid (pos (k * r)),
        +ℤ_parts s.total_paid (pos (suc k * r)),
      ))

  process_each-AllDue :
      (now : ℤ) (k : ℕ) (m : Map GuestSession) (db : Db)
      → AllBacked m
      → AllDue r (suc k) m
      → AllDue r k (process_each (λ _. true) (pos r) now db m).kept
  unfolding process_each
  process_each-AllDue now k [] db b h = tt
  process_each-AllDue now k ((id, s) ∷ rest) db (b, bs) (h, hs) =
      elim (Charge-cases (charge true (pos r) now s)) [
        | inl (inl e) ↦ rw (e, process_each) (process_each-AllDue now k rest db bs hs)
        | inl (inr e) ↦ absurd (
            unpaid_absurd now s b
              (subst (Charged true (pos r) now s) e (charge_outcome true (pos r) now s)))
        | inr (s', e) ↦
            let c = subst (Charged true (pos r) now s) e (charge_outcome true (pos r) now s) in
            let db' = update_session_balance db id (balance_ckb s') (spent_ckb s') in
            rw (e, process_each)
              (paid-IsDue now k s s' h c, process_each-AllDue now k rest db' bs hs)
      ]

-- Rounds at the given times, all of whose payments go through.
abbrev pub rounds : List ℤ → Server → Server
rounds [] srv = srv
rounds (t ∷ ts) srv = rounds ts (process_micropayments (λ _. true) t srv)

none_due : (r : ℕ) (m : Map GuestSession) → AllBacked m → AllDue r 0 m → m ≡ []
none_due r [] b h = refl
none_due r ((id, s) ∷ rest) ((nonneg, bounded, backed), bs) (h, hs) =
    absurd (omega (int_laws, +ℤ_parts s.total_paid (pos (0 * r))))

-- Where the channels accept the payments, as many rounds as it takes to use up the fundings leave
-- no session behind, at whatever times they run.
pub rounds_drain :
    (r : ℕ) (times : List ℤ) (srv : Server)
    → srv.rate_per_min ≡ pos r
    → AllBacked srv.sessions
    → AllDue r (length times) srv.sessions
    → (rounds times srv).sessions ≡ []
unfolding process_micropayments
rounds_drain r [] srv e b h = none_due r srv.sessions b h
rounds_drain r (t ∷ ts) srv e b h =
    let next = process_micropayments (λ _. true) t srv in
    rounds_drain r ts next e
      (process_micropayments-AllBacked (λ _. true) t srv (rw e (omega arith)) b)
      (subst (λ z. AllDue r (length ts) (process_each (λ _. true) z t srv.db srv.sessions).kept)
        (sym e) (process_each-AllDue r t (length ts) srv.sessions srv.db b h))
