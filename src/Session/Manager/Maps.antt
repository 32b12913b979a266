-- ===== src/Session/Manager/Maps.antt =====
-- The manager's calls keep the two maps of its store in agreement, and pass the client of payment
-- channels on; only ending a session uses it.
use air_fi.Base.{
  ◌≡◌, refl, sym, ap, subst, inl, inr, String, none, some, arith, ok, Option-cases, Result-cases,
}
use air_fi.Base.Int.{ℤ}
use air_fi.Base.Map.{lookup}
use air_fi.Perun.Crypto.{Crypto}
use air_fi.Auth.{generate_token}
use air_fi.Session.Defs.{Session, ended, remaining_time}
use air_fi.Session.Store.{
  Store, create, get, activate, activated, extend, extended, finished, end_session,
}
use air_fi.Session.Store.Invariant.{IsWellFormed, create-IsWellFormed, write-IsWellFormed, writes}
use air_fi.Session.Store.Writes.{activate-eq, extend-eq, finish-eq}
use air_fi.Session.Manager.{
  Manager, create_session, session_length, activate_session, extension_length, extend_token,
  extend_store, extend_session, settle_client, end,
}

pub record Keeps (m m' : Manager) : Type 0 where
  pub well_formed : IsWellFormed m'.store
  pub same_client : m'.perun_client ≡ m.perun_client

pub create_session-Keeps :
    (m m' : Manager) (id channel_id guest : String) (now : ℤ) (s : Session)
    → IsWellFormed m.store
    → lookup id m.store.sessions ≡ none
    → create_session m id channel_id guest now ≡ ok (m', s)
    → Keeps m m'
unfolding create_session
create_session-Keeps m m' id channel_id guest now s w fresh e =
    elim (Result-cases (create m.store id channel_id guest now)) [
      | inl (x, busy) ↦ absurd (ground arith)
      | inr ((t, x), made) ↦
          let same : record m { store = t } ≡ m' = ground arith in
          subst (Keeps m) same (record {
            well_formed = create-IsWellFormed m.store t id channel_id guest now x w fresh made;
            same_client = refl;
          })
    ]

pub activate_session-Keeps :
    (m m' : Manager) (id : String) (payment now : ℤ) (s : Session) (token : String)
    → IsWellFormed m.store
    → activate_session m id payment now ≡ ok (m', s, token)
    → Keeps m m'
unfolding activate_session get
activate_session-Keeps m m' id payment now s token w e =
    elim (Option-cases (lookup id m.store.sessions)) [
      | inl missing ↦ absurd (ground arith)
      | inr (x, here) ↦ elim (Result-cases (session_length m.rate_config payment)) [
        | inl (f, short) ↦ absurd (ground arith)
        | inr (d, long) ↦
            elim (Result-cases (generate_token m.jwt_service now id x.channel_id "" "" d)) [
              | inl (f, unsigned) ↦ absurd (ground arith)
              | inr (tok, made) ↦ elim (Result-cases (activate m.store id d tok payment now)) [
                | inl (f, failed) ↦ absurd (ground arith)
                | inr (t, done) ↦ elim (Option-cases (lookup id t.sessions)) [
                  | inl gone ↦ absurd (ground arith)
                  | inr (y, found) ↦
                      let same : record m { store = t } ≡ m' = ground arith in
                      subst (Keeps m) same (record {
                        well_formed =
                            writes m.store t id (activated d tok payment now) w (λ z. refl)
                              (λ z. refl) (activate-eq m.store t id d tok payment now done);
                        same_client = refl;
                      })
                ]
              ]
            ]
      ]
    ]

extend_token-Keeps :
    (m : Manager) (store : Store) (id : String) (now : ℤ)
    → IsWellFormed store
    → Keeps m (extend_token m store id now).0
unfolding extend_token get
extend_token-Keeps m store id now w = elim (Option-cases (lookup id store.sessions)) [
  | inl missing ↦ rw (missing, extend_token) (record { well_formed = w; same_client = refl })
  | inr (x, here) ↦
      elim (Result-cases
        (generate_token m.jwt_service now id x.channel_id "" "" (remaining_time now now x))) [
          | inl (f, unsigned) ↦
              rw (here, unsigned, extend_token) (record { well_formed = w; same_client = refl })
          | inr (tok, made) ↦
              rw (here, made, extend_token)
                (record {
                  well_formed = write-IsWellFormed store id x _ w here refl refl;
                  same_client = refl;
                })
        ]
]

extend_store-IsWellFormed :
    (m : Manager) (t : Store) (id : String) (payment now : ℤ)
    → IsWellFormed m.store
    → extend_store m id payment now ≡ ok t
    → IsWellFormed t
unfolding extend_store get
extend_store-IsWellFormed m t id payment now w e =
    elim (Option-cases (lookup id m.store.sessions)) [
      | inl missing ↦ absurd (ground arith)
      | inr (x, here) ↦ elim (Result-cases (extension_length m.rate_config x.duration payment)) [
        | inl (f, full) ↦ absurd (ground arith)
        | inr (a, more) ↦ elim (Result-cases (extend m.store id a payment now)) [
          | inl (f, refused) ↦ absurd (ground arith)
          | inr (u, done) ↦ subst IsWellFormed (ground arith) (
              writes m.store u id (extended a payment now) w (λ z. refl) (λ z. refl)
                (extend-eq m.store u id a payment now done))
        ]
      ]
    ]

pub extend_session-Keeps :
    (m : Manager) (id : String) (payment now : ℤ)
    → IsWellFormed m.store
    → Keeps m (extend_session m id payment now).0
unfolding extend_session
extend_session-Keeps m id payment now w = elim (Result-cases (extend_store m id payment now)) [
  | inl (f, refused) ↦ rw (refused, extend_session) (record { well_formed = w; same_client = refl })
  | inr (t, done) ↦
      rw (done, extend_session)
        (extend_token-Keeps m t id now (extend_store-IsWellFormed m t id payment now w done))
]

pub end-Keeps :
    (c : Crypto) (m m' : Manager) (id : String) (now : ℤ)
    → IsWellFormed m.store
    → end c m id now ≡ ok m'
    → (x : Session) × (lookup id m.store.sessions ≡ some x)
      × IsWellFormed m'.store
      × (m'.perun_client ≡ settle_client c now m.perun_client x.channel_id)
unfolding end get end_session
end-Keeps c m m' id now w e = elim (Option-cases (lookup id m.store.sessions)) [
  | inl missing ↦ absurd (ground arith)
  | inr (x, here) ↦ elim (Result-cases (end_session m.store id now)) [
    | inl (f, failed) ↦ absurd (ground arith)
    | inr (t, done) ↦
        let client = settle_client c now m.perun_client x.channel_id in
        let same : record m { store = t; perun_client = client } ≡ m' = ground arith in
        (
          x,
          here,
          subst (λ n. IsWellFormed n.store) same
              (writes m.store t id (finished ended now) w (λ z. refl) (λ z. refl)
                (finish-eq ended m.store t id now done)),
          ap (λ n. n.perun_client) (sym same),
        )
  ]
]
