-- ===== src/Api/Safety/Sound.antt =====
-- What requests to internal/api keep, and that opening a channel keeps it.
use air_fi.Base.{ℕ, ◌+◌, ◌≡◌, sym, ◌∙◌, subst, inl, inr, String, Bool, Option, none, Result-cases}
use air_fi.Base.Int.{ℤ}
use air_fi.Base.Map.{lookup}
use air_fi.Perun.Crypto.{Crypto}
use air_fi.Perun.Channel.{Channel}
use air_fi.Perun.Client.{open_channel as open_perun_channel}
use air_fi.Perun.Client.Channels.{
  Fits, HoldsValid, HoldsValid_later, insert-HoldsValid, open_channel-HoldsValid,
}
use air_fi.Session.Store.Invariant.{IsWellFormed}
use air_fi.Session.Manager.{Manager, create_session, activate_session}
use air_fi.Session.Manager.Maps.{Keeps, create_session-Keeps, activate_session-Keeps}
use air_fi.Api.{Handler, OpenChannelRequest}
use air_fi.Api.Handlers.{
  manager_of, client_after, with_manager, put_channel, opening_amount, perun_request, open_session,
  open_channel,
}

module _ (c : Crypto) where
  -- Channels that at most `n` payments have changed.
  pub record IsSound (n : ℕ) (h : Handler) : Type 0 where
    pub held : HoldsValid c n h.perun_client.channels
    pub agreed : IsWellFormed h.session_manager.store

  pub later-IsSound : (n : ℕ) (h : Handler) → IsSound n h → IsSound (n + 1) h
  later-IsSound n h s = record {
    held = HoldsValid_later c n h.perun_client.channels s.held;
    agreed = s.agreed;
  }

  pub with_manager-IsSound :
      (n : ℕ) (h : Handler) (m : Manager)
      → IsSound n h
      → Keeps (manager_of h) m
      → IsSound n (with_manager h m)
  with_manager-IsSound n h m s k = record {
    held =
        subst (λ cl. HoldsValid c n (client_after h.perun_client cl).channels) (sym k.same_client)
          s.held;
    agreed = k.well_formed;
  }

  pub put_channel-IsSound :
      (n : ℕ) (h : Handler) (id : String) (ch : Channel)
      → IsSound n h
      → Fits c n id ch
      → IsSound n (put_channel h id ch)
  put_channel-IsSound n h id ch s f = record {
    held = insert-HoldsValid c n h.perun_client.channels id ch s.held f;
    agreed = s.agreed;
  }

  open_session-IsSound :
      (n : ℕ) (h : Handler) (id : String) (ch : Channel) (guest : String) (amount now : ℤ)
      → lookup id h.session_manager.store.sessions ≡ none
      → IsSound n h
      → IsSound n (open_session c h id ch guest amount now).0
  unfolding open_session
  open_session-IsSound n h id ch guest amount now fresh s =
      elim (Result-cases (create_session (manager_of h) id ch.id guest now)) [
        | inl (e, busy) ↦ rw (open_session, busy) s
        | inr ((m, x), made) ↦
            let k =
              create_session-Keeps (manager_of h) m id ch.id guest now x s.agreed fresh made in
            elim (Result-cases (activate_session m x.id amount now)) [
              | inl (e, refused) ↦ rw (open_session, made, refused) (with_manager-IsSound n h m s k)
              | inr ((m', x', token), done) ↦
                  let k' =
                    activate_session-Keeps m m' x.id amount now x' token k.well_formed done in
                  rw (open_session, made, done)
                    (with_manager-IsSound n h m' s (record {
                      well_formed = k'.well_formed;
                      same_client = k'.same_client ∙ k.same_client;
                    }))
            ]
      ]

  pub open_channel-IsSound :
      (n : ℕ) (h : Handler) (req : Option OpenChannelRequest) (channel_id session_id : String)
      (now : ℤ) (cancel : Bool)
      → lookup session_id h.session_manager.store.sessions ≡ none
      → IsSound n h
      → IsSound n (open_channel c h req channel_id session_id now cancel).0
  unfolding open_channel
  open_channel-IsSound n h req channel_id session_id now cancel fresh s =
      elim (Result-cases (opening_amount req)) [
        | inl (r, bad) ↦ rw (open_channel, bad) s
        | inr ((guest, amount), good) ↦
            let request = perun_request c guest amount in
            let r = open_perun_channel c h.perun_client request channel_id now cancel in
            let opened : IsSound n (record h { perun_client = r.0 }) = record {
              held =
                  open_channel-HoldsValid c n h.perun_client request channel_id now cancel s.held;
              agreed = s.agreed;
            } in
            elim (Result-cases r.1) [
              | inl (e, failed) ↦ rw (open_channel, good, failed) opened
              | inr (ch, done) ↦
                  rw (open_channel, good, done)
                    (open_session-IsSound n (record h { perun_client = r.0 }) session_id ch guest
                      amount now fresh opened)
            ]
      ]
