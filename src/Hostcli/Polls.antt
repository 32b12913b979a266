-- ===== src/Hostcli/Polls.antt =====
-- What the dashboard of cmd/hostcli knows after a poll.
use air_fi.Base.{
  ◌≤◌, ◌≡◌, refl, ap, ◌∙◌, ◌≢◌, ◌⊎◌, inl, inr, String, false, not, ◌||◌, Option, none, some, List,
  [], ◌∷◌, ◌++◌, length, length-append, ltb, str_eq, eq_iff, arith, All, Bool-cases, Option-cases,
}
use air_fi.Base.Int.{ℤ}
use air_fi.Base.Map.{lookup, insert, lookup-insert_self, lookup-insert_ne}
use air_fi.Hostcli.{
  Session, shown_address, came, extended, gained, Floats, Change, Event, Dashboard, drop_oldest,
  add_event, learn, note_status, note_known, note_session, note_all, note_balance, poll,
}

same_text : (a b : String) → not (str_eq a b) ≡ false → a ≡ b
same_text a b e = ground (arith, eq_iff a b)

-- No two of the sessions have one ID.
abbrev pub AreApart : List Session → Type 0
AreApart [] = Unit {0}
AreApart (s ∷ ss) = All (λ t. s.id ≢ t.id) ss × AreApart ss

module _ {F : Type 0} where
  abbrev AtMostTen : Dashboard F → Type 0
  AtMostTen d = length d.events ≤ 10

  drop_oldest_fits : (es : List (Event F)) → length es ≤ 11 → length (drop_oldest es) ≤ 10
  drop_oldest_fits [] h = omega arith
  drop_oldest_fits (e ∷ es) h = elim (Bool-cases (ltb 10 (length (e ∷ es)))) [
    | inl many ↦ rw many (omega arith)
    | inr few ↦ rw few (ground arith)
  ]

  add_event_known : (now : ℤ) (x : Change F) (d : Dashboard F) → (add_event now x d).known ≡ d.known
  unfolding add_event
  add_event_known now x d = refl

  add_event-AtMostTen :
      (now : ℤ) (x : Change F) (d : Dashboard F) → AtMostTen d → AtMostTen (add_event now x d)
  unfolding add_event
  add_event-AtMostTen now x d h =
      drop_oldest_fits (d.events ++ (record { at = now; change = x }) ∷ [])
        (omega (arith, length-append d.events ((record { at = now; change = x }) ∷ [])))

  note_status-AtMostTen :
      (now : ℤ) (s : Session) (d : Dashboard F) → AtMostTen d → AtMostTen (note_status now s d)
  unfolding note_status
  note_status-AtMostTen now s d h = elim (Bool-cases (str_eq s.status "expired")) [
    | inl over ↦ rw (note_status, over) (add_event-AtMostTen now _ d h)
    | inr other ↦ elim (Bool-cases (str_eq s.status "settled" || str_eq s.status "ended")) [
      | inl over ↦ rw (note_status, other, over) (add_event-AtMostTen now _ d h)
      | inr live ↦ rw (note_status, other, live) h
    ]
  ]

  -- What is known of a session is what was fetched of it, as far as the dashboard shows it.
  pub record Knows (d : Dashboard F) (s : Session) : Type 0 where
    pub x : Session
    pub stored : lookup s.id d.known ≡ some x
    pub same_status : x.status ≡ s.status
    pub same_paid : x.total_paid ≡ s.total_paid
    pub same_time : x.remaining_time ≡ s.remaining_time

  note_status_known :
      (now : ℤ) (s : Session) (d : Dashboard F) → (note_status now s d).known ≡ d.known
  unfolding note_status add_event
  note_status_known now s d = elim (Bool-cases (str_eq s.status "expired")) [
    | inl over ↦ rw (note_status, over) refl
    | inr other ↦ elim (Bool-cases (str_eq s.status "settled" || str_eq s.status "ended")) [
      | inl over ↦ rw (note_status, other, over) refl
      | inr live ↦ rw (note_status, other, live) refl
    ]
  ]

  -- What one fetched session does to the dashboard.
  record Noted (s : Session) (d d' : Dashboard F) : Type 0 where
    few : AtMostTen d'
    known : (d'.known ≡ d.known) ⊎ (d'.known ≡ insert s.id s d.known)
    knows : Knows d' s

  learnt : (s : Session) (d : Dashboard F) → Knows (learn s d) s
  learnt s d = record {
    x = s;
    stored = lookup-insert_self s.id s d.known;
    same_status = refl;
    same_paid = refl;
    same_time = refl;
  }

  learn-Noted :
      (s : Session) (d d' : Dashboard F)
      → AtMostTen d'
      → d'.known ≡ d.known
      → Noted s d (learn s d')
  learn-Noted s d d' few same = record {
    few = few;
    known = inr (ap (insert s.id s) same);
    knows = learnt s d';
  }

  note_known-Noted :
      (now : ℤ) (x s : Session) (d : Dashboard F)
      → AtMostTen d
      → lookup s.id d.known ≡ some x
      → Noted s d (note_known now x s d)
  unfolding note_known
  note_known-Noted now x s d few here = elim (Bool-cases (not (str_eq x.status s.status))) [
    | inl moved ↦
        rw (note_known, moved)
          (learn-Noted s d (note_status now s d) (note_status-AtMostTen now s d few)
            (note_status_known now s d))
    | inr status ↦ elim (Bool-cases (not (str_eq x.total_paid s.total_paid))) [
      | inl more ↦
          let told = extended (shown_address s) s.total_paid in
          rw (note_known, status, more)
            (learn-Noted s d (add_event now told d) (add_event-AtMostTen now told d few)
              (add_event_known now told d))
      | inr paid ↦ elim (Bool-cases (not (str_eq x.remaining_time s.remaining_time))) [
        | inl later ↦ rw (note_known, status, paid, later) (learn-Noted s d d few refl)
        | inr time ↦
            rw (note_known, status, paid, time)
              (record {
                few = few;
                known = inl refl;
                knows = record {
                  x = x;
                  stored = here;
                  same_status = same_text x.status s.status status;
                  same_paid = same_text x.total_paid s.total_paid paid;
                  same_time = same_text x.remaining_time s.remaining_time time;
                };
              })
      ]
    ]
  ]

  note_session-Noted :
      (now : ℤ) (s : Session) (d : Dashboard F) → AtMostTen d → Noted s d (note_session now s d)
  unfolding note_session
  note_session-Noted now s d few = elim (Option-cases (lookup s.id d.known)) [
    | inl new ↦
        let told = came s.total_paid (shown_address s) in
        rw (note_session, new)
          (learn-Noted s d (add_event now told d) (add_event-AtMostTen now told d few)
            (add_event_known now told d))
    | inr (x, here) ↦ rw (note_session, here) (note_known-Noted now x s d few here)
  ]

  kept : (s t : Session) (d d' : Dashboard F) → t.id ≢ s.id → Noted s d d' → Knows d t → Knows d' t
  kept s t d d' other n k = record {
    x = k.x;
    stored = elim n.known [
      | inl same ↦ ap (lookup t.id) same ∙ k.stored
      | inr new ↦ ap (lookup t.id) new ∙ lookup-insert_ne s.id t.id s d.known other ∙ k.stored
    ];
    same_status = k.same_status;
    same_paid = k.same_paid;
    same_time = k.same_time;
  }

  note_all_kept :
      (now : ℤ) (ss : List Session) (t : Session) (d : Dashboard F)
      → AtMostTen d
      → All (λ s. t.id ≢ s.id) ss
      → Knows d t
      → Knows (note_all now ss d) t
  unfolding note_all
  note_all_kept now [] t d few apart k = k
  note_all_kept now (s ∷ ss) t d few (other, others) k =
      let n = note_session-Noted now s d few in
      note_all_kept now ss t (note_session now s d) n.few others (kept s t d _ other n k)

  note_all-Knows :
      (now : ℤ) (ss : List Session) (d : Dashboard F)
      → AtMostTen d
      → AreApart ss
      → AtMostTen (note_all now ss d) × All (Knows (note_all now ss d)) ss
  unfolding note_all
  note_all-Knows now [] d few apart = (few, tt)
  note_all-Knows now (s ∷ ss) d few (others, apart) =
      let n = note_session-Noted now s d few in
      let (fewer, rest) = note_all-Knows now ss (note_session now s d) n.few apart in
      (fewer, (note_all_kept now ss s (note_session now s d) n.few others n.knows, rest))

  note_balance-AtMostTen :
      (floats : Floats F) (now : ℤ) (w : Option F) (d : Dashboard F)
      → AtMostTen d
      → AtMostTen (note_balance floats now w d) × ((note_balance floats now w d).known ≡ d.known)
  unfolding note_balance
  note_balance-AtMostTen floats now none d few = (few, refl)
  note_balance-AtMostTen floats now (some balance) d few =
      elim (Bool-cases (floats.same balance d.last_balance)) [
        | inl same ↦ (rw (note_balance, same) few, rw (note_balance, same) refl)
        | inr moved ↦ elim (Bool-cases (floats.grew d.last_balance balance)) [
          | inl grew ↦
              let told = gained d.last_balance balance in
              (
                rw (note_balance, moved, grew) (add_event-AtMostTen now told d few),
                rw (note_balance, moved, grew) (add_event_known now told d),
              )
          | inr fell ↦ (rw (note_balance, moved, fell) few, rw (note_balance, moved, fell) refl)
        ]
      ]

  -- After a poll that fetches the sessions, no two of one ID, the dashboard knows each of them with
  -- its present status, payment and remaining time, whatever it knew before and whether or not the
  -- wallet can be fetched; and it holds at most ten events if it held no more before.
  pub poll-Knows :
      (floats : Floats F) (now : ℤ) (ss : List Session) (w : Option F) (d : Dashboard F)
      → length d.events ≤ 10
      → AreApart ss
      → (length (poll floats now (some ss) w d).events ≤ 10)
        × All (Knows (poll floats now (some ss) w d)) ss
  unfolding poll
  poll-Knows floats now ss w d few apart =
      let (fewer, all) = note_all-Knows now ss d few apart in
      let (still, same) = note_balance-AtMostTen floats now w (note_all now ss d) fewer in
      (still, All-map ss (λ s k. again s (note_all now ss d) _ same k) all)
    where
      again : (s : Session) (d d' : Dashboard F) → d'.known ≡ d.known → Knows d s → Knows d' s
      again s d d' same k = record {
        x = k.x;
        stored = ap (lookup s.id) same ∙ k.stored;
        same_status = k.same_status;
        same_paid = k.same_paid;
        same_time = k.same_time;
      }

      All-map :
          {P Q : Session → Type 0} (ss : List Session)
          → ((s : Session) → P s → Q s)
          → All P ss
          → All Q ss
      All-map [] f h = tt
      All-map (s ∷ ss) f (h, hs) = (f s h, All-map ss f hs)
