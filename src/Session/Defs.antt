-- ===== src/Session/Defs.antt =====
-- internal/session/store.go: a session, and what can be read off it at a time `now`.
use air_fi.Base.{
  ℕ, ◌/◌, ◌%◌, ◌≡◌, String, Bool, true, false, not, Option, if◌then◌else◌, ◌++◌, arith, ltb, ◌⊎◌,
  ◌↔◌, inl, inr, Bool-cases,
}
use air_fi.Base.Int.{
  ℤ, pos, pos_part, ◌+ℤ◌, ◌-ℤ◌, ◌≤ℤ◌, ◌<ℤ◌, ltb_ℤ, non_positive, eq_of_parts, -ℤ_parts,
}
use air_fi.Base.Bytes.{Bytes, codes, decimal}
use air_fi.Perun.Config.{second, minute, hour}

pub data SessionStatus : Type 0 where
  pending active expired ended : SessionStatus

abbrev pub is_status_active : SessionStatus → Bool
is_status_active active = true
is_status_active _ = false

-- Times are nanoseconds on one clock; the zero time of an unstarted session is never read.
pub record Session : Type 0 where
  pub id : String
  pub channel_id : String
  pub guest_addr : String
  pub status : SessionStatus
  pub start_time : ℤ
  pub end_time : Option ℤ
  pub duration : ℤ
  pub total_paid : ℤ
  pub token : String
  pub created_at : ℤ
  pub updated_at : ℤ

unfoldable pub is_active : ℤ → Session → Bool
is_active now s =
    if not (is_status_active s.status) then false else ltb_ℤ now (s.start_time +ℤ s.duration)

-- The clock is read twice: at `now` for the test, and at `later` for the difference.
unfoldable pub remaining_time : ℤ → ℤ → Session → ℤ
unfolding is_active
remaining_time now later s =
    if not (is_active now s)
    then pos 0
    else let remaining = s.start_time +ℤ s.duration -ℤ later in
      if ltb_ℤ remaining (pos 0) then pos 0 else remaining

-- The hours, minutes and seconds of a duration that is not negative.
format_parts : ℕ → ℕ × ℕ × ℕ
format_parts n = (n / hour, n / minute % 60, n / second % 60)

pub remaining_time_formatted : ℤ → ℤ → Session → Bytes
unfolding remaining_time format_parts
remaining_time_formatted now later s =
    let remaining = remaining_time now later s in
    let (hours, minutes, seconds) = format_parts (pos_part remaining) in
    if non_positive remaining
    then codes "0s"
    else if ltb 0 hours
    then decimal hours ++ (codes "h " ++ (decimal minutes ++ codes "m"))
    else if ltb 0 minutes
    then decimal minutes ++ (codes "m " ++ (decimal seconds ++ codes "s"))
    else decimal seconds ++ codes "s"

is_active_iff :
    (now : ℤ) (s : Session)
    → (is_active now s ≡ true) ↔ ((s.status ≡ active) × (now <ℤ s.start_time +ℤ s.duration))
unfolding is_active
is_active_iff now s = ground arith

abbrev clip : ℤ → ℤ
clip x = if ltb_ℤ x (pos 0) then pos 0 else x

clip_cases :
    (last later : ℤ)
    → ((last ≤ℤ later) × (clip (last -ℤ later) ≡ pos 0))
      ⊎ ((later <ℤ last) × (clip (last -ℤ later) ≡ last -ℤ later) × (pos 0 <ℤ clip (last -ℤ later)))
clip_cases last later = elim (Bool-cases (ltb_ℤ later last)) [
  | inl before ↦
      inr (ground arith, ground (arith, -ℤ_parts last later), ground (arith, -ℤ_parts last later))
  | inr past ↦ inl (ground arith, eq_of_parts _ _ (ground (arith, -ℤ_parts last later)))
]

-- The time left is 0 for a session that is not active at the first reading of the clock, and for
-- one that has run out by the second; otherwise it is exactly the time from the second reading to
-- the end, which is positive.
pub remaining_time_cases :
    (now later : ℤ) (s : Session)
    → ((is_active now s ≡ false) × (remaining_time now later s ≡ pos 0))
      ⊎ ((is_active now s ≡ true)
          × (s.start_time +ℤ s.duration ≤ℤ later)
          × (remaining_time now later s ≡ pos 0))
      ⊎ ((is_active now s ≡ true)
          × (later <ℤ s.start_time +ℤ s.duration)
          × (remaining_time now later s ≡ s.start_time +ℤ s.duration -ℤ later)
          × (pos 0 <ℤ remaining_time now later s))
unfolding remaining_time
remaining_time_cases now later s = elim (Bool-cases (is_active now s)) [
  | inr e ↦ inl (e, rw (e, remaining_time))
  | inl e ↦ elim (clip_cases (s.start_time +ℤ s.duration) later) [
    | inl (past, zero_left) ↦ inr (inl (e, past, rw (e, remaining_time) zero_left))
    | inr (before, left, positive) ↦
        inr (inr (e, before, rw (e, remaining_time) left, rw (e, remaining_time) positive))
  ]
]
