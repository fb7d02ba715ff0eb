-- ===== src/Unix/Clock.antt =====
-- `os_get_reltime` and its fallback from clock to clock.
use wpa_supplicant_ex.Shared.{
  ℕ, suc, ◌+◌, ◌/◌, ◌≤◌, ◌<◌, ◌≡◌, ◌⊎◌, inl, inr, refl, sym, ap, ◌∙◌, subst, Option, none, some,
  arith,
}
use native.Mathlib.Decide.{dec_lt}
use wpa_supplicant_ex.Shared.Int.{pos}
use wpa_supplicant_ex.Time.{Timestamp}
use wpa_supplicant_ex.Unix.{
  ClockId, boottime, monotonic, realtime, Timespec, after_gettime, reltime_loop, os_get_reltime,
}

-- How far down the list of clocks one is.
abbrev pub rank : ClockId → ℕ
rank boottime = 0
rank monotonic = 1
rank realtime = 2

rank-injective : (c d : ClockId) → rank c ≡ rank d → c ≡ d
rank-injective boottime boottime h = refl
rank-injective boottime monotonic h = absurd (omega arith)
rank-injective boottime realtime h = absurd (omega arith)
rank-injective monotonic boottime h = absurd (omega arith)
rank-injective monotonic monotonic h = refl
rank-injective monotonic realtime h = absurd (omega arith)
rank-injective realtime boottime h = absurd (omega arith)
rank-injective realtime monotonic h = absurd (omega arith)
rank-injective realtime realtime h = refl

module _ (clock_gettime : ClockId → Option Timespec) where
  -- The time of the first clock that works from `c` on, with no clock that works before it.
  abbrev pub IsFirst : ClockId → Option Timestamp × ClockId → Type 0
  IsFirst c o =
      (d : ClockId) × (ts : Timespec) × (clock_gettime d ≡ some ts)
      × (o ≡ (some (record { sec = pos ts.tv_sec; usec = pos (ts.tv_nsec / 1000) }), d))
      × (rank c ≤ rank d)
      × ((e : ClockId) → rank c ≤ rank e → rank e < rank d → clock_gettime e ≡ none)

  -- No clock works from `c` on.
  abbrev pub AllFail : ClockId → Option Timestamp × ClockId → Type 0
  AllFail c o = (o ≡ (none, realtime)) × ((e : ClockId) → rank c ≤ rank e → clock_gettime e ≡ none)

  answer :
      (c : ClockId) → (clock_gettime c ≡ none) ⊎ ((ts : Timespec) × (clock_gettime c ≡ some ts))
  answer c = of (clock_gettime c)
    where
      of : (a : Option Timespec) → (a ≡ none) ⊎ ((ts : Timespec) × (a ≡ some ts))
      of none = inl refl
      of (some ts) = inr (ts, refl)

  -- A clock ahead of the others that fails changes nothing.
  failing_ahead :
      (c d : ClockId) (o : Option Timestamp × ClockId)
      → clock_gettime c ≡ none
      → rank d ≡ rank c + 1
      → IsFirst d o ⊎ AllFail d o
      → IsFirst c o ⊎ AllFail c o
  failing_ahead c d o fails behind (inl (e, ts, works, same, after, before)) = inl (
    e,
    ts,
    works,
    same,
    omega arith,
    λ f h k. elim (dec_lt (rank c) (rank f)) [
      | yes past ↦ before f (omega arith) k
      | no here ↦ ap clock_gettime (rank-injective f c (omega arith)) ∙ fails
    ],
  )
  failing_ahead c d o fails behind (inr (same, none_works)) = inr (
    same,
    λ f h. elim (dec_lt (rank c) (rank f)) [
      | yes past ↦ none_works f (omega arith)
      | no here ↦ ap clock_gettime (rank-injective f c (omega arith)) ∙ fails
    ],
  )

  round :
      (fuel : ℕ) (c : ClockId) {a : Option Timespec}
      → clock_gettime c ≡ a
      → reltime_loop (suc fuel) clock_gettime c
        ≡ after_gettime (λ d. reltime_loop fuel clock_gettime d) c a
  unfolding reltime_loop
  round fuel c e = ap (after_gettime (λ d. reltime_loop fuel clock_gettime d) c) e

  reltime_loop-works :
      (fuel : ℕ) (c : ClockId) (ts : Timespec)
      → clock_gettime c ≡ some ts
      → IsFirst c (reltime_loop (suc fuel) clock_gettime c)
  reltime_loop-works fuel c ts works = (
    c,
    ts,
    works,
    round fuel c works ∙ (unfold after_gettime in refl),
    omega arith,
    λ e h k. absurd (omega arith),
  )

  from_realtime :
      (fuel : ℕ)
      → let o = reltime_loop (suc fuel) clock_gettime realtime in
        IsFirst realtime o ⊎ AllFail realtime o
  from_realtime fuel = elim (answer realtime) [
    | inr w ↦ inl (reltime_loop-works fuel realtime w.0 w.1)
    | inl fails ↦ inr (
      round fuel realtime fails ∙ (unfold after_gettime in refl),
      λ e h. ap clock_gettime (rank-injective e realtime (last e h)) ∙ fails,
    )
  ]
    where
      last : (e : ClockId) → 2 ≤ rank e → rank e ≡ 2
      last boottime h = absurd (omega arith)
      last monotonic h = absurd (omega arith)
      last realtime h = refl

  from_next :
      (fuel : ℕ) (c d : ClockId)
      → after_gettime (λ n. reltime_loop fuel clock_gettime n) c none
        ≡ reltime_loop fuel clock_gettime d
      → rank d ≡ rank c + 1
      → (let o = reltime_loop fuel clock_gettime d in IsFirst d o ⊎ AllFail d o)
      → let o = reltime_loop (suc fuel) clock_gettime c in IsFirst c o ⊎ AllFail c o
  from_next fuel c d next behind rest = elim (answer c) [
    | inr w ↦ inl (reltime_loop-works fuel c w.0 w.1)
    | inl fails ↦
        failing_ahead c d _ fails behind
          (subst (λ o. IsFirst d o ⊎ AllFail d o) (sym (round fuel c fails ∙ next)) rest)
  ]

  -- `os_get_reltime` takes the first clock that works from the static one on and stays with it: every
  -- clock ahead of that one fails, and the time is that clock's, in microseconds. Or it fails, and
  -- none of these clocks works.
  pub os_get_reltime_lem :
      (c : ClockId) → let o = os_get_reltime clock_gettime c in IsFirst c o ⊎ AllFail c o
  unfolding os_get_reltime after_gettime
  os_get_reltime_lem boottime =
      from_next 2 boottime monotonic refl refl
        (from_next 1 monotonic realtime refl refl (from_realtime 0))
  os_get_reltime_lem monotonic = from_next 2 monotonic realtime refl refl (from_realtime 1)
  os_get_reltime_lem realtime = from_realtime 2
