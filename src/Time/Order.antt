-- ===== src/Time/Order.antt =====
-- The helpers of `Time` against the count of microseconds that a time stands for.
use wpa_supplicant_ex.Shared.{ℕ, ◌+◌, ◌*◌, ◌<◌, ◌≡◌, ◌↔◌, true, arith}
use wpa_supplicant_ex.Shared.Int.{pos, pos_part, neg_part}
use wpa_supplicant_ex.Time.{
  Timestamp, os_time_before, os_reltime_before, os_reltime_sub, os_reltime_expired,
}

-- `0 ≤ usec < 1000000`, as the clock gives it.
abbrev pub IsNormal : Timestamp → Type 0
IsNormal t = (neg_part t.usec ≡ 0) × (pos_part t.usec < 1000000)

-- The microseconds above and below zero; their difference is the time's value.
abbrev pub ahead : Timestamp → ℕ
ahead t = pos_part t.sec * 1000000 + pos_part t.usec

abbrev pub behind : Timestamp → ℕ
behind t = neg_part t.sec * 1000000 + neg_part t.usec

-- Of two normal times `os_reltime_before` says exactly whether the first has the smaller value.
pub os_reltime_before_iff :
    (a b : Timestamp)
    → IsNormal a
    → IsNormal b
    → (os_reltime_before a b ≡ true) ↔ (ahead a + behind b < ahead b + behind a)
unfolding os_reltime_before
os_reltime_before_iff a b ha hb = ground arith

-- Of two normal times `os_time_before` says exactly whether the first has the smaller value.
pub os_time_before_iff :
    (a b : Timestamp)
    → IsNormal a
    → IsNormal b
    → (os_time_before a b ≡ true) ↔ (ahead a + behind b < ahead b + behind a)
unfolding os_time_before
os_time_before_iff a b ha hb = ground arith

-- The difference of two normal times is normal.
pub os_reltime_sub-IsNormal :
    (a b : Timestamp) → IsNormal a → IsNormal b → IsNormal (os_reltime_sub a b)
unfolding os_reltime_sub
os_reltime_sub-IsNormal a b ha hb = ground arith

-- The value of a difference is the difference of the values, whatever the fields are.
pub os_reltime_sub-value :
    (a b : Timestamp)
    → let d = os_reltime_sub a b in ahead d + behind a + ahead b ≡ behind d + ahead a + behind b
unfolding os_reltime_sub
os_reltime_sub-value a b = ground arith

-- A normal time is expired after `n` seconds exactly when more than `n` million microseconds lie
-- between it and the normal time `now`.
pub os_reltime_expired_iff :
    (now ts : Timestamp) (n : ℕ)
    → IsNormal now
    → IsNormal ts
    → (os_reltime_expired now ts (pos n) ≡ true)
      ↔ (n * 1000000 + ahead ts + behind now < ahead now + behind ts)
unfolding os_reltime_expired
os_reltime_expired_iff now ts n hn ht =
    ground (arith, os_reltime_sub-IsNormal now ts hn ht, os_reltime_sub-value now ts)
