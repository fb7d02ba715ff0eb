-- ===== src/Time.antt =====
-- The time helpers of src/wpa_ctrl/os.h: `struct os_time` and `struct os_reltime`, their order,
-- difference and expiry. `os_time_t` is a `long`, modelled as an integer without bounds.
pub mod Order
use wpa_supplicant_ex.Shared.{Bool, true, ◌&&◌, ◌||◌, if◌then◌else◌, not}
use wpa_supplicant_ex.Shared.Int.{ℤ, pos, negsuc, ◌+ℤ◌, ◌-ℤ◌, ltb_ℤ, eqb_ℤ}

-- Both structs have the same two fields.
pub record Timestamp : Type 0 where
  pub sec : ℤ
  pub usec : ℤ

pub os_time_before : Timestamp → Timestamp → Bool
os_time_before a b = ltb_ℤ a.sec b.sec || (eqb_ℤ a.sec b.sec && ltb_ℤ a.usec b.usec)

pub os_time_sub : Timestamp → Timestamp → Timestamp
os_time_sub a b =
    let sec = a.sec -ℤ b.sec in
    let usec = a.usec -ℤ b.usec in
    if ltb_ℤ usec (pos 0)
    then record { sec = sec -ℤ pos 1; usec = usec +ℤ pos 1000000 }
    else record { sec = sec; usec = usec }

pub os_reltime_before : Timestamp → Timestamp → Bool
os_reltime_before a b = ltb_ℤ a.sec b.sec || (eqb_ℤ a.sec b.sec && ltb_ℤ a.usec b.usec)

unfoldable pub os_reltime_sub : Timestamp → Timestamp → Timestamp
unfolding ◌-ℤ◌ ◌+ℤ◌
os_reltime_sub a b =
    let sec = a.sec -ℤ b.sec in
    let usec = a.usec -ℤ b.usec in
    if ltb_ℤ usec (pos 0)
    then record { sec = sec -ℤ pos 1; usec = usec +ℤ pos 1000000 }
    else record { sec = sec; usec = usec }

-- What has passed from `start` to the clock's `now`.
pub os_reltime_age : Timestamp → Timestamp → Timestamp
os_reltime_age now start = os_reltime_sub now start

unfoldable pub os_reltime_expired : Timestamp → Timestamp → ℤ → Bool
os_reltime_expired now ts timeout_secs =
    let age = os_reltime_sub now ts in
    ltb_ℤ timeout_secs age.sec || (eqb_ℤ age.sec timeout_secs && ltb_ℤ (pos 0) age.usec)

pub os_reltime_initialized : Timestamp → Bool
os_reltime_initialized t = not (eqb_ℤ t.sec (pos 0)) || not (eqb_ℤ t.usec (pos 0))
