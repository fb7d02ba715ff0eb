-- ===== src/Unix.antt =====
-- The clock, the calendar, random bytes and files of src/wpa_ctrl/os_unix.c. The C library's answers
-- are arguments.
pub mod Clock
pub mod Dates
pub mod Files
use wpa_supplicant_ex.Shared.{
  ℕ, zero, suc, ◌+◌, ◌*◌, ◌/◌, ◌||◌, Bool, true, false, List, [], ◌∷◌, ◌++◌, Option, none, some,
  ◌==◌, if◌then◌else◌, length,
}
use wpa_supplicant_ex.Shared.Int.{ℤ, pos, negsuc, ◌+ℤ◌, ◌-ℤ◌, ltb_ℤ}
use wpa_supplicant_ex.Time.{Timestamp}

-- The calls of `os_sleep`.
pub data Nap : Type 0 where
  sleep usleep : ℕ → Nap

pub os_sleep : ℕ → ℕ → List Nap
os_sleep sec usec =
    (if sec == 0 then [] else (sleep sec ∷ [])) ++ (if usec == 0 then [] else (usleep usec ∷ []))

pub data ClockId : Type 0 where
  boottime monotonic realtime : ClockId

-- `struct timespec`
pub record Timespec : Type 0 where
  pub tv_sec : ℕ
  pub tv_nsec : ℕ

-- The loop's body behind `clock_gettime`, with `again` as its next round. The result is the time
-- (`none` for -1) with the static `clock_id` afterwards.
pub after_gettime :
    (ClockId → Option Timestamp × ClockId) → ClockId → Option Timespec → Option Timestamp × ClockId
after_gettime again clock_id (some ts) =
    (some (record { sec = pos ts.tv_sec; usec = pos (ts.tv_nsec / 1000) }), clock_id)
after_gettime again boottime none = again monotonic
after_gettime again monotonic none = again realtime
after_gettime again realtime none = (none, realtime)

pub reltime_loop : ℕ → (ClockId → Option Timespec) → ClockId → Option Timestamp × ClockId
unfolding after_gettime
reltime_loop zero clock_gettime clock_id = (none, clock_id)
reltime_loop (suc fuel) clock_gettime clock_id =
    after_gettime (λ next_id. reltime_loop fuel clock_gettime next_id) clock_id
      (clock_gettime clock_id)

-- There are three clocks.
unfoldable pub os_get_reltime : (ClockId → Option Timespec) → ClockId → Option Timestamp × ClockId
unfolding reltime_loop
os_get_reltime clock_gettime clock_id = reltime_loop 3 clock_gettime clock_id

-- `struct tm`, less the fields that the code leaves to the library.
pub record Tm : Type 0 where
  pub tm_sec : ℤ
  pub tm_min : ℤ
  pub tm_hour : ℤ
  pub tm_mday : ℤ
  pub tm_mon : ℤ
  pub tm_year : ℤ

-- `struct os_tm`
pub record OsTm : Type 0 where
  pub sec : ℤ
  pub min : ℤ
  pub hour : ℤ
  pub day : ℤ
  pub month : ℤ
  pub year : ℤ

-- The guard of `os_mktime`.
unfoldable pub is_out_of_range : OsTm → Bool
is_out_of_range d =
    ltb_ℤ d.year (pos 1970)
    || ltb_ℤ d.month (pos 1)
    || ltb_ℤ (pos 12) d.month
    || ltb_ℤ d.day (pos 1)
    || ltb_ℤ (pos 31) d.day
    || ltb_ℤ d.hour (pos 0)
    || ltb_ℤ (pos 23) d.hour
    || ltb_ℤ d.min (pos 0)
    || ltb_ℤ (pos 59) d.min
    || ltb_ℤ d.sec (pos 0)
    || ltb_ℤ (pos 60) d.sec

unfoldable pub to_tm : OsTm → Tm
to_tm d = record {
  tm_sec = d.sec;
  tm_min = d.min;
  tm_hour = d.hour;
  tm_mday = d.day;
  tm_mon = d.month -ℤ pos 1;
  tm_year = d.year -ℤ pos 1900;
}

-- What the C library knows of calendars; `none` is NULL.
pub record Calendar : Type 0 where
  pub mktime : Tm → ℤ
  pub localtime : ℤ → Option Tm
  pub gmtime : ℤ → Option Tm

unfoldable pub tz_offset : Calendar → ℤ → ℤ
tz_offset c t_local = elim (c.localtime t_local) [
  | none ↦ pos 0
  | some tm1 ↦ elim (c.gmtime t_local) [ none ↦ pos 0 | some tm2 ↦ c.mktime tm2 -ℤ c.mktime tm1 ]
]

-- `none` is the result -1.
unfoldable pub os_mktime : Calendar → OsTm → Option ℤ
unfolding is_out_of_range to_tm tz_offset
os_mktime c d =
    if is_out_of_range d
    then none
    else (let t_local = c.mktime (to_tm d) in some (t_local -ℤ tz_offset c t_local))

unfoldable pub os_gmtime : Calendar → ℤ → Option OsTm
os_gmtime c t = elim (c.gmtime t) [
  | none ↦ none
  | some tm2 ↦ some (record {
    sec = tm2.tm_sec;
    min = tm2.tm_min;
    hour = tm2.tm_hour;
    day = tm2.tm_mday;
    month = tm2.tm_mon +ℤ pos 1;
    year = tm2.tm_year +ℤ pos 1900;
  })
]

-- What is done to a file and to memory.
pub data FileEffect : Type 0 where
  fopen fclose os_malloc os_free : FileEffect

-- The answers to the calls on a file, in the order of the code; `fread` gives the bytes it read.
pub record FileSystem : Type 0 where
  pub opens : Bool
  pub seeks_end : Bool
  pub ftell : Option ℕ
  pub seeks_start : Bool
  pub mallocs : Bool
  pub fread : ℕ → List ℕ

-- The bytes that are in `buf` where the result is 0.
unfoldable pub os_get_random : FileSystem → ℕ → Option (List ℕ) × List FileEffect
os_get_random fs len =
    if fs.opens
    then (let rc = length (fs.fread len) in
        (if rc == len then some (fs.fread len) else none, fopen ∷ fclose ∷ []))
    else (none, [])

-- The result, with `*len` as its length, and the log.
unfoldable pub os_readfile : FileSystem → Option (List ℕ) × List FileEffect
os_readfile fs =
    if fs.opens
    then (if fs.seeks_end
        then elim fs.ftell [
          | none ↦ (none, fopen ∷ fclose ∷ [])
          | some len ↦
              if fs.seeks_start
              then (if fs.mallocs
                  then (if length (fs.fread len) == len
                      then (some (fs.fread len), fopen ∷ os_malloc ∷ fclose ∷ [])
                      else (none, fopen ∷ os_malloc ∷ fclose ∷ os_free ∷ []))
                  else (none, fopen ∷ fclose ∷ []))
              else (none, fopen ∷ fclose ∷ [])
        ]
        else (none, fopen ∷ fclose ∷ []))
    else (none, [])
