-- ===== src/Unix/Dates.antt =====
-- `os_mktime` and `os_gmtime` in a zone with a fixed offset from UTC.
use wpa_supplicant_ex.Shared.{
  ◌≡◌, refl, ap, ◌∙◌, Option, none, some, false, if◌then◌else◌, Bool-cases, inl, inr, ap₂,
}
use wpa_supplicant_ex.Shared.Int.{ℤ, pos, ◌+ℤ◌, ◌-ℤ◌, int_laws}
use wpa_supplicant_ex.Unix.{
  Tm, OsTm, Calendar, is_out_of_range, to_tm, tz_offset, os_mktime, os_gmtime,
}

-- A calendar in a zone that is `off` seconds ahead of UTC: `utc` counts the seconds of a broken-down
-- time, and `broken` is its inverse from seconds.
abbrev pub zone : (Tm → ℤ) → (ℤ → Tm) → ℤ → Calendar
zone utc broken off = record {
  mktime = λ tm. utc tm -ℤ off;
  localtime = λ t. some (broken (t +ℤ off));
  gmtime = λ t. some (broken t);
}

module _ (utc : Tm → ℤ) (broken : ℤ → Tm) (off : ℤ) (counts : (t : ℤ) → utc (broken t) ≡ t) where
  -- In a zone with a fixed offset `os_mktime` refuses a date out of range, and takes any other for UTC,
  -- whatever the offset is.
  pub os_mktime-zone :
      (d : OsTm)
      → os_mktime (zone utc broken off) d
        ≡ (if is_out_of_range d then none else some (utc (to_tm d)))
  unfolding os_mktime tz_offset
  os_mktime-zone d = elim (Bool-cases (is_out_of_range d)) [
    | inl bad ↦ rw bad refl
    | inr good ↦
        rw good (ap (λ z. some (utc (to_tm d) -ℤ off -ℤ z)) offset ∙ ap some (omega int_laws))
  ]
    where
      local : ℤ
      local = utc (to_tm d) -ℤ off

      offset : utc (broken local) -ℤ off -ℤ (utc (broken (local +ℤ off)) -ℤ off) ≡ pos 0 -ℤ off
      offset =
          ap₂ (λ a b. a -ℤ off -ℤ (b -ℤ off)) (counts local) (counts (local +ℤ off))
          ∙ omega int_laws

  -- A date in range that the calendar breaks down as it was put together comes back from `os_mktime`
  -- by `os_gmtime`.
  pub os_gmtime-os_mktime :
      (d : OsTm)
      → is_out_of_range d ≡ false
      → broken (utc (to_tm d)) ≡ to_tm d
      → (t : ℤ) × (os_mktime (zone utc broken off) d ≡ some t)
        × (os_gmtime (zone utc broken off) t ≡ some d)
  unfolding os_gmtime to_tm
  os_gmtime-os_mktime d valid same = (
    utc (to_tm d),
    os_mktime-zone d ∙ rw valid refl,
    ap read_back same
        ∙ ap₂ (λ m y. some (record d { month = m; year = y })) (omega int_laws) (omega int_laws),
  )
    where
      read_back : Tm → Option OsTm
      read_back tm = some (record {
        sec = tm.tm_sec;
        min = tm.tm_min;
        hour = tm.tm_hour;
        day = tm.tm_mday;
        month = tm.tm_mon +ℤ pos 1;
        year = tm.tm_year +ℤ pos 1900;
      })
