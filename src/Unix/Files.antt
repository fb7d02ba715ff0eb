-- ===== src/Unix/Files.antt =====
-- What `os_readfile` leaves open or allocated.
use wpa_supplicant_ex.Shared.{
  ℕ, ◌+◌, ◌-◌, ◌≡◌, List, [], ◌∷◌, none, some, arith, length, ◌==◌, if◌then◌else◌, ◌⊎◌,
}
use wpa_supplicant_ex.Unix.{FileEffect, fopen, fclose, os_malloc, os_free, FileSystem, os_readfile}

-- Files that are open, buffers that are allocated, and releases of what was not held.
pub record Held : Type 0 where
  pub files : ℕ
  pub buffers : ℕ
  pub faults : ℕ

abbrev pub apply : Held → FileEffect → Held
apply h fopen = record h { files = h.files + 1 }
apply h fclose =
    if h.files == 0 then record h { faults = h.faults + 1 } else record h { files = h.files - 1 }
apply h os_malloc = record h { buffers = h.buffers + 1 }
apply h os_free =
    if h.buffers == 0
    then record h { faults = h.faults + 1 }
    else record h { buffers = h.buffers - 1 }

abbrev pub held_from : Held → List FileEffect → Held
held_from h [] = h
held_from h (e ∷ log) = held_from (apply h e) log

abbrev pub none_held : Held
none_held = record { files = 0; buffers = 0; faults = 0 }

-- `os_readfile` closes the file whenever it has opened it. Where it returns NULL it has freed its
-- buffer; where it returns one, that is all it holds, and the buffer has as many bytes as `ftell`
-- announced.
pub os_readfile_lem :
    (fs : FileSystem)
    → let log = held_from none_held (os_readfile fs).1 in
      (((os_readfile fs).0 ≡ none) × (log ≡ none_held))
      ⊎ ((buf : List ℕ) × ((os_readfile fs).0 ≡ some buf)
          × (fs.ftell ≡ some (length buf))
          × (log ≡ record none_held { buffers = 1 }))
unfolding os_readfile
os_readfile_lem fs = ground arith
