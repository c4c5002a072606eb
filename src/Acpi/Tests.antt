-- ===== src/Acpi/Tests.antt =====
-- The theorems on handles at a range of eight ports.
use unnamed.Prelude.{ℕ, ◌-◌, ◌^◌, ◌≡◌, ◌≢◌, refl, true, none, some, Option, [], ◌∷◌, arith}
use unnamed.Acpi.{
  word, Status, status_ok, IoMap, input, Io, Device, find, io_map, io_unmap, io_read,
}
use unnamed.Acpi.Access.{ReadPost, io_read-ReadPost, io_read-wraps, io_map-io_unmap}

abbrev map : IoMap
map = record { base = 0x60; len = 8 }

abbrev io : Io
io = record { maps = (0x5000, map) ∷ []; ops = [] }

-- Every port answers with its number.
abbrev device : Device
device ops w port = port

live : find 0x5000 io.maps ≡ some map
unfolding find
live = refl

io_read-ReadPost_example : ReadPost word 6 io map device (io_read device word 0x5000 6 true io)
io_read-ReadPost_example =
    io_read-ReadPost device word 0x5000 6 io map (omega arith) live (omega arith) (omega arith)

io_read-wraps_example :
    io_read device word 0x5000 (2 ^ 64 - 1) true io
    ≡ some (status_ok, some 0x5f, record io { ops = input word 0x5f ∷ [] })
io_read-wraps_example =
    io_read-wraps device word 0x5000 (2 ^ 64 - 1) io map (omega arith) live refl refl (omega arith)
      (omega arith) (omega arith)

abbrev opened : Status × Option ℕ × Io
opened = io_map 0x70 2 true 0x6000 io

fresh : find 0x6000 io.maps ≡ none
unfolding find
fresh = refl

io_map-io_unmap_example :
    (opened.0 ≡ status_ok)
    × (opened.1 ≡ some 0x6000)
    × (find 0x6000 opened.2.maps ≡ some (record { base = 0x70; len = 2 }))
    × ((b : ℕ)
        → (b ≢ 0x6000 → find b opened.2.maps ≡ find b io.maps)
          × (find b (io_unmap 0x6000 opened.2).maps ≡ find b io.maps))
    × (opened.2.ops ≡ io.ops)
    × ((io_unmap 0x6000 opened.2).ops ≡ io.ops)
io_map-io_unmap_example = io_map-io_unmap 0x70 2 0x6000 io (omega arith) fresh
