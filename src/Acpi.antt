-- ===== src/Acpi.antt =====
-- kernel/acpi/uacpi_io.hpp and uacpi_io.cpp, and the port functions of kernel/acpi/glue.cpp: ranges
-- of I/O ports that the ACPI library opens, reads and writes by handles. A handle is the address of
-- an `IoMap` object; the address that `new` gives is an argument, and a device answers the reads.
pub mod Access
pub mod Glue
pub mod Early
mod Tests
use unnamed.Prelude.{
  ℕ, ◌+◌, ◌%◌, ◌^◌, Bool, not, ◌||◌, Option, none, some, List, [], ◌∷◌, ◌==◌, leb, if◌then◌else◌,
}
use unnamed.Prelude.Words.{add64}

-- The sizes of a port access
pub data Width : Type 0 where
  byte word long : Width

-- The offset of the last byte of an access: nothing, `+ 1` and `+ 3` in the guards.
unfoldable pub last : Width → ℕ
last byte = 0
last word = 1
last long = 3

pub data Status : Type 0 where
  status_ok status_invalid_argument status_unimplemented : Status

pub record IoMap : Type 0 where
  pub base : ℕ
  pub len : ℕ

pub data PortOp : Type 0 where
  input : (width : Width) → (port : ℕ) → PortOp
  output : (width : Width) → (port value : ℕ) → PortOp

-- The live `IoMap` objects by their addresses, and the port instructions executed, the latest first.
pub record Io : Type 0 where
  pub maps : List (ℕ × IoMap)
  pub ops : List PortOp

-- What the devices answer, after the instructions executed so far.
abbrev pub Device : Type 0
Device = List PortOp → Width → ℕ → ℕ

-- The sum in 64 bits, which the port instruction takes in 16.
unfoldable pub port_of : IoMap → (offset : ℕ) → ℕ
port_of map offset = add64 map.base offset % 2 ^ 16

-- The test of read8, read16, read32, write8, write16 and write32.
unfoldable pub out_of_range : Width → IoMap → (offset : ℕ) → Bool
unfolding last
out_of_range w map offset = leb map.len (add64 offset (last w))

unfoldable pub read : Device → Width → IoMap → (offset : ℕ) → Io → Option ℕ × Io
unfolding port_of out_of_range
read device w map offset io = if out_of_range w map offset then (none, io) else (
  some (device io.ops w (port_of map offset)),
  record io { ops = input w (port_of map offset) ∷ io.ops },
)

unfoldable pub write : Width → IoMap → (offset value : ℕ) → Io → Status × Io
unfolding port_of out_of_range
write w map offset value io =
    if out_of_range w map offset
    then (status_invalid_argument, io)
    else (status_ok, record io { ops = output w (port_of map offset) value ∷ io.ops })

unfoldable pub find : (handle : ℕ) → List (ℕ × IoMap) → Option IoMap
find handle [] = none
find handle ((a, map) ∷ maps) = if a == handle then some map else find handle maps

unfoldable pub remove : (handle : ℕ) → List (ℕ × IoMap) → List (ℕ × IoMap)
remove handle [] = []
remove handle ((a, map) ∷ maps) =
    let rest = remove handle maps in if a == handle then rest else (a, map) ∷ rest

-- `uacpi_kernel_io_map`: the status, and the handle written through `out_handle` if that is not
-- null. `address` is what `new` gives.
unfoldable pub io_map :
    (base len : ℕ) (out_handle : Bool) (address : ℕ) → Io → Status × Option ℕ × Io
io_map base len out_handle address io =
    if not out_handle then (status_invalid_argument, none, io) else (
      status_ok,
      some address,
      record io { maps = (address, record { base = base; len = len }) ∷ io.maps },
    )

-- `uacpi_kernel_io_unmap`
unfoldable pub io_unmap : (handle : ℕ) → Io → Io
unfolding remove
io_unmap handle io = if handle == 0 then io else record io { maps = remove handle io.maps }

read_status : Option ℕ × Io → Status × Option ℕ × Io
read_status (none, io) = (status_invalid_argument, none, io)
read_status (some value, io) = (status_ok, some value, io)

read_live : Device → Width → Option IoMap → (offset : ℕ) → Io → Option (Status × Option ℕ × Io)
unfolding read read_status
read_live device w none offset io = none
read_live device w (some map) offset io = some (read_status (read device w map offset io))

-- `uacpi_kernel_io_read8`, `read16` and `read32`: the status, and the value written through
-- `out_value` if that is not null. There is no result where the handle is not that of a live object.
unfoldable pub io_read :
    Device → Width → (handle offset : ℕ) (out_value : Bool) → Io → Option (Status × Option ℕ × Io)
unfolding find read_live
io_read device w handle offset out_value io =
    if handle == 0 || not out_value
    then some (status_invalid_argument, none, io)
    else read_live device w (find handle io.maps) offset io

write_live : Width → Option IoMap → (offset value : ℕ) → Io → Option (Status × Io)
unfolding write
write_live w none offset value io = none
write_live w (some map) offset value io = some (write w map offset value io)

-- `uacpi_kernel_io_write8`, `write16` and `write32`
unfoldable pub io_write : Width → (handle offset value : ℕ) → Io → Option (Status × Io)
unfolding find write_live
io_write w handle offset value io =
    if handle == 0
    then some (status_invalid_argument, io)
    else write_live w (find handle io.maps) offset value io
