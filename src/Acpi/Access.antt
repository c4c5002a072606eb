-- ===== src/Acpi/Access.antt =====
-- Which ports the accesses through handles reach, and how long a handle lives.
use unnamed.Prelude.{
  ℕ, ◌+◌, ◌-◌, ◌%◌, ◌^◌, ◌≤◌, ◌<◌, ◌≡◌, ◌≢◌, refl, ap, sym, ◌∙◌, ◌⊎◌, inl, inr, true, false, none,
  some, Option, List, [], ◌∷◌, arith, ◌==◌, leb, leb→le, Bool-cases, ==_iff, if◌then◌else◌,
}
use unnamed.Prelude.Words.{add64}
use unnamed.Acpi.{
  Width, byte, word, long, last, Status, status_ok, status_invalid_argument, IoMap, input, output,
  Io, Device, port_of, out_of_range, read, write, find, remove, io_map, io_unmap, io_read, io_write,
}

-- The number of ports of an access
abbrev pub bytes : Width → ℕ
bytes byte = 1
bytes word = 2
bytes long = 4

last_lem : (w : Width) → last w + 1 ≡ bytes w
unfolding last
last_lem byte = refl
last_lem word = refl
last_lem long = refl

bytes_small : (w : Width) → bytes w ≤ 4
bytes_small byte = omega arith
bytes_small word = omega arith
bytes_small long = omega arith

-- The ports of the range exist.
abbrev pub IsPorts : IoMap → Type 0
IsPorts map = map.base + map.len ≤ 2 ^ 16

module _ (w : Width) (map : IoMap) (offset : ℕ) (ports : IsPorts map)
    (no_wrap : offset + 4 ≤ 2 ^ 64) where
  inside : offset + bytes w ≤ map.len → out_of_range w map offset ≡ false
  unfolding out_of_range
  inside h = ground (arith, last_lem w)

  outside : map.len < offset + bytes w → out_of_range w map offset ≡ true
  unfolding out_of_range
  outside h = (let e = last_lem w in let s = bytes_small w in ground arith)

  port_lem : offset + bytes w ≤ map.len → port_of map offset ≡ map.base + offset
  unfolding port_of
  port_lem h = omega (arith, last_lem w)

-- What an access does: one instruction inside the range, or none.
module _ (w : Width) (offset : ℕ) (io : Io) (map : IoMap) where
  abbrev pub ReadPost : Device → Option (Status × Option ℕ × Io) → Type 0
  ReadPost device r =
      ((offset + bytes w ≤ map.len)
        × (r
            ≡ some (
              status_ok,
              some (device io.ops w (map.base + offset)),
              record io { ops = input w (map.base + offset) ∷ io.ops },
            )))
      ⊎ ((map.len < offset + bytes w) × (r ≡ some (status_invalid_argument, none, io)))

  abbrev pub WritePost : (value : ℕ) → Option (Status × Io) → Type 0
  WritePost value r =
      ((offset + bytes w ≤ map.len)
        × (r ≡ some (status_ok, record io { ops = output w (map.base + offset) value ∷ io.ops })))
      ⊎ ((map.len < offset + bytes w) × (r ≡ some (status_invalid_argument, io)))

module _ (device : Device) (w : Width) (handle offset : ℕ) (io : Io) (map : IoMap)
    (some_handle : 0 < handle) (live : find handle io.maps ≡ some map) where
  not_null : (handle == 0) ≡ false
  not_null = ground arith

  module _ (ports : IsPorts map) (no_wrap : offset + 4 ≤ 2 ^ 64) where
    -- A read through a live handle, of a range whose ports exist and at an offset below 2^64 - 3,
    -- executes one port instruction at the base plus the offset and writes out its answer if the
    -- access lies inside the range, and returns INVALID_ARGUMENT with no instruction if not.
    pub io_read-ReadPost : ReadPost w offset io map device (io_read device w handle offset true io)
    unfolding io_read read
    io_read-ReadPost =
        rw (not_null, live)
          (elim (Bool-cases (leb (offset + bytes w) map.len)) [
            | inl fit ↦
                let le = leb→le _ _ fit in
                rw (inside w map offset ports no_wrap le, port_lem w map offset ports no_wrap le)
                  (inl (le, refl))
            | inr off ↦
                let lt : map.len < offset + bytes w = ground arith in
                rw (outside w map offset ports no_wrap lt) (inr (lt, refl))
          ])

    -- A write through a live handle, of a range whose ports exist and at an offset below 2^64 - 3,
    -- executes one port instruction at the base plus the offset if the access lies inside the
    -- range, and returns INVALID_ARGUMENT with no instruction if not.
    pub io_write-WritePost :
        (value : ℕ) → WritePost w offset io map value (io_write w handle offset value io)
    unfolding io_write write
    io_write-WritePost value =
        rw (not_null, live)
          (elim (Bool-cases (leb (offset + bytes w) map.len)) [
            | inl fit ↦
                let le = leb→le _ _ fit in
                rw (inside w map offset ports no_wrap le, port_lem w map offset ports no_wrap le)
                  (inl (le, refl))
            | inr off ↦
                let lt : map.len < offset + bytes w = ground arith in
                rw (outside w map offset ports no_wrap lt) (inr (lt, refl))
          ])

  -- At the offset 2^64 - 1 the guard of a 16-bit read wraps: through a live handle of a range that
  -- is not empty and does not begin at port 0, the port before the range is read.
  pub io_read-wraps :
      w ≡ word
      → offset ≡ 2 ^ 64 - 1
      → 0 < map.len
      → 0 < map.base
      → map.base ≤ 2 ^ 16
      → io_read device w handle offset true io
        ≡ some (
          status_ok,
          some (device io.ops word (map.base - 1)),
          record io { ops = input word (map.base - 1) ∷ io.ops },
        )
  unfolding io_read read out_of_range port_of last
  io_read-wraps e at room low high =
      let sum : add64 offset 1 ≡ 0 = omega arith in
      let passes : leb map.len 0 ≡ false = ground arith in
      let port : add64 map.base offset % 2 ^ 16 ≡ map.base - 1 = omega arith in
      rw (not_null, live, e, sum, passes, port)

-- `a` is not the address of a live object.
abbrev pub IsFresh : ℕ → List (ℕ × IoMap) → Type 0
IsFresh a maps = find a maps ≡ none

find-remove :
    (a b : ℕ) (maps : List (ℕ × IoMap))
    → find b (remove a maps) ≡ (if a == b then none else find b maps)
unfolding find remove
find-remove a b [] = ground arith
find-remove a b ((c, map) ∷ maps) = ground (arith, find-remove a b maps)

module _ (base len address : ℕ) (io : Io) (some_address : 0 < address)
    (fresh : IsFresh address io.maps) where
  abbrev opened : Status × Option ℕ × Io
  opened = io_map base len true address io

  unused : (b : ℕ) → (if address == b then none else find b io.maps) ≡ find b io.maps
  unused b = elim (Bool-cases (address == b)) [
    | inl e ↦ rw (e, ap (λ q. find q io.maps) (sym ((==_iff _ _).0 e)), fresh)
    | inr e ↦ rw e
  ]

  -- Where `new` gives an address that is not null and not that of a live object, `io_map` returns
  -- it as a handle of the range asked for; every other handle stands for what it stood for, and
  -- after `io_unmap` of the new one every handle does. Neither executes a port instruction.
  pub io_map-io_unmap :
      (opened.0 ≡ status_ok)
      × (opened.1 ≡ some address)
      × (find address opened.2.maps ≡ some (record { base = base; len = len }))
      × ((b : ℕ)
          → (b ≢ address → find b opened.2.maps ≡ find b io.maps)
            × (find b (io_unmap address opened.2).maps ≡ find b io.maps))
      × (opened.2.ops ≡ io.ops)
      × ((io_unmap address opened.2).ops ≡ io.ops)
  unfolding io_map io_unmap find remove
  io_map-io_unmap =
      let same : (address == address) ≡ true = ground arith in
      let ne : (address == 0) ≡ false = ground arith in
      (
        refl,
        refl,
        rw same,
        λ b. (λ other. ground arith, rw (ne, same) (find-remove address b io.maps ∙ unused b)),
        refl,
        rw ne,
      )
