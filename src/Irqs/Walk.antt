-- ===== src/Irqs/Walk.antt =====
-- What the walk over the MADT collects, and when it does not end.
use mathlib.Core.List.{append-nil, append_assoc}
use unnamed.Prelude.{
  ℕ, zero, suc, ◌+◌, ◌-◌, ◌^◌, ◌≤◌, ◌<◌, ◌≡◌, ◌≢◌, refl, ap, sym, ◌∙◌, List, [], ◌∷◌, ◌++◌, arith,
  ◌==◌, ltb, Bool-cases, inl, inr, if◌then◌else◌, true, false, length, length-append,
}
use unnamed.Prelude.Words.{add64}
use unnamed.Run.{ok, out_of_fuel}
use unnamed.Vma.Link.{==-false}
use unnamed.Irqs.{
  Madt, Tables, push, handle_entry, entry_address, walk_entries, entries_size, load_entries,
}

-- The entries at the offsets follow one another from `read` to the end of the table, each of a
-- positive length that its header's byte can hold.
abbrev pub Follow : Madt → (size read : ℕ) → List ℕ → Type 0
Follow madt size read [] = size ≤ read
Follow madt size read (o ∷ os) =
    (o ≡ read)
    × (read < size)
    × (0 < madt.length_of (entry_address madt read))
    × (madt.length_of (entry_address madt read) < 256)
    × Follow madt size (read + madt.length_of (entry_address madt read)) os

-- The addresses of the entries of a type, in order.
unfoldable pub of_type : Madt → (type : ℕ) → List ℕ → List ℕ
of_type madt type [] = []
of_type madt type (o ∷ os) =
    let rest = of_type madt type os in
    let e = entry_address madt o in if madt.type_of e == type then e ∷ rest else rest

-- Every vector ends with the entries of its type.
unfoldable pub collected : Madt → List ℕ → Tables → Tables
collected madt os t = record {
  lapic_table = t.lapic_table ++ of_type madt madt.type_lapic os;
  lapic_nmi_table = t.lapic_nmi_table ++ of_type madt madt.type_lapic_nmi os;
  interrupt_source_override_table =
      t.interrupt_source_override_table ++ of_type madt madt.type_interrupt_source_override os;
  ioapic_table = t.ioapic_table ++ of_type madt madt.type_ioapic os;
  has_room = t.has_room;
}

-- The types of the `switch` are different numbers.
pub record AreDistinct (madt : Madt) : Type 0 where
  pub lapic_nmi : madt.type_lapic ≢ madt.type_lapic_nmi
  pub lapic_iso : madt.type_lapic ≢ madt.type_interrupt_source_override
  pub lapic_ioapic : madt.type_lapic ≢ madt.type_ioapic
  pub nmi_iso : madt.type_lapic_nmi ≢ madt.type_interrupt_source_override
  pub nmi_ioapic : madt.type_lapic_nmi ≢ madt.type_ioapic
  pub iso_ioapic : madt.type_interrupt_source_override ≢ madt.type_ioapic

Follow-length :
    (madt : Madt) (size read : ℕ) (os : List ℕ) → Follow madt size read os → length os ≤ size - read
Follow-length madt size read [] f = omega arith
Follow-length madt size read (o ∷ os) (here, more, pos, byte, rest) =
    let ih = Follow-length madt size (read + madt.length_of (entry_address madt read)) os rest in
    omega arith

-- The entry is of none of the types that the `switch` knows.
pub record IsOther (madt : Madt) (e : ℕ) : Type 0 where
  pub lapic : madt.type_of e ≢ madt.type_lapic
  pub lapic_nmi : madt.type_of e ≢ madt.type_lapic_nmi
  pub iso : madt.type_of e ≢ madt.type_interrupt_source_override
  pub ioapic : madt.type_of e ≢ madt.type_ioapic

endless :
    (madt : Madt) (rounds size : ℕ) (t : Tables)
    → 0 < size
    → madt.length_of (entry_address madt 0) ≡ 0
    → IsOther madt (entry_address madt 0)
    → walk_entries madt rounds size 0 t ≡ out_of_fuel
unfolding walk_entries handle_entry
endless madt zero size t more empty is = refl
endless madt (suc n) size t more empty is =
    let going : ltb 0 size ≡ true = ground arith in
    rw
      (
        going,
        ==-false _ _ is.lapic,
        ==-false _ _ is.lapic_nmi,
        ==-false _ _ is.iso,
        ==-false _ _ is.ioapic,
        empty,
      )
      (endless madt n size t more empty is)

-- There is memory for `count` elements more.
abbrev pub Roomy : Tables → List ℕ → (count : ℕ) → Type 0
Roomy t xs count = (n : ℕ) → n < length xs + count → t.has_room n ≡ true

abbrev pub HasRoom : Tables → (count : ℕ) → Type 0
HasRoom t count =
    Roomy t t.lapic_table count
    × Roomy t t.lapic_nmi_table count
    × Roomy t t.interrupt_source_override_table count
    × Roomy t t.ioapic_table count

module _ (madt : Madt) (distinct : AreDistinct madt) where
  one : (type e : ℕ) → List ℕ
  one type e = if madt.type_of e == type then e ∷ [] else []

  abbrev added : ℕ → Tables → Tables
  added e t = record {
    lapic_table = t.lapic_table ++ one madt.type_lapic e;
    lapic_nmi_table = t.lapic_nmi_table ++ one madt.type_lapic_nmi e;
    interrupt_source_override_table =
        t.interrupt_source_override_table ++ one madt.type_interrupt_source_override e;
    ioapic_table = t.ioapic_table ++ one madt.type_ioapic e;
    has_room = t.has_room;
  }

  other : (x a b : ℕ) → a ≢ b → (x == a) ≡ true → (x == b) ≡ false
  other x a b ne e = ground arith

  handle_entry-added :
      (e : ℕ) (t : Tables) (count : ℕ)
      → HasRoom t (suc count)
      → handle_entry madt e t ≡ ok tt (added e t)
  unfolding handle_entry push one
  handle_entry-added e t count (rl, rn, ri, ra) =
      let room_l = rl (length t.lapic_table) (omega arith) in
      let room_n = rn (length t.lapic_nmi_table) (omega arith) in
      let room_i = ri (length t.interrupt_source_override_table) (omega arith) in
      let room_a = ra (length t.ioapic_table) (omega arith) in
      let x = madt.type_of e in
      let l = madt.type_lapic in
      let n = madt.type_lapic_nmi in
      let i = madt.type_interrupt_source_override in
      let a = madt.type_ioapic in
      let ll = append-nil t.lapic_table in
      let nn = append-nil t.lapic_nmi_table in
      let ii = append-nil t.interrupt_source_override_table in
      let aa = append-nil t.ioapic_table in
      elim (Bool-cases (x == l)) [
        | inl p ↦ rw (
          p,
          room_l,
          other x l n distinct.lapic_nmi p,
          other x l i distinct.lapic_iso p,
          other x l a distinct.lapic_ioapic p,
          nn,
          ii,
          aa,
        )
        | inr p ↦ elim (Bool-cases (x == n)) [
          | inl q ↦ rw (
            p,
            q,
            room_n,
            other x n i distinct.nmi_iso q,
            other x n a distinct.nmi_ioapic q,
            ll,
            ii,
            aa,
          )
          | inr q ↦ elim (Bool-cases (x == i)) [
            | inl r ↦ rw (p, q, r, room_i, other x i a distinct.iso_ioapic r, ll, nn, aa)
            | inr r ↦ elim (Bool-cases (x == a)) [
              | inl s ↦ rw (p, q, r, s, room_a, ll, nn, ii)
              | inr s ↦ rw (p, q, r, s, ll, nn, ii, aa)
            ]
          ]
        ]
      ]

  Roomy-one :
      (t : Tables) (xs : List ℕ) (type e count : ℕ)
      → Roomy t xs (suc count)
      → Roomy t (xs ++ one type e) count
  unfolding one
  Roomy-one t xs type e count room n lt = room n (elim (Bool-cases (madt.type_of e == type)) [
    | inl is ↦ (let few = rw is at lt in let l = length-append xs (e ∷ []) in omega arith)
    | inr is ↦ (let few = rw (is, append-nil xs) at lt in omega arith)
  ])

  field_step :
      (type o : ℕ) (os xs : List ℕ)
      → (xs ++ one type (entry_address madt o)) ++ of_type madt type os
        ≡ xs ++ of_type madt type (o ∷ os)
  unfolding one of_type
  field_step type o os xs = elim (Bool-cases (madt.type_of (entry_address madt o) == type)) [
    | inl e ↦ rw e (append_assoc xs (entry_address madt o ∷ []) (of_type madt type os))
    | inr e ↦ rw (e, append-nil xs)
  ]

  collected_step :
      (o : ℕ) (os : List ℕ) (t : Tables)
      → collected madt os (added (entry_address madt o) t) ≡ collected madt (o ∷ os) t
  unfolding collected
  collected_step o os t = rw (
    field_step madt.type_lapic o os t.lapic_table,
    field_step madt.type_lapic_nmi o os t.lapic_nmi_table,
    field_step madt.type_interrupt_source_override o os t.interrupt_source_override_table,
    field_step madt.type_ioapic o os t.ioapic_table,
  )

  collected_none : (t : Tables) → collected madt [] t ≡ t
  unfolding collected of_type
  collected_none t = rw (
    append-nil t.lapic_table,
    append-nil t.lapic_nmi_table,
    append-nil t.interrupt_source_override_table,
    append-nil t.ioapic_table,
  )

  walk_entries-collected :
      (rounds size read : ℕ) (os : List ℕ) (t : Tables)
      → size + 256 ≤ 2 ^ 64
      → Follow madt size read os
      → length os < rounds
      → HasRoom t (length os)
      → walk_entries madt rounds size read t ≡ ok tt (collected madt os t)
  unfolding walk_entries
  walk_entries-collected zero size read os t small f enough room = absurd (omega arith)
  walk_entries-collected (suc n) size read [] t small f enough room =
      let done : ltb read size ≡ false = ground arith in
      rw done (ap (ok tt) (sym (collected_none t)))
  walk_entries-collected (suc n) size read (o ∷ os) t small (here, more, pos, byte, rest) enough
        room =
      let e = entry_address madt read in
      let going : ltb read size ≡ true = ground arith in
      let next : add64 read (madt.length_of e) ≡ read + madt.length_of e = omega arith in
      let ih =
        walk_entries-collected n size (read + madt.length_of e) os (added e t) small rest
          (omega arith)
          (
            Roomy-one t t.lapic_table madt.type_lapic e (length os) room.0,
            Roomy-one t t.lapic_nmi_table madt.type_lapic_nmi e (length os) room.1,
            Roomy-one t t.interrupt_source_override_table madt.type_interrupt_source_override e
                (length os) room.2,
            Roomy-one t t.ioapic_table madt.type_ioapic e (length os) room.3,
          ) in
      rw (going, next, handle_entry-added e t (length os) room)
        (ih
          ∙ ap (λ q. ok tt (collected madt os (added (entry_address madt q) t))) (sym here)
          ∙ ap (ok tt) (collected_step o os t))

  -- Where the entries of the table follow one another, each of positive length, `load_entries`
  -- returns after at most as many rounds as the table has bytes, if there is memory for so many
  -- elements more in each vector, and every vector has got the
  -- entries of its type, in the order of the table. The table is shorter than 2^64 - 256 bytes.
  pub load_entries-collected :
      (rounds : ℕ) (os : List ℕ) (t : Tables)
      → entries_size madt + 256 ≤ 2 ^ 64
      → Follow madt (entries_size madt) 0 os
      → entries_size madt < rounds
      → HasRoom t (length os)
      → load_entries madt rounds t ≡ ok tt (collected madt os t)
  unfolding load_entries
  load_entries-collected rounds os t small f enough room =
      walk_entries-collected rounds (entries_size madt) 0 os t small f
        (omega (arith, Follow-length madt (entries_size madt) 0 os f)) room

-- Where the first entry of a table that is not empty has length zero and is of none of the types that
-- the `switch` knows, the walk does not end in any number of rounds.
pub load_entries-endless :
    (madt : Madt) (rounds : ℕ) (t : Tables)
    → 0 < entries_size madt
    → madt.length_of (entry_address madt 0) ≡ 0
    → IsOther madt (entry_address madt 0)
    → load_entries madt rounds t ≡ out_of_fuel
unfolding load_entries
load_entries-endless madt rounds t some_entry empty is =
    endless madt rounds (entries_size madt) t some_entry empty is
