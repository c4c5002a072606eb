-- ===== src/Vmm/Mapping.antt =====
-- `map_virtual` of kernel/mm/vmm.cpp as a whole: what the processor's page walk finds afterwards.
use unnamed.Prelude.{
  ℕ, ◌/◌, ◌%◌, ◌^◌, ◌<◌, ◌≡◌, ap, sym, ◌∙◌, inl, inr, Bool-cases, Bool, true, false, some, List,
  arith, ◌==◌, ◌||◌, not, ◌↔◌,
}
use unnamed.Helpers.{check_aligned}
use unnamed.Helpers.Align.{check_aligned_iff}
use unnamed.Machine.{Kernel, ok, incorrect_parameter, set_error}
use unnamed.Machine.Ensures.{Ensures}
use unnamed.Pma.Blocks.{Block}
use unnamed.Pma.Spec.{IsFreeList}
use unnamed.Vmm.{va_index, map_virtual, walk_plank, refuse}
use unnamed.Vmm.Entries.{va_index_lem}
use unnamed.Vmm.Walk.{above, Owner, IsTables}
use unnamed.Vmm.Tables.{Grown-refl, Grown-trans}
use unnamed.Vmm.Descent.{page_of, IsLinked-Grown}
use unnamed.Vmm.Outcome.{MapPost, with_table-on, unmapped, finish-mapped}

module _ (k : Kernel) (bs : List Block) (root : ℕ) (own : Owner) (virt phys flags : ℕ)
    (is : IsFreeList k bs) (ts : IsTables k.boot k.mem bs root own) where
  index_of :
      (l shift : ℕ)
      → virt / 2 ^ shift % 512 ≡ above l (page_of virt) % 512
      → va_index shift virt ≡ above l (page_of virt) % 512
  index_of l shift e = va_index_lem shift virt ∙ e

  number_of_root : above 4 (page_of virt) ≡ 0
  number_of_root = omega arith

  walk_plank-MapPost :
      Ensures (walk_plank root virt phys flags k) (MapPost k bs root own virt phys flags)
  unfolding walk_plank
  walk_plank-MapPost =
      let v = page_of virt in
      let post = MapPost k bs root own virt phys flags in
      let refl_k = Grown-refl k bs root own is ts in
      with_table-on k bs root v 2 root (va_index 39 virt) own _ post is ts
        (ts.top ∙ ap (λ z. some (3, z)) (sym number_of_root)) (index_of 3 39 (omega arith))
        (unmapped k bs root own virt phys flags ts.top k.mem bs own refl_k)
        (λ n left own1 pdpt g s.
          let k1 : Kernel = record k { mem = n } in
          with_table-on k1 left root v 1 pdpt (va_index 30 virt) own1 _ post g.list g.tables s.found
            (index_of 2 30 (omega arith))
            (unmapped k bs root own virt phys flags ts.top n left own1 g)
            (λ n2 left2 own2 pd g2 s2.
              let k2 : Kernel = record k { mem = n2 } in
              let h2 = Grown-trans k root own own1 own2 n n2 bs left left2 g g2 in
              let first2 =
                IsLinked-Grown k1 n2 left left2 root v 2 root pdpt own1 own2 (3, 0) g.tables.top g2
                  s in
              with_table-on k2 left2 root v 0 pd (va_index 21 virt) own2 _ post g2.list g2.tables
                s2.found (index_of 1 21 (omega arith))
                (unmapped k bs root own virt phys flags ts.top n2 left2 own2 h2)
                (λ n3 left3 own3 pt g3 s3.
                  finish-mapped k bs root own virt phys flags ts.top n3 left3 own3 pdpt pd pt
                    (Grown-trans k root own own2 own3 n2 n3 bs left2 left3 h2 g3)
                    (record {
                      first =
                          IsLinked-Grown k2 n3 left2 left3 root v 2 root pdpt own2 own3 (3, 0)
                            g2.tables.top g3 first2;
                      second =
                          IsLinked-Grown k2 n3 left2 left3 root v 1 pdpt pd own2 own3 (2, above 3 v)
                            first2.found g3 s2;
                      third = s3;
                    }))))

-- A page address: not null, and on a page boundary.
abbrev pub IsPage : ℕ → Type 0
IsPage a = (0 < a) × (a % 4096 ≡ 0)

aligned_lem : (a : ℕ) → (check_aligned a 4096 ≡ true) ↔ (a % 4096 ≡ 0)
aligned_lem a = check_aligned_iff 12 a (omega arith)

guard_passed : (a : ℕ) → IsPage a → (a == 0 || not (check_aligned a 4096)) ≡ false
guard_passed a (pos, al) = let ne : (a == 0) ≡ false = ground arith in rw (ne, (aligned_lem a).1 al)

abbrev guard : ℕ → Bool
guard a = a == 0 || not (check_aligned a 4096)

-- The test of an address fails only for a page address.
IsPage-of_passed : (a : ℕ) → guard a ≡ false → IsPage a
IsPage-of_passed a passed = elim (Bool-cases (a == 0)) [
  | inl null ↦ absurd (let c : true ≡ false = rw null at passed in cc)
  | inr some_page ↦ elim (Bool-cases (check_aligned a 4096)) [
    | inl al ↦ (ground arith, (aligned_lem a).0 al)
    | inr off ↦ absurd (let c : true ≡ false = rw (some_page, off) at passed in cc)
  ]
]

-- On tables in order, with a free list in order, and for a virtual and a physical page address,
-- `map_virtual` always returns, and the tables and the list are in order again. If it returns true,
-- the page walk of the processor finds the physical page with the permissions of the flags, of which the
-- entries on the way take none, finds for every other page what it found before, and the address has been
-- invalidated if the tables are in use. If it returns false, no free block has room for a page, every page
-- is translated as before and only memory has changed. Either way no memory has become free. In tables in
-- order every present entry above the last level leads to a table that is a page of its own and not free, and
-- is writable, for the user and executable, with no large pages.
pub map_virtual-MapPost :
    (k : Kernel) (bs : List Block) (root : ℕ) (own : Owner) (virt phys flags : ℕ)
    → IsFreeList k bs
    → IsTables k.boot k.mem bs root own
    → IsPage virt
    → IsPage phys
    → Ensures (map_virtual root virt phys flags k) (MapPost k bs root own virt phys flags)
unfolding map_virtual
map_virtual-MapPost k bs root own virt phys flags is ts v p =
    let table = (ts.page root 3 0 ts.top).ne_null in
    let some_root : (root == 0) ≡ false = ground arith in
    rw (guard_passed virt v, guard_passed phys p, some_root)
      (walk_plank-MapPost k bs root own virt phys flags is ts)

-- For a virtual or physical address that is null or not on a page boundary, or no root table,
-- `map_virtual` returns false, and the error code is all that changes.
pub map_virtual-refused :
    (k : Kernel) (root virt phys flags : ℕ)
    → ¬ (IsPage virt × IsPage phys × (0 < root))
    → map_virtual root virt phys flags k ≡ ok false (record k { error = incorrect_parameter })
unfolding map_virtual refuse set_error
map_virtual-refused k root virt phys flags bad = elim (Bool-cases (guard virt)) [
  | inl v ↦ rw v
  | inr v ↦ elim (Bool-cases (guard phys)) [
    | inl p ↦ rw (v, p)
    | inr p ↦ elim (Bool-cases (root == 0)) [
      | inl null ↦ rw (v, p, null)
      | inr some_root ↦
          absurd (bad (IsPage-of_passed virt v, IsPage-of_passed phys p, ground arith))
    ]
  ]
]
