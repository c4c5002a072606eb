-- ===== src/Vmm/Leaf.antt =====
-- The last write of `map_virtual`: the entry of the page in its leaf table.
use mathlib.Core.Option.{some-injective}
use unnamed.Prelude.{
  ℕ, zero, suc, ◌+◌, ◌*◌, ◌/◌, ◌%◌, ◌^◌, ◌<◌, ◌≡◌, ap, sym, ◌∙◌, ◌≢◌, inl, inr, Bool-cases, true,
  some, List, arith, ◌==◌, ==_iff,
}
use unnamed.Machine.{Kernel, accessible, write}
use unnamed.Pma.Blocks.{Block}
use unnamed.Pma.Spec.{IsFreeList}
use unnamed.Vmm.Entries.{is_present, page_entry, page_entry_lem}
use unnamed.Vmm.Walk.{above, entry_at, walk, IsTable, Owner, IsTables, walk-frame}
use unnamed.Vmm.Frames.{IsFreeList-frame}
use unnamed.Vmm.Grown.{entry_ne}
use unnamed.Vmm.Descent.{LinkedOn, IsWay, walk-IsWay}

write_here : (m : ℕ → ℕ) (a v : ℕ) → write m a v a ≡ v
write_here m a v = ground arith

module _ (k : Kernel) (bs : List Block) (root v pdpt pd pt phys flags : ℕ) (own : Owner)
    (is : IsFreeList k bs) (ts : IsTables k.boot k.mem bs root own)
    (way : IsWay k.memory_slide k.mem own root v pdpt pd pt) where
  abbrev pub mapped_mem : ℕ → ℕ
  mapped_mem = write k.mem (entry_at zero pt v) (page_entry phys flags)

  leaf_table : IsTable k.boot bs pt
  leaf_table = ts.page pt 0 (above 1 v) way.third.found

  pub leaf-accessible : accessible k.boot (entry_at zero pt v) ≡ true
  leaf-accessible =
      let al = leaf_table.aligned in
      ground (arith, leaf_table.reach (entry_at zero pt v) (omega arith) (omega arith))

  pub mapped-IsFreeList : IsFreeList (record k { mem = mapped_mem }) bs
  mapped-IsFreeList =
      IsFreeList-frame k mapped_mem (pt, 4096) bs leaf_table.apart leaf_table.no_head
        (λ w out. ground arith) is

  -- Entries of tables of other levels are as before.
  inner_entry :
      (t l p i : ℕ) → own t ≡ some (suc l, p) → i < 512 → mapped_mem (t + 8 * i) ≡ k.mem (t + 8 * i)
  inner_entry t l p i o lt = elim (Bool-cases (t + 8 * i == entry_at zero pt v)) [
    | inl e ↦
        let (same, index) =
          entry_ne k.boot bs t pt i (above zero v % 512) (ts.page t (suc l) p o) leaf_table lt
            (omega arith) ((==_iff _ _).0 e) in
        let both : (suc l, p) ≡ (0, above 1 v) =
          some-injective _ _ (sym o ∙ ap own same ∙ way.third.found) in
        let level : suc l ≡ 0 = ap (λ z. z.0) both in absurd (omega (arith, level))
    | inr e ↦ ground arith
  ]

  pub mapped-IsTables : IsTables k.boot mapped_mem bs root own
  mapped-IsTables = record {
    top = ts.top;
    page = ts.page;
    child = λ t l p i o lt on.
        let same = inner_entry t l p i o lt in rw same (ts.child t l p i o lt (rw same at on));
    slide = ts.slide;
  }

  inner-LinkedOn :
      (l t r p : ℕ)
      → own t ≡ some (suc l, p)
      → LinkedOn k.memory_slide k.mem own v l t r
      → LinkedOn k.memory_slide mapped_mem own v l t r
  inner-LinkedOn l t r p o s =
      let same = inner_entry t l p (above (suc l) v % 512) o (omega arith) in
      record {
        on = rw same s.on;
        grants = rw same s.grants;
        next = rw same s.next;
        found = s.found;
      }

  mapped-IsWay : IsWay k.memory_slide mapped_mem own root v pdpt pd pt
  mapped-IsWay = record {
    first = inner-LinkedOn 2 root pdpt 0 ts.top way.first;
    second = inner-LinkedOn 1 pdpt pd (above 3 v) way.first.found way.second;
    third = inner-LinkedOn 0 pd pt (above 2 v) way.second.found way.third;
  }

  -- The walk to the page now ends in the new entry.
  pub mapped-found : walk mapped_mem k.memory_slide 3 root v ≡ some (page_entry phys flags)
  mapped-found =
      let here : mapped_mem (entry_at zero pt v) ≡ page_entry phys flags =
        write_here k.mem (entry_at zero pt v) (page_entry phys flags) in
      let sum = page_entry_lem phys flags in
      let on : is_present (page_entry phys flags) ≡ true = rw sum (ground arith) in
      walk-IsWay k.memory_slide mapped_mem own root v pdpt pd pt mapped-IsWay ∙ rw (here, on)

  -- Every other page is translated as before.
  pub mapped-others :
      (u : ℕ)
      → u < 2 ^ 36
      → u ≢ v
      → walk mapped_mem k.memory_slide 3 root u ≡ walk k.mem k.memory_slide 3 root u
  mapped-others u small ne =
      walk-frame k.boot k.mem mapped_mem bs root own u ts
        (λ t l o. inl (elim (Bool-cases (entry_at l t u == entry_at zero pt v)) [
          | inl e ↦
              let (same, index) =
                entry_ne k.boot bs t pt (above l u % 512) (above zero v % 512)
                  (ts.page t l (above (suc l) u) o) leaf_table (omega arith) (omega arith)
                  ((==_iff _ _).0 e) in
              let both : (l, above (suc l) u) ≡ (0, above 1 v) =
                some-injective _ _ (sym o ∙ ap own same ∙ way.third.found) in
              let level : l ≡ 0 = ap (λ z. z.0) both in
              let number : above (suc l) u ≡ v / 512 = ap (λ z. z.1) both in
              let number0 : u / 512 ≡ v / 512 = rw level at number in
              let index0 : u % 512 ≡ v % 512 = rw level at index in
              absurd (ne (omega (arith, number0, index0)))
          | inr e ↦ ground arith
        ]))
        3 root (ts.top ∙ ap (λ z. some (3, z)) (omega arith))
