-- ===== src/Vmm/Linking.antt =====
-- A new table is linked into the tables: what is owned then, and what every walk finds.
use mathlib.Core.Option.{some-injective}
use unnamed.Prelude.{
  ℕ, suc, ◌+◌, ◌*◌, ◌%◌, ◌<◌, ◌≡◌, ap, sym, ◌∙◌, ◌≢◌, ◌⊎◌, inl, inr, Bool-cases, true, false, none,
  some, List, arith, ◌==◌, ==_iff,
}
use unnamed.Machine.{Kernel, write}
use unnamed.Pma.Blocks.{Block, Apart, Outside-of_Apart, IsBlock}
use unnamed.Pma.Spec.{IsFreeList}
use unnamed.Vmm.Entries.{IsOpen, is_present, frame, table_entry, table_entry_lem}
use unnamed.Vmm.Walk.{
  above, entry_at, next_table, walk, IsTable, Owner, IsTables, SameWalks, Extends, walk-zeros,
  walk-frame, walk-next,
}
use unnamed.Vmm.Frames.{IsFreeList-frame}
use unnamed.Vmm.NewTable.{IsNewTable, Misses-of_Handed}
use unnamed.Vmm.Grown.{Grown, adopt, entry_ne}

module _ (k : Kernel) (bs left : List Block) (root virt phys t l p i : ℕ) (own : Owner) (n : ℕ → ℕ)
    (ts : IsTables k.boot k.mem bs root own) (o : own t ≡ some (suc l, p)) (lt : i < 512)
    (off : is_present (k.mem (t + 8 * i)) ≡ false) (is : IsFreeList k bs)
    (new : IsNewTable k bs virt phys n left) where
  abbrev linked : ℕ → ℕ
  linked = write n (t + 8 * i) (table_entry phys)

  place : IsBlock k.boot (virt, 4096)
  place = new.handed.place (omega arith)

  -- The entry that is written is present, takes no permission away, and leads to the new table.
  pub linked_entry :
      (is_present (table_entry phys) ≡ true)
      × IsOpen (table_entry phys)
      × (next_table k.memory_slide (table_entry phys) ≡ virt)
  linked_entry =
      let a = new.handed.aligned in
      let b = ts.slide in
      let c = new.handed.above in
      let d = place.below in
      let e = place.fits in
      let f = new.address in
      let whole : frame phys ≡ phys = omega arith in
      let entry : table_entry phys ≡ phys + 7 = rw (table_entry_lem phys, whole) in
      let same : frame (phys + 7) ≡ phys = omega arith in
      rw entry
        (ground arith, (ground arith, omega arith, omega arith, omega arith), rw same (omega arith))

  module _ (u : ℕ) (x : ℕ × ℕ) (q : own u ≡ some x) where
    page_of : IsTable k.boot bs u
    page_of = ts.page u x.0 x.1 q

    Apart-new : Apart (u, 4096) (virt, 4096)
    Apart-new = new.handed.was_free (u, 4096) page_of.apart

    virt_new : (u == virt) ≡ false
    virt_new = ground (arith, Apart-new)

    -- The entries of the tables that there were are as before, but for the one that is written.
    old_entry : (j : ℕ) → j < 512 → u + 8 * j ≢ t + 8 * i → linked (u + 8 * j) ≡ k.mem (u + 8 * j)
    old_entry j lj ne =
        let h : u + 8 * j ≢ k.head_addr = λ e. (let m = page_of.no_head in omega arith) in
        let s : n (u + 8 * j) ≡ k.mem (u + 8 * j) =
          new.same (u + 8 * j) h
            (Outside-of_Apart (u + 8 * j) u 4096 bs page_of.apart (omega arith) (omega arith)) in
        ground (arith, s)

    still_table : IsTable k.boot left u
    still_table = record {
      aligned = page_of.aligned;
      ne_null = page_of.ne_null;
      fits = page_of.fits;
      reach = page_of.reach;
      apart = new.handed.covered (u, 4096) page_of.apart;
      no_head = page_of.no_head;
    }

  pub old_kept :
      (u j : ℕ) (x : ℕ × ℕ)
      → own u ≡ some x
      → j < 512
      → is_present (k.mem (u + 8 * j)) ≡ true
      → linked (u + 8 * j) ≡ k.mem (u + 8 * j)
  old_kept u j x q lj on =
      old_entry u x q j lj (λ e. (let f : is_present (k.mem (u + 8 * j)) ≡ false = rw e off in cc))

  new_table : IsTable k.boot left virt
  new_table = record {
    aligned = new.handed.aligned;
    ne_null = omega (arith, place.ne_null);
    fits = omega (arith, place.fits);
    reach = place.reach;
    apart = new.handed.fresh;
    no_head = Misses-of_Handed k.boot bs virt left new.handed k.head_addr is.out;
  }

  new_zeros : (j : ℕ) → j < 512 → linked (virt + 8 * j) ≡ 0
  new_zeros j lj = let a = Apart-new t (suc l, p) o in let z = new.zeros j lj in ground arith

  -- At the entry that is written, nothing was found before, and nothing is found in zeros.
  dead_end :
      (v : ℕ)
      → above (suc l) v % 512 ≡ i
      → (walk k.mem k.memory_slide (suc l) t v ≡ none)
        × (walk linked k.memory_slide (suc l) t v ≡ none)
  dead_end v e =
      let (on, is, next) = linked_entry in
      let here : linked (t + 8 * i) ≡ table_entry phys = ground arith in
      let zeros : walk linked k.memory_slide l virt v ≡ none =
        walk-zeros linked k.memory_slide l virt v new_zeros in
      let step : walk linked k.memory_slide (suc l) t v ≡ walk linked k.memory_slide l virt v =
        walk-next linked k.memory_slide l t v (table_entry phys) (rw (e, here)) on is
        ∙ ap (λ q. walk linked k.memory_slide l q v) next in
      (rw (e, off), step ∙ zeros)

  linked-walks : SameWalks own k.memory_slide k.mem linked
  linked-walks u m q v ou up =
      walk-frame k.boot k.mem linked bs root own v ts
        (λ w c ow. elim (Bool-cases (entry_at c w v == t + 8 * i)) [
          | inl here ↦
              let (same_table, same_index) =
                entry_ne k.boot bs w t (above c v % 512) i (page_of w (c, above (suc c) v) ow)
                  (page_of t (suc l, p) o) (omega arith) lt ((==_iff _ _).0 here) in
              let level : c ≡ suc l =
                ap (λ z. z.0) (some-injective _ _ (sym ow ∙ ap own same_table ∙ o)) in
              inr (rw (level, same_table) (dead_end v (rw level at same_index)))
          | inr away ↦
              inl
                (old_entry w (c, above (suc c) v) ow (above c v % 512) (omega arith) (ground arith))
        ])
        m u (ou ∙ ap (λ z. some (m, z)) (sym up))

  abbrev adopted : Owner
  adopted = adopt own virt (l, p * 512 + i)

  pub adopted-new : adopted virt ≡ some (l, p * 512 + i)
  adopted-new = (let e : (virt == virt) ≡ true = ground arith in rw e)

  adopted-Extends : Extends own adopted
  adopted-Extends u x q = rw (virt_new u x q, q)

  adopted_cases :
      (u : ℕ) (x : ℕ × ℕ)
      → adopted u ≡ some x
      → ((u ≡ virt) × (x ≡ (l, p * 512 + i))) ⊎ (own u ≡ some x)
  adopted_cases u x q = elim (Bool-cases (u == virt)) [
    | inl e ↦ inl ((==_iff _ _).0 e, sym (some-injective _ _ (rw e at q)))
    | inr e ↦ inr (rw e at q)
  ]

  -- A present entry of a table that there was leads to its child.
  old_child :
      (u m q j : ℕ)
      → own u ≡ some (suc m, q)
      → j < 512
      → is_present (linked (u + 8 * j)) ≡ true
      → IsOpen (linked (u + 8 * j))
        × (adopted (next_table k.memory_slide (linked (u + 8 * j))) ≡ some (m, q * 512 + j))
  old_child u m q j ou lj on = elim (Bool-cases (u + 8 * j == t + 8 * i)) [
    | inl e ↦
        let here = (==_iff _ _).0 e in
        let (same_table, same_index) =
          entry_ne k.boot bs u t j i (page_of u (suc m, q) ou) (page_of t (suc l, p) o) lj lt
            here in
        let both : (suc m, q) ≡ (suc l, p) = some-injective _ _ (sym ou ∙ ap own same_table ∙ o) in
        let level : m ≡ l = (let s : suc m ≡ suc l = ap (λ z. z.0) both in omega (arith, s)) in
        let number : q ≡ p = ap (λ z. z.1) both in
        let found : linked (u + 8 * j) ≡ table_entry phys = ground arith in
        rw (found, linked_entry.2, number, same_index, level) (linked_entry.1, adopted-new)
    | inr e ↦
        let same = old_entry u (suc m, q) ou j lj (ground arith) in
        let (is, child) = ts.child u m q j ou lj (rw same at on) in
        rw same (
          is,
          adopted-Extends (next_table k.memory_slide (k.mem (u + 8 * j))) (m, q * 512 + j) child,
        )
  ]

  linked-IsTables : IsTables k.boot linked left root adopted
  linked-IsTables = record {
    top = adopted-Extends root (3, 0) ts.top;
    page = λ u m q au. elim (adopted_cases u (m, q) au) [
      | inl (e, x) ↦ rw e new_table
      | inr ou ↦ still_table u (m, q) ou
    ];
    child = λ u m q j au lj on. elim (adopted_cases u (suc m, q) au) [
      | inl (e, x) ↦
          let z : linked (u + 8 * j) ≡ 0 = rw e (new_zeros j lj) in
          let dark : is_present (linked (u + 8 * j)) ≡ false = rw z in
          absurd (let c : true ≡ false = sym on ∙ dark in cc)
      | inr ou ↦ old_child u m q j ou lj on
    ];
    slide = ts.slide;
  }

  linked-IsFreeList : IsFreeList (record k { mem = linked }) left
  linked-IsFreeList =
      let table = still_table t (suc l, p) o in
      IsFreeList-frame (record k { mem = n }) linked (t, 4096) left table.apart table.no_head
        (λ w out. ground arith) new.list

  -- A table that is linked into the tables leaves tables, in which every page is translated as
  -- before, and a list in order.
  pub linked-Grown : Grown k bs root own linked left adopted
  linked-Grown = record {
    list = linked-IsFreeList;
    tables = linked-IsTables;
    extends = adopted-Extends;
    covered = new.handed.covered;
    walks = linked-walks;
    kept = λ u j x q lj on. old_kept u j x q lj on;
  }
