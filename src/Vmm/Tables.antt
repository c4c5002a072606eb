-- ===== src/Vmm/Tables.antt =====
-- `ensure_table` of kernel/mm/vmm.cpp: the table below an entry, found or made.
use unnamed.Prelude.{
  ℕ, suc, ◌+◌, ◌*◌, ◌%◌, ◌<◌, ◌≡◌, refl, ap, sym, ◌∙◌, ◌⊎◌, inl, inr, Bool-cases, true, false, some,
  List, arith, ◌==◌, bit_and,
}
use unnamed.Prelude.Words.{add64}
use unnamed.Machine.{Kernel, accessible, write}
use unnamed.Machine.Ensures.{Ensures, and_then-Ensures, load-ok, store-ok}
use unnamed.Pma.Blocks.{Block}
use unnamed.Pma.Spec.{IsFreeList, TooSmall}
use unnamed.Vmm.{ensure_table, alloc_table, link_table, ppn_mask}
use unnamed.Vmm.Entries.{IsOpen, is_present, present_lem, frame_lem, table_entry}
use unnamed.Vmm.Walk.{next_table, Owner, IsTables}
use unnamed.Vmm.NewTable.{IsNewTable, NewTableTo, alloc_table-NewTable}
use unnamed.Vmm.Grown.{Grown, adopt}
use unnamed.Vmm.Linking.{linked_entry, linked-Grown, adopted-new}

-- The entry at `entry` leads to the table `r`, which is for the number `x` at its level.
pub record IsLinked (slide : ℕ) (n : ℕ → ℕ) (own : Owner) (entry r : ℕ) (x : ℕ × ℕ) : Type 0 where
  pub on : is_present (n entry) ≡ true
  pub grants : IsOpen (n entry)
  pub next : next_table slide (n entry) ≡ r
  pub found : own r ≡ some x

-- Either there was no memory for a table, and nothing has changed, or the entry leads to a table.
abbrev pub EnsuredTo :
    Kernel → List Block → (root : ℕ) → Owner → (entry : ℕ) → ℕ × ℕ → ℕ → Kernel → Type 0
EnsuredTo k bs root own entry x r k' =
    ((r ≡ 0) × TooSmall 4096 bs × (k' ≡ k))
    ⊎ ((n : ℕ → ℕ) × (left : List Block) × (own' : Owner) × (k' ≡ record k { mem = n })
        × Grown k bs root own n left own'
        × IsLinked k.memory_slide n own' entry r x)

pub Grown-refl :
    (k : Kernel) (bs : List Block) (root : ℕ) (own : Owner)
    → IsFreeList k bs
    → IsTables k.boot k.mem bs root own
    → Grown k bs root own k.mem bs own
Grown-refl k bs root own is ts = record {
  list = is;
  tables = ts;
  extends = λ t x o. o;
  covered = λ x o. o;
  walks = λ t l p v o up. refl;
  kept = λ t i x o lt on. refl;
}

pub Grown-trans :
    (k : Kernel) (root : ℕ) (own own' own'' : Owner) (n o : ℕ → ℕ) (before bs bs' : List Block)
    → Grown k before root own n bs own'
    → Grown (record k { mem = n }) bs root own' o bs' own''
    → Grown k before root own o bs' own''
Grown-trans k root own own' own'' n o before bs bs' g h = record {
  list = h.list;
  tables = h.tables;
  extends = λ t x e. h.extends t x (g.extends t x e);
  covered = λ x o. h.covered x (g.covered x o);
  walks = λ t l p v e up. h.walks t l p v (g.extends t (l, p) e) up ∙ g.walks t l p v e up;
  kept = λ t i x e lt on.
      let same = g.kept t i x e lt on in h.kept t i x (g.extends t x e) lt (rw same on) ∙ same;
}

module _ (k : Kernel) (bs : List Block) (root t l p i : ℕ) (own : Owner) (is : IsFreeList k bs)
    (ts : IsTables k.boot k.mem bs root own) (o : own t ≡ some (suc l, p)) (lt : i < 512) where
  entry-accessible : accessible k.boot (t + 8 * i) ≡ true
  entry-accessible =
      let table = ts.page t (suc l) p o in
      let al = table.aligned in ground (arith, table.reach (t + 8 * i) (omega arith) (omega arith))

  present_to :
      is_present (k.mem (t + 8 * i)) ≡ true
      → EnsuredTo k bs root own
          (t + 8 * i)
          (l, p * 512 + i)
          (add64 (bit_and (k.mem (t + 8 * i)) ppn_mask) k.memory_slide)
          k
  present_to on = inr (
    k.mem,
    bs,
    own,
    refl,
    Grown-refl k bs root own is ts,
    record {
      on = on;
      grants = (ts.child t l p i o lt on).0;
      next = ap (λ q. add64 q k.memory_slide) (sym (frame_lem (k.mem (t + 8 * i))));
      found = rw (frame_lem (k.mem (t + 8 * i))) (ts.child t l p i o lt on).1;
    },
  )

  module _ (off : is_present (k.mem (t + 8 * i)) ≡ false) where
    link_new :
        (virt phys : ℕ) (n : ℕ → ℕ) (left : List Block)
        → IsNewTable k bs virt phys n left
        → Ensures
            (link_table (t + 8 * i) (virt, phys) (record k { mem = n }))
            (EnsuredTo k bs root own (t + 8 * i) (l, p * 512 + i))
    unfolding link_table
    link_new virt phys n left new =
        let some_table : (virt == 0) ≡ false = ground (arith, new.handed.above) in
        let entry = linked_entry k bs left root virt phys t l p i own n ts o lt off is new in
        let here : write n (t + 8 * i) (table_entry phys) (t + 8 * i) ≡ table_entry phys =
          ground arith in
        rw
          (
            some_table,
            store-ok (record k { mem = n }) (t + 8 * i) entry-accessible (table_entry phys),
          )
          (inr (
            write n (t + 8 * i) (table_entry phys),
            left,
            adopt own virt (l, p * 512 + i),
            refl,
            linked-Grown k bs left root virt phys t l p i own n ts o lt off is new,
            record {
              on = rw here entry.0;
              grants = rw here entry.1;
              next = rw here entry.2;
              found = adopted-new k bs left root virt phys t l p i own n ts o lt off is new;
            },
          ))

    link_none :
        (phys : ℕ) (k' : Kernel)
        → TooSmall 4096 bs
        → k' ≡ k
        → Ensures
            (link_table (t + 8 * i) (0, phys) k')
            (EnsuredTo k bs root own (t + 8 * i) (l, p * 512 + i))
    unfolding link_table
    link_none phys k' few same = inl (refl, few, same)

    link_to :
        (x : ℕ × ℕ) (k' : Kernel)
        → NewTableTo k bs x k'
        → Ensures
            (link_table (t + 8 * i) x k')
            (EnsuredTo k bs root own (t + 8 * i) (l, p * 512 + i))
    link_to (virt, phys) k' (inl (z, few, same)) = rw z (link_none phys k' few same)
    link_to (virt, phys) k' (inr (n, left, e, new)) = rw e (link_new virt phys n left new)

  -- The search for the table below an entry returns: 0 with nothing changed, where a table is
  -- missing and there is no memory for one, or the table that the entry leads to.
  pub ensure_table-Ensured :
      Ensures (ensure_table (t + 8 * i) k) (EnsuredTo k bs root own (t + 8 * i) (l, p * 512 + i))
  unfolding ensure_table
  ensure_table-Ensured =
      rw (load-ok k (t + 8 * i) entry-accessible, present_lem (k.mem (t + 8 * i)))
        (elim (Bool-cases (is_present (k.mem (t + 8 * i)))) [
          | inl on ↦
              let d : (k.mem (t + 8 * i) % 2 == 0) ≡ false = ground arith in rw d (present_to on)
          | inr off ↦
              let d : (k.mem (t + 8 * i) % 2 == 0) ≡ true = ground arith in
              rw d (
                and_then-Ensures (alloc_table k) (link_table (t + 8 * i)) (NewTableTo k bs)
                  (EnsuredTo k bs root own (t + 8 * i) (l, p * 512 + i))
                  (alloc_table-NewTable k bs is) (link_to off))
        ])
