-- ===== src/Vmm/Outcome.antt =====
-- The outcomes of `map_virtual` of kernel/mm/vmm.cpp, and its parts before and after the tables.
use unnamed.Prelude.{
  ℕ, zero, suc, ◌+◌, ◌-◌, ◌*◌, ◌/◌, ◌%◌, ◌^◌, ◌<◌, ◌≡◌, refl, ap, ◌∙◌, ◌≢◌, inl, inr, Bool-cases,
  Bool, true, false, some, List, arith, ◌==◌, if◌then◌else◌, ◌∷◌,
}
use unnamed.Prelude.Words.{add64, sub64}
use unnamed.Machine.{Kernel, Cmd, ok, write}
use unnamed.Machine.Ensures.{Ensures, and_then-Ensures, store-ok}
use unnamed.Pma.Blocks.{Block}
use unnamed.Pma.Handed.{Covers}
use unnamed.Pma.Spec.{IsFreeList, TooSmall}
use unnamed.Vmm.{va_index, finish, invalidate, with_table, ensure_table}
use unnamed.Vmm.Entries.{frame, va_index_lem, page_entry, page_entry_lem, low_flags}
use unnamed.Vmm.Walk.{above, entry_at, translate, Owner, IsTables, Extends}
use unnamed.Vmm.Grown.{Grown}
use unnamed.Vmm.Tables.{EnsuredTo}
use unnamed.Vmm.Descent.{page_of, LinkedOn, IsWay, ensure_table-on}
use unnamed.Vmm.Leaf.{
  leaf-accessible, mapped-IsFreeList, mapped-IsTables, mapped-found, mapped-others,
}

-- The page is mapped: the walk finds its physical page with the permissions, and finds for every
-- other page what it found before. The address is invalidated where the tables are in use.
pub record IsMapped (k : Kernel) (bs : List Block) (root : ℕ) (own : Owner) (virt phys flags : ℕ)
    (k' : Kernel) (left : List Block) (own' : Owner) : Type 0 where
  pub found :
      translate k' root virt ≡ some ((1 - flags / 4 % 2) * 2 ^ 63 + frame phys + low_flags flags)
  pub others : (w : ℕ) → page_of w ≢ page_of virt → translate k' root w ≡ translate k root w
  pub list : IsFreeList k' left
  pub tables : IsTables k'.boot k'.mem left root own'
  pub extends : Extends own own'
  pub covered : Covers bs left
  pub rest : k' ≡ record k {
    mem = k'.mem;
    invalidated =
        if k.cr3 == sub64 root k.memory_slide then virt ∷ k.invalidated else k.invalidated;
  }

-- No memory for a table, since every free block is too small for a page: every page is translated as before.
pub record IsUnmapped (k : Kernel) (bs : List Block) (root : ℕ) (own : Owner) (k' : Kernel)
    (left : List Block) (own' : Owner) : Type 0 where
  pub none_left : TooSmall 4096 left
  pub same : (w : ℕ) → translate k' root w ≡ translate k root w
  pub list : IsFreeList k' left
  pub tables : IsTables k'.boot k'.mem left root own'
  pub extends : Extends own own'
  pub covered : Covers bs left
  pub rest : k' ≡ record k { mem = k'.mem }

abbrev pub MapPost :
    Kernel → List Block → (root : ℕ) → Owner → (virt phys flags : ℕ) → Bool → Kernel → Type 0
MapPost k bs root own virt phys flags false k' =
    (left : List Block) × (own' : Owner) × IsUnmapped k bs root own k' left own'
MapPost k bs root own virt phys flags true k' =
    (left : List Block) × (own' : Owner) × IsMapped k bs root own virt phys flags k' left own'

-- The rest after a table is judged at every table that the entry may lead to.
pub with_table-on :
    (k : Kernel) (bs : List Block) (root v l t i : ℕ) (own : Owner) (rest : ℕ → Cmd Bool)
    (Q : Bool → Kernel → Type 0)
    → IsFreeList k bs
    → IsTables k.boot k.mem bs root own
    → own t ≡ some (suc l, above (suc (suc l)) v)
    → i ≡ above (suc l) v % 512
    → (TooSmall 4096 bs → Q false k)
    → ((n : ℕ → ℕ) (left : List Block) (own' : Owner) (r : ℕ)
        → Grown k bs root own n left own'
        → LinkedOn k.memory_slide n own' v l t r
        → Ensures (rest r (record k { mem = n })) Q)
    → Ensures (with_table (ensure_table (add64 t (8 * i))) rest k) Q
unfolding with_table
with_table-on k bs root v l t i own rest Q is ts o index failed next =
    and_then-Ensures (ensure_table (add64 t (8 * i)) k)
      (λ address. if address == 0 then ok false else rest address)
      (EnsuredTo k bs root own (entry_at (suc l) t v) (l, above (suc l) v)) Q
      (ensure_table-on k bs root v l t i own is ts o index)
      (λ r k' post. elim post [
        | inl (z, few, same) ↦ rw (z, same) (failed few)
        | inr (n, left, own', e, g, s) ↦
            let pos = (g.tables.page r l (above (suc l) v) s.found).ne_null in
            let some_table : (r == 0) ≡ false = ground arith in
            rw (some_table, e) (next n left own' r g s)
      ])

module _ (k : Kernel) (bs : List Block) (root : ℕ) (own : Owner) (virt phys flags : ℕ)
    (top : own root ≡ some (3, 0)) where
  pub unmapped :
      (n : ℕ → ℕ) (left : List Block) (own' : Owner)
      → Grown k bs root own n left own'
      → TooSmall 4096 left
      → MapPost k bs root own virt phys flags false (record k { mem = n })
  unfolding translate
  unmapped n left own' g few = (
    left,
    own',
    record {
      none_left = few;
      same = λ w.
          g.walks root 3 0 (page_of w) top
            (let lt : page_of w < 2 ^ 36 = omega arith in omega arith);
      list = g.list;
      tables = g.tables;
      extends = g.extends;
      covered = g.covered;
      rest = refl;
    },
  )

  mapped :
      (n : ℕ → ℕ) (left : List Block) (own' : Owner) (pdpt pd pt : ℕ) (seen : List ℕ)
      → Grown k bs root own n left own'
      → IsWay k.memory_slide n own' root (page_of virt) pdpt pd pt
      → seen ≡ (if k.cr3 == sub64 root k.memory_slide then virt ∷ k.invalidated else k.invalidated)
      → MapPost k bs root own virt phys flags true (record k {
        mem = write n (entry_at zero pt (page_of virt)) (page_entry phys flags);
        invalidated = seen;
      })
  unfolding translate
  mapped n left own' pdpt pd pt seen g way e =
      let v = page_of virt in
      let kn : Kernel = record k { mem = n } in
      let list = mapped-IsFreeList kn left root v pdpt pd pt phys flags own' g.list g.tables way in
      let tables = mapped-IsTables kn left root v pdpt pd pt phys flags own' g.list g.tables way in
      (
        left,
        own',
        record {
          found =
              mapped-found kn left root v pdpt pd pt phys flags own' g.list g.tables way
              ∙ ap some (page_entry_lem phys flags);
          others = λ w ne.
              mapped-others kn left root v pdpt pd pt phys flags own' g.list g.tables way
                (page_of w) (omega arith) ne
              ∙ g.walks root 3 0 (page_of w) top
                  (let lt : page_of w < 2 ^ 36 = omega arith in omega arith);
          list = record {
            blocks = list.blocks;
            reach = list.reach;
            out = list.out;
            chain = list.chain;
            enough = list.enough;
          };
          tables = tables;
          extends = g.extends;
          covered = g.covered;
          rest =
              ap
                (λ q. record k {
                  mem = write n (entry_at zero pt (page_of virt)) (page_entry phys flags);
                  invalidated = q;
                })
                e;
        },
      )

  pub finish-mapped :
      (n : ℕ → ℕ) (left : List Block) (own' : Owner) (pdpt pd pt : ℕ)
      → Grown k bs root own n left own'
      → IsWay k.memory_slide n own' root (page_of virt) pdpt pd pt
      → Ensures
          (finish root virt phys flags pt (record k { mem = n }))
          (MapPost k bs root own virt phys flags)
  unfolding finish invalidate
  finish-mapped n left own' pdpt pd pt g way =
      let kn : Kernel = record k { mem = n } in
      let v = page_of virt in
      let fits = (g.tables.page pt 0 (above 1 v) way.third.found).fits in
      let index : va_index 12 virt ≡ v % 512 = va_index_lem 12 virt ∙ omega arith in
      let at : add64 pt (8 * va_index 12 virt) ≡ entry_at zero pt v = rw index (omega arith) in
      let reach = leaf-accessible kn left root v pdpt pd pt phys flags own' g.list g.tables way in
      rw (at, store-ok kn (entry_at zero pt v) reach (page_entry phys flags))
        (elim (Bool-cases (k.cr3 == sub64 root k.memory_slide)) [
          | inl on ↦ rw on (mapped n left own' pdpt pd pt (virt ∷ k.invalidated) g way (rw on))
          | inr off ↦ rw off (mapped n left own' pdpt pd pt k.invalidated g way (rw off))
        ])
