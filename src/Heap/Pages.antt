-- ===== src/Heap/Pages.antt =====
-- The loop of `mmap` and `sbrk` in kernel/mm/heap.cpp: pages of memory behind a range of addresses.
use mathlib.Core.Path.{subst}
use unnamed.Prelude.{
  ℕ, suc, ◌+◌, ◌*◌, ◌%◌, ◌<◌, ◌≡◌, ◌≢◌, refl, ap, sym, ◌∙◌, inl, inr, Bool, true, false, some, List,
  arith, ◌==◌, if◌then◌else◌,
}
use unnamed.Prelude.Words.{add64}
use unnamed.Machine.{Kernel, pure}
use unnamed.Machine.Ensures.{Ensures, and_then-Ensures}
use unnamed.Pma.{alloc_page}
use unnamed.Pma.Handed.{Covers}
use unnamed.Pma.Blocks.{Block, Outside-of_Apart}
use unnamed.Pma.Spec.{IsFreeList, AllocPost, IsServed, TooSmall}
use unnamed.Vmm.{map_virtual}
use unnamed.Vmm.Walk.{above, translate, Owner, IsTables, Extends, walk-frame}
use unnamed.Vmm.NewTable.{alloc_page-AllocPost}
use unnamed.Vmm.Descent.{page_of}
use unnamed.Vmm.Outcome.{MapPost}
use unnamed.Vmm.Mapping.{IsPage, map_virtual-MapPost}
use unnamed.Heap.{backed, no_mapping, map_page, back_page, read_write}
use unnamed.Heap.Backing.{IsTaken, IsBacked, BackedTo}

-- A page that is handed out changes none of the tables.
module _ (k : Kernel) (bs : List Block) (root : ℕ) (own : Owner) (n : ℕ → ℕ) (r p : ℕ)
    (left : List Block) (ts : IsTables k.boot k.mem bs root own)
    (served : IsServed k bs 4096 r (record k { mem = n }) p left) where
  same_entry :
      (u : ℕ) (x : ℕ × ℕ) → own u ≡ some x → (j : ℕ) → j < 512 → n (u + 8 * j) ≡ k.mem (u + 8 * j)
  same_entry u x o j lt =
      let page = ts.page u x.0 x.1 o in
      let h : u + 8 * j ≢ k.head_addr = λ e. (let m = page.no_head in omega arith) in
      served.same (u + 8 * j) h
        (Outside-of_Apart (u + 8 * j) u 4096 bs page.apart (omega arith) (omega arith))

  served-IsTables : IsTables k.boot n left root own
  served-IsTables = record {
    top = ts.top;
    page = λ t l q o.
        let page = ts.page t l q o in
        record {
          aligned = page.aligned;
          ne_null = page.ne_null;
          fits = page.fits;
          reach = page.reach;
          apart = served.handed.covered (t, 4096) page.apart;
          no_head = page.no_head;
        };
    child = λ t l q i o lt on.
        let same = same_entry t (suc l, q) o i lt in
        rw same (ts.child t l q i o lt (rw same at on));
    slide = ts.slide;
  }

  served-translate : (w : ℕ) → translate (record k { mem = n }) root w ≡ translate k root w
  unfolding translate
  served-translate w =
      walk-frame k.boot k.mem n bs root own (page_of w) ts
        (λ t l o.
          inl (
            same_entry t (l, above (suc l) (page_of w)) o (above l (page_of w) % 512)
              (omega arith)))
        3 root (ts.top ∙ ap (λ z. some (3, z)) (omega arith))

  served-IsTaken : IsTaken k.memory_slide bs left r
  served-IsTaken =
      let place = served.handed.place (omega arith) in
      let up = served.handed.above in
      let al = served.handed.aligned in
      let sl = ts.slide in
      let lim = place.fits in
      let a = served.address in
      let below = place.below in
      let same : k.memory_slide + r ≡ p = omega arith in
      record {
        page = (omega arith, omega arith);
        small = omega arith;
        was_free = rw same served.handed.was_free;
        fresh = rw same served.handed.fresh;
      }

module _ (k : Kernel) (bs : List Block) (root : ℕ) (own : Owner) (virt : ℕ) (page : IsPage virt)
    (active : root ≡ add64 k.cr3 k.memory_slide) where
  -- Nothing is mapped.
  pub IsBacked-none :
      (k' : Kernel) (left : List Block) (own' : Owner)
      → IsFreeList k' left
      → IsTables k'.boot k'.mem left root own'
      → Extends own own'
      → Covers bs left
      → ((w : ℕ) → translate k' root w ≡ translate k root w)
      → k' ≡ record k { mem = k'.mem; invalidated = k'.invalidated }
      → IsBacked k bs root own virt 0 k' left own'
  IsBacked-none k' left own' list tables extends covered same rest = record {
    list = list;
    tables = tables;
    extends = extends;
    covered = covered;
    found = λ j lt. absurd (omega arith);
    distinct = λ i j lt few. absurd (omega arith);
    others = λ w apart. same w;
    rest = rest;
  }

  module _ (n : ℕ → ℕ) (phys : ℕ) (given : List Block) (gives : Covers bs given)
      (taken : IsTaken k.memory_slide bs given phys)
      (same : (w : ℕ) → translate (record k { mem = n }) root w ≡ translate k root w) where
    mapped_backed :
        (done : Bool) (k' : Kernel)
        → MapPost (record k { mem = n }) given root own virt phys read_write done k'
        → BackedTo k bs root own virt 1 (if done then backed else no_mapping) k'
    mapped_backed true k' (left, own', m) =
        let still : IsTaken k.memory_slide bs left phys = record {
          page = taken.page;
          small = taken.small;
          was_free = taken.was_free;
          fresh = m.covered (k.memory_slide + phys, 4096) taken.fresh;
        } in
        (
          1,
          left,
          own',
          record {
            list = m.list;
            tables = m.tables;
            extends = m.extends;
            covered = λ x o. m.covered x (gives x o);
            found =
                λ j lt. let e : virt + j * 4096 ≡ virt = omega arith in (phys, still, rw e m.found);
            distinct = λ i j lt few. absurd (omega arith);
            others = λ w apart.
                let e : virt + 0 * 4096 ≡ virt = omega arith in
                m.others w (rw e at (apart 0 (omega arith))) ∙ same w;
            rest =
                m.rest
                ∙ ap (λ v. record k { mem = k'.mem; invalidated = v })
                    (sym (ap (λ q. q.invalidated) m.rest));
          },
          refl,
        )
    mapped_backed false k' (left, own', u) = (
      0,
      left,
      own',
      IsBacked-none k' left own' u.list u.tables u.extends (λ x o. u.covered x (gives x o))
          (λ w. u.same w ∙ same w)
          (u.rest
            ∙ ap (λ v. record k { mem = k'.mem; invalidated = v })
                (sym (ap (λ q. q.invalidated) u.rest))),
      (omega arith, u.none_left),
    )

  module _ (is : IsFreeList k bs) (ts : IsTables k.boot k.mem bs root own) where
    map_page-BackedTo :
        (n : ℕ → ℕ) (r p : ℕ) (left : List Block)
        → IsServed k bs 4096 r (record k { mem = n }) p left
        → Ensures (map_page virt r (record k { mem = n })) (BackedTo k bs root own virt 1)
    unfolding map_page
    map_page-BackedTo n r p left served =
        let taken = served-IsTaken k bs root own n r p left ts served in
        let some_page : (r == 0) ≡ false = (let pos = taken.page.0 in ground arith) in
        rw (some_page, sym active)
          (and_then-Ensures (map_virtual root virt r read_write (record k { mem = n }))
            (λ done. pure (if done then backed else no_mapping))
            (MapPost (record k { mem = n }) left root own virt r read_write)
            (BackedTo k bs root own virt 1)
            (map_virtual-MapPost (record k { mem = n }) left root own virt r read_write served.list
              (served-IsTables k bs root own n r p left ts served) page taken.page)
            (mapped_backed n r left served.handed.covered taken
              (served-translate k bs root own n r p left ts served)))

    map_page-none : TooSmall 4096 bs → Ensures (map_page virt 0 k) (BackedTo k bs root own virt 1)
    unfolding map_page
    map_page-none few = (
      0,
      bs,
      own,
      IsBacked-none k bs own is ts (λ t x o. o) (λ x o. o) (λ w. refl) refl,
      (omega arith, few),
    )

    pub back_page-BackedTo : Ensures (back_page virt k) (BackedTo k bs root own virt 1)
    unfolding back_page
    back_page-BackedTo =
        and_then-Ensures (alloc_page k) (map_page virt) (AllocPost k bs 4096)
          (BackedTo k bs root own virt 1) (alloc_page-AllocPost k bs is)
          (λ r k' post. elim post [
            | inl (few, z, same) ↦
                subst (λ q. Ensures (map_page virt r q) (BackedTo k bs root own virt 1)) (sym same)
                  (subst (λ x. Ensures (map_page virt x k) (BackedTo k bs root own virt 1)) (sym z)
                    (map_page-none few))
            | inr (many, (p, left, s)) ↦
                subst (λ q. Ensures (map_page virt r q) (BackedTo k bs root own virt 1))
                  (sym s.rest)
                  (map_page-BackedTo k'.mem r p left
                    (subst (λ q. IsServed k bs 4096 r q p left) s.rest s))
          ])
