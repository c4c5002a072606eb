-- ===== src/Vma/Zipper.antt =====
-- How the nodes lie in memory, seen from a place in the list: the nodes behind it, the nearest
-- first, and those ahead. Frame lemmas say which writes leave either side alone.
use unnamed.Prelude.{
  ℕ, ◌+◌, ◌≤◌, ◌<◌, ◌≡◌, refl, ◌∙◌, Bool, true, false, List, [], ◌∷◌, ltb, leb, ◌&&◌, arith,
  if◌then◌else◌, ap,
}
use unnamed.Vma.{Node, Nodes, Allocator}

-- A range of pages, and the pointer of its node.
pub record Cell : Type 0 where
  pub ptr : ℕ
  pub is_free : Bool
  pub start : ℕ
  pub npages : ℕ

abbrev pub node_of : (max_nodes : ℕ) → Cell → (prev next : ℕ) → Node
node_of mx c prev next = record {
  valid = true;
  dynamic = ltb mx c.ptr;
  is_free = c.is_free;
  start = c.start;
  npages = c.npages;
  prev = prev;
  next = next;
}

pub record IsNode (mx : ℕ) (m : Nodes) (c : Cell) (prev next : ℕ) : Type 0 where
  pub ne_null : 0 < c.ptr
  pub holds : m c.ptr ≡ node_of mx c prev next

abbrev pub first : List Cell → ℕ
first [] = 0
first (c ∷ cs) = c.ptr

-- The pointer that the list begins with: the last behind, or `p` where nothing is behind.
abbrev pub origin : List Cell → (p : ℕ) → ℕ
origin [] p = p
origin (c ∷ cs) p = origin cs c.ptr

abbrev pub Ahead : ℕ → Nodes → (prev : ℕ) → List Cell → Type 0
Ahead mx m prev [] = Unit
Ahead mx m prev (c ∷ cs) = IsNode mx m c prev (first cs) × Ahead mx m c.ptr cs

abbrev pub Behind : ℕ → Nodes → (next : ℕ) → List Cell → Type 0
Behind mx m next [] = Unit
Behind mx m next (c ∷ cs) = IsNode mx m c (first cs) next × Behind mx m c.ptr cs

-- The ranges ahead follow one another from the page `pos` to `total`, those behind back to page 0.
abbrev pub Tiles : (total pos : ℕ) → List Cell → Type 0
Tiles total pos [] = pos ≡ total
Tiles total pos (c ∷ cs) = (c.start ≡ pos) × (0 < c.npages) × Tiles total (pos + c.npages) cs

abbrev pub TilesBack : (pos : ℕ) → List Cell → Type 0
TilesBack pos [] = pos ≡ 0
TilesBack pos (c ∷ cs) = (c.start + c.npages ≡ pos) × (0 < c.npages) × TilesBack c.start cs

pub record IsZipper (a : Allocator) (left right : List Cell) (pos : ℕ) : Type 0 where
  pub ahead : Ahead a.max_nodes a.nodes (first left) right
  pub behind : Behind a.max_nodes a.nodes (first right) left
  pub tiles : Tiles a.total_pages pos right
  pub tiles_back : TilesBack pos left
  pub leads : a.head ≡ origin left (first right)

-- Whether the page is free.
abbrev pub covers : Cell → (page : ℕ) → Bool
covers c page = leb c.start page && ltb page (c.start + c.npages)

abbrev pub free_at : List Cell → (page : ℕ) → Bool
free_at [] page = false
free_at (c ∷ cs) page = if covers c page then c.is_free else free_at cs page

abbrev pub zip : (left right : List Cell) → List Cell
zip [] right = right
zip (c ∷ left) right = zip left (c ∷ right)

module _ (a : Allocator) where
  -- The place moves over a node.
  pub IsZipper-step :
      (c : Cell) (left right : List Cell) (pos : ℕ)
      → IsZipper a left (c ∷ right) pos
      → IsZipper a (c ∷ left) right (pos + c.npages)
  IsZipper-step c left right pos z = record {
    ahead = z.ahead.1;
    behind = (z.ahead.0, z.behind);
    tiles = z.tiles.2;
    tiles_back = (omega (arith, z.tiles.0), z.tiles.1, rw z.tiles.0 z.tiles_back);
    leads = z.leads;
  }

  pub IsZipper-back :
      (c : Cell) (left right : List Cell) (pos : ℕ)
      → IsZipper a (c ∷ left) right pos
      → IsZipper a left (c ∷ right) c.start
  IsZipper-back c left right pos z = record {
    ahead = (z.behind.0, z.ahead);
    behind = z.behind.1;
    tiles = (refl, z.tiles_back.1, rw z.tiles_back.0 z.tiles);
    tiles_back = z.tiles_back.2;
    leads = z.leads;
  }

  pub IsZipper-zip :
      (left right : List Cell) (pos : ℕ)
      → IsZipper a left right pos
      → IsZipper a [] (zip left right) 0
  IsZipper-zip [] right pos z = record {
    ahead = z.ahead;
    behind = tt;
    tiles = rw z.tiles_back at z.tiles;
    tiles_back = refl;
    leads = z.leads;
  }
  IsZipper-zip (c ∷ left) right pos z =
      IsZipper-zip left (c ∷ right) c.start (IsZipper-back c left right pos z)

free_at-below :
    (left : List Cell) (pos page : ℕ) → TilesBack pos left → pos ≤ page → free_at left page ≡ false
free_at-below [] pos page t le = refl
free_at-below (c ∷ left) pos page t le =
    let ih = free_at-below left c.start page t.2 (omega (arith, t.0)) in
    let past = t.0 in ground arith

-- A page below the place is looked up behind, any other ahead.
pub free_at-zip :
    (left right : List Cell) (pos page : ℕ)
    → TilesBack pos left
    → free_at (zip left right) page
      ≡ (if ltb page pos then free_at left page else free_at right page)
free_at-zip [] right pos page t = (let e : ltb page pos ≡ false = ground (arith, t) in rw e)
free_at-zip (c ∷ left) right pos page t =
    let past = t.0 in free_at-zip left (c ∷ right) c.start page t.2 ∙ ground arith

-- Writes that spare the valid nodes of the pages on a side leave it alone.
pub Ahead-frame :
    (mx : ℕ) (m n : Nodes) (prev total pos : ℕ) (cs : List Cell)
    → ((q : ℕ) → (m q).valid ≡ true → pos ≤ (m q).start → n q ≡ m q)
    → Tiles total pos cs
    → Ahead mx m prev cs
    → Ahead mx n prev cs
Ahead-frame mx m n prev total pos [] same t h = tt
Ahead-frame mx m n prev total pos (c ∷ cs) same t h =
    let here = h.0.holds in
    (
      record {
        ne_null = h.0.ne_null;
        holds =
            same c.ptr (ap (λ x. x.valid) here) (rw (ap (λ x. x.start) here, t.0) (omega arith))
            ∙ here;
      },
      Ahead-frame mx m n c.ptr total (pos + c.npages) cs (λ q v le. same q v (omega arith)) t.2 h.1,
    )

pub Behind-frame :
    (mx : ℕ) (m n : Nodes) (next pos : ℕ) (cs : List Cell)
    → ((q : ℕ) → (m q).valid ≡ true → (m q).start < pos → n q ≡ m q)
    → TilesBack pos cs
    → Behind mx m next cs
    → Behind mx n next cs
Behind-frame mx m n next pos [] same t h = tt
Behind-frame mx m n next pos (c ∷ cs) same t h =
    let here = h.0.holds in
    (
      record {
        ne_null = h.0.ne_null;
        holds =
            same c.ptr (ap (λ x. x.valid) here) (rw (ap (λ x. x.start) here) (omega (arith, t.0)))
            ∙ here;
      },
      Behind-frame mx m n c.ptr c.start cs (λ q v lt. same q v (omega (arith, t.0))) t.2 h.1,
    )
