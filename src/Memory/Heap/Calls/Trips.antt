-- ===== src/Memory/Heap/Calls/Trips.antt =====
-- `sysMalloc` and `sysFree` of kernel/memory.c on small blocks: a new arena, and one that is whole again.
use holo_os.Base.{
  ℕ, suc, ◌+◌, ◌-◌, ◌%◌, ◌^◌, ◌<◌, ◌≤◌, ◌≡◌, ◌≢◌, refl, sym, subst, ap, ◌∙◌, ◌⊎◌, inl, inr,
  Bool-cases, true, false, not, ◌&&◌, ◌==◌, some, List, [], ◌∷◌, ◌++◌, length, length-++, arith,
}
use holo_os.Base.Memory.{update}
use holo_os.Base.Run.{ok}
use holo_os.CString.Block.{fill, memset_lem}
use holo_os.LinkedList.{Links, null, tail, list_append, list_pop}
use holo_os.LinkedList.Distinct.{Absent}
use holo_os.LinkedList.Segment.{IsList}
use holo_os.LinkedList.Sequence.{list_append_lem, list_pop_lem, list_empty-nil}
use holo_os.LinkedList.Walk.{member}
use holo_os.Memory.Alloc.{malloc_page, mfree_page, clear_pages}
use holo_os.Memory.Heap.{MemBlockDesc, arena2block, block2arena}
use holo_os.Memory.Heap.Blocks.{IsDesc, in_page}
use holo_os.Memory.Heap.Calls.{
  Heap, put, new_arena, take_block, malloc_block, free_block, unsplit_arena,
}
use holo_os.Memory.Heap.Members.{not_member-Absent, member-append, or-and_not}
use holo_os.Memory.Heap.Calls.Arenas.{blocks, member-blocks, split_arena_lem, unsplit_arena_lem}
use holo_os.Memory.Paging.{Store}
use holo_os.Memory.Pool.{Pools, VirtualAddr, PoolFlags}

-- An arena of the descriptor may lie at `a`: a page that the descriptor's list head is not in.
pub record IsArena (a : ℕ) (d : MemBlockDesc) : Type 0 where
  pub desc : IsDesc d
  pub some_blocks : 2 ≤ d.blocks_per_arena
  pub few_blocks : d.blocks_per_arena ≤ 4084
  pub page : a % 4096 ≡ 0
  pub pos : 0 < a
  pub low : a + 4096 ≤ 2 ^ 32
  pub head : (tail d.free_list < a) ⊎ (a + 4096 ≤ d.free_list)

abbrev pub cleared : Store → ℕ → Store
cleared s a = record { bytes = fill s.bytes a 0 4096; words = fill s.words a 0 4096 }

clear_page : (s : Store) (a : ℕ) → 0 < a → clear_pages s a 1 ≡ ok (cleared s a)
unfolding clear_pages
clear_page s a pos =
    let ne : (a == 0) ≡ false = ground arith in
    rw (memset_lem s.bytes a 0 4096, memset_lem s.words a 0 4096, ne) refl

module _ (h : Heap) (d : MemBlockDesc) where
  -- What `take_block` leaves when it takes the block `b`.
  abbrev pub taken : ℕ → Heap
  taken b = record h {
    store = record {
      bytes = fill h.store.bytes b 0 d.block_size;
      words = fill h.store.words b 0 d.block_size;
    };
    links = (list_pop h.links d.free_list).1;
    cnt = update h.cnt (block2arena b) ((h.cnt (block2arena b) + 2 ^ 32 - 1) % 2 ^ 32);
  }

  take_block_lem :
      (b : ℕ) (bs : List ℕ)
      → IsList h.links d.free_list (b ∷ bs)
      → (take_block h d ≡ ok (b, taken b)) × IsList (taken b).links d.free_list bs
  unfolding take_block
  take_block_lem b bs is =
      let (value, left, _) = list_pop_lem (b ∷ bs) is in
      let ne : (b == 0) ≡ false = let z = is.apart.0.1.1.0 in ground arith in
      (
        rw
            (
              value,
              memset_lem h.store.bytes b 0 d.block_size,
              memset_lem h.store.words b 0 d.block_size,
              ne,
            )
            refl,
        left,
      )

module _ (h : Heap) (pools : Pools) (user : VirtualAddr) (pf : PoolFlags) (d : MemBlockDesc)
    (a fuel : ℕ) (v : IsArena a d) where
  fresh :
      (i : ℕ)
      → 0 ≤ i
      → i < d.blocks_per_arena
      → Absent (arena2block a d i) (null ∷ d.free_list ∷ tail d.free_list ∷ [])
  fresh i z lt =
      let (e, inside, _) = in_page d a i v.desc v.page v.low lt in
      let pos = v.desc.0 in
      let p = v.pos in
      elim v.head [
        | inl below ↦ (omega arith, (omega arith, (omega arith, tt)))
        | inr above ↦ (omega arith, (omega arith, (omega arith, tt)))
      ]

  abbrev made : Store → Links → Heap
  made s links = record h {
    store = cleared s a;
    links = links;
    desc = put h.desc a (some d);
    cnt = update h.cnt a d.blocks_per_arena;
    large = put h.large a false;
  }

  new_arena_lem :
      (s : Store)
      → malloc_page h.store pools user pf 1 ≡ ok (a, s)
      → IsList h.links d.free_list []
      → d.blocks_per_arena < fuel
      → (links : Links) × (new_arena fuel h pools user pf d ≡ ok (true, made s links))
        × IsList links d.free_list (blocks a d 0 d.blocks_per_arena)
  unfolding new_arena
  new_arena_lem s got is lt =
      let (links, run, is') =
        split_arena_lem a d fuel v.desc v.page v.low d.blocks_per_arena 0 h.links [] (omega arith)
          (omega arith) is fresh in
      let ne : (a == 0) ≡ false = let p = v.pos in ground arith in
      (links, rw (got, ne, clear_page s a v.pos, run) refl, is')

  -- What `sysMalloc` leaves when it makes the arena at `a` for the first block.
  abbrev pub first_taken : Store → Links → Heap
  first_taken s links = taken (made s links) d (arena2block a d 0)

  pub malloc_block-new :
      (s : Store)
      → malloc_page h.store pools user pf 1 ≡ ok (a, s)
      → IsList h.links d.free_list []
      → d.blocks_per_arena < fuel
      → (links : Links) × (malloc_block fuel h pools user pf d
          ≡ ok (arena2block a d 0, first_taken s links))
        × IsList (first_taken s links).links d.free_list (blocks a d 1 (d.blocks_per_arena - 1))
  unfolding malloc_block
  malloc_block-new s got is lt =
      let (links, run, is') = new_arena_lem s got is lt in
      let two = v.some_blocks in
      let more : d.blocks_per_arena ≡ suc (d.blocks_per_arena - 1) = omega arith in
      let all : IsList links d.free_list
          (arena2block a d 0 ∷ blocks a d 1 (d.blocks_per_arena - 1)) =
        subst (λ n. IsList links d.free_list (blocks a d 0 n)) more is' in
      let (go, left) =
        take_block_lem (made s links) d (arena2block a d 0) (blocks a d 1 (d.blocks_per_arena - 1))
          all in
      (links, rw (list_empty-nil is, run) go, left)

module _ (h : Heap) (pools : Pools) (user : VirtualAddr) (pf : PoolFlags) (d : MemBlockDesc)
    (a fuel : ℕ) (v : IsArena a d) where
  aside :
      (j : ℕ)
      → j < d.blocks_per_arena
      → Absent (arena2block a d j) (null ∷ d.free_list ∷ tail d.free_list ∷ [])
  aside j lt = fresh h pools user pf d a fuel v j (omega arith) lt

  -- What `sysFree` leaves of the heap's fields, with the links `links` and the store `s`.
  abbrev pub freed : Links → Store → Heap
  freed links s = record h {
    store = s;
    links = links;
    cnt = update h.cnt a ((h.cnt a + 1) % 2 ^ 32);
  }

  -- The last block of an arena that comes back: no block of the arena is on the descriptor's list any
  -- more, every other block is, and the arena's page is given back.
  pub free_block-last :
      (j : ℕ) (xs : List ℕ) (s : Store)
      → j < d.blocks_per_arena
      → IsList h.links d.free_list xs
      → member (arena2block a d j) xs ≡ false
      → ((i : ℕ) → i < d.blocks_per_arena → i ≢ j → member (arena2block a d i) xs ≡ true)
      → h.cnt a + 1 ≡ d.blocks_per_arena
      → length xs + 1 < fuel
      → mfree_page h.store pools user pf a 1 ≡ ok s
      → (links : Links) × (ys : List ℕ) × (free_block fuel h pools user pf d (arena2block a d j)
          ≡ ok (freed links s))
        × IsList links d.free_list ys
        × ((x : ℕ)
            → member x ys ≡ (member x xs && not (member x (blocks a d 0 d.blocks_per_arena))))
  unfolding free_block
  free_block-last j xs s lt is out all count len gave =
      let b = arena2block a d j in
      let few = v.few_blocks in
      let (addr, inside, home) = in_page d a j v.desc v.page v.low lt in
      let here : (h.cnt a + 1) % 2 ^ 32 ≡ d.blocks_per_arena = omega arith in
      let full : ((h.cnt (block2arena b) + 1) % 2 ^ 32 == d.blocks_per_arena) ≡ true =
        rw home (ground arith) in
      let apart = aside j lt in
      let fresh' : Absent b (null ∷ d.free_list ∷ tail d.free_list ∷ xs) =
        (apart.0, (apart.1.0, (apart.1.1.0, not_member-Absent b xs out))) in
      let len' = length-++ xs (b ∷ []) in
      let (links, ys, run, is', rest) =
        unsplit_arena_lem a d fuel v.desc v.page v.low d.blocks_per_arena 0
          (list_append h.links d.free_list b) (xs ++ b ∷ []) (omega arith) (omega arith)
          (list_append_lem xs b is fresh').0
          (λ i le lt'.
            let m = member-append (arena2block a d i) b xs in
            elim (Bool-cases (i == j)) [
              | inl same ↦ let e : i ≡ j = ground arith in rw (m, e) (ground arith)
              | inr other ↦ let there = all i (omega arith) (ground arith) in rw (m, there) refl
            ]) in
      (
        links,
        ys,
        rw
            (
              full,
              ap
                    (λ p.
                      unsplit_arena d.blocks_per_arena fuel p d 0
                        (list_append h.links d.free_list b))
                    home
                  ∙ run,
              ap (λ p. mfree_page h.store pools user pf p 1) home ∙ gave,
              home,
            )
            refl,
        is',
        λ x.
            let r = rest x in
            let m = member-append x b xs in
            let mine = member-blocks a d d.blocks_per_arena 0 j (omega arith) (omega arith) in
            r
            ∙ ap (λ t. t && not (member x (blocks a d 0 d.blocks_per_arena))) m
            ∙ or-and_not (member x xs) (b == x) (member x (blocks a d 0 d.blocks_per_arena))
                (λ same. let e : b ≡ x = ground arith in rw (sym e) mine),
      )
