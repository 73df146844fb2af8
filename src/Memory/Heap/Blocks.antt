-- ===== src/Memory/Heap/Blocks.antt =====
-- The blocks of an arena of kernel/memory.c.
use native.Mathlib.Nat.{le-div_iff_mul-le, mul-le-mul_right}
use holo_os.Base.{
  suc, ℕ, ◌+◌, ◌-◌, ◌*◌, ◌/◌, ◌%◌, ◌^◌, ◌<◌, ◌≤◌, ◌≡◌, refl, ◌⊎◌, inl, inr, Bool-cases, leb, some,
  List, [], ◌∷◌, arith,
}
use holo_os.LinkedList.{Links}
use holo_os.Memory.Paging.Entries.{and_frame}
use holo_os.Memory.Heap.{MemBlockDesc, block_desc_init, find_desc, arena2block, block2arena}

-- A descriptor whose blocks fill an arena's page as far as they fit.
abbrev pub IsDesc : MemBlockDesc → Type 0
IsDesc d = (0 < d.block_size) × (d.blocks_per_arena ≡ (4096 - 12) / d.block_size)

fit : (n b i : ℕ) → 0 < b → i < n / b → i * b + b ≤ n
fit n b i pos lt =
    let le : suc i * b ≤ n = (le-div_iff_mul-le pos).0 (omega arith) in
    let step : suc i * b ≡ i * b + b = omega arith in omega arith

pub in_page :
    (d : MemBlockDesc) (a i : ℕ)
    → IsDesc d
    → a % 4096 ≡ 0
    → a + 4096 ≤ 2 ^ 32
    → i < d.blocks_per_arena
    → (arena2block a d i ≡ a + 12 + i * d.block_size)
      × (a + 12 + i * d.block_size + d.block_size ≤ a + 4096)
      × (block2arena (arena2block a d i) ≡ a)
unfolding arena2block block2arena
in_page d a i (pos, n) page low lt =
    let inside : i * d.block_size + d.block_size ≤ 4084 =
      fit 4084 d.block_size i pos (omega arith) in
    let addr : (a + 12 + i * d.block_size) % 2 ^ 32 ≡ a + 12 + i * d.block_size = omega arith in
    (addr, omega arith, rw addr (omega (arith, and_frame (a + 12 + i * d.block_size), inside)))

pub ordered :
    (d : MemBlockDesc) (a i j : ℕ)
    → IsDesc d
    → a % 4096 ≡ 0
    → a + 4096 ≤ 2 ^ 32
    → i < j
    → j < d.blocks_per_arena
    → arena2block a d i + d.block_size ≤ arena2block a d j
ordered d a i j ok page low lt lt' =
    let (ei, _, _) = in_page d a i ok page low (omega arith) in
    let (ej, _, _) = in_page d a j ok page low lt' in
    let more : suc i * d.block_size ≤ j * d.block_size =
      mul-le-mul_right d.block_size (omega arith) in
    let step : suc i * d.block_size ≡ i * d.block_size + d.block_size = omega arith in omega arith

-- Descriptors whose sizes double from `size` on.
abbrev Doubling : ℕ → List MemBlockDesc → Type 0
Doubling size [] = Unit {0}
Doubling size (d ∷ ds) = (d.block_size ≡ size) × IsDesc d × Doubling (size + size) ds

abbrev Covers : ℕ → List MemBlockDesc → Type 0
Covers size [] = 1 ≤ 0
Covers size (d ∷ ds) = (size ≤ d.block_size) ⊎ Covers size ds

find_desc_lem :
    (ds : List MemBlockDesc) (first size : ℕ)
    → Doubling first ds
    → Covers size ds
    → (d : MemBlockDesc) × (find_desc ds size ≡ some d)
      × IsDesc d
      × (size ≤ d.block_size)
      × ((d.block_size ≡ first) ⊎ (d.block_size < 2 * size))
unfolding find_desc
find_desc_lem [] first size up c = absurd (omega arith)
find_desc_lem (d ∷ ds) first size (e, ok, up) c = elim (Bool-cases (leb size d.block_size)) [
  | inl fits ↦ (d, rw fits refl, ok, ground arith, inl e)
  | inr small ↦
      let c' : Covers size ds = elim c [ inl le ↦ absurd (ground arith) | inr more ↦ more ] in
      let (d', run, ok', le, tight) = find_desc_lem ds (first + first) size up c' in
      (d', rw small run, ok', le, inr (ground arith))
]

-- For a size of at most 1024 bytes `sysMalloc` finds a descriptor among the seven of `blockDescInit`:
-- its blocks are as large as that, and less than twice as large or the smallest there are. In a
-- page that is an arena of that descriptor the blocks lie behind the arena's head, inside the page
-- and apart from each other, and `block2arena` leads from each of them back to the arena.
pub block2arena-arena2block :
    (h : Links) (desc_arr size a : ℕ)
    → size ≤ 1024
    → a % 4096 ≡ 0
    → a + 4096 ≤ 2 ^ 32
    → (d : MemBlockDesc) × (find_desc (block_desc_init h desc_arr).0 size ≡ some d)
      × (size ≤ d.block_size)
      × ((d.block_size ≡ 16) ⊎ (d.block_size < 2 * size))
      × ((i : ℕ)
          → i < d.blocks_per_arena
          → (block2arena (arena2block a d i) ≡ a)
            × (a + 12 ≤ arena2block a d i)
            × (arena2block a d i + d.block_size ≤ a + 4096))
      × ((i j : ℕ)
          → i < j
          → j < d.blocks_per_arena
          → arena2block a d i + d.block_size ≤ arena2block a d j)
unfolding block_desc_init
block2arena-arena2block h desc_arr size a le page low =
    let (d, run, ok, fits, tight) =
      find_desc_lem (block_desc_init h desc_arr).0 16 size
        (
          refl,
          (omega arith, refl),
          (
            refl,
            (omega arith, refl),
            (
              refl,
              (omega arith, refl),
              (
                refl,
                (omega arith, refl),
                (
                  refl,
                  (omega arith, refl),
                  (refl, (omega arith, refl), (refl, (omega arith, refl), tt)),
                ),
              ),
            ),
          ),
        )
        (inr (inr (inr (inr (inr (inr (inl le))))))) in
    (
      d,
      run,
      fits,
      tight,
      (λ i lt.
          let (e, top, back) = in_page d a i ok page low lt in (back, omega arith, omega arith)),
      λ i j lt lt'. ordered d a i j ok page low lt lt',
    )
