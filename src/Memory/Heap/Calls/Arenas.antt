-- ===== src/Memory/Heap/Calls/Arenas.antt =====
-- The blocks of an arena of kernel/memory.c on the list of their descriptor: `sysMalloc` puts them
-- there, and `sysFree` takes them off when all of them are free.
use holo_os.Base.{
  ℕ, zero, suc, ◌+◌, ◌%◌, ◌^◌, ◌<◌, ◌≤◌, ◌≡◌, ◌≢◌, refl, sym, subst, inl, inr, Bool-cases, true,
  false, not, ◌&&◌, ◌==◌, List, [], ◌∷◌, ◌++◌, length, length-++, arith,
}
use mathlib.Core.List.{append_assoc, append-nil}
use holo_os.Base.Run.{ok}
use holo_os.LinkedList.{Links, null, tail, list_append, list_remove}
use holo_os.LinkedList.Distinct.{Absent, Absent-append}
use holo_os.LinkedList.Segment.{IsList}
use holo_os.LinkedList.Sequence.{list_append_lem}
use holo_os.LinkedList.Walk.{member, list_exist_lem}
use holo_os.Memory.Heap.{MemBlockDesc, arena2block}
use holo_os.Memory.Heap.Blocks.{IsDesc, ordered}
use holo_os.Memory.Heap.Calls.{split_arena, unsplit_arena}
use holo_os.Memory.Heap.Members.{list_remove-member, Absent-not_member}

-- The blocks of the arena at `a` from number `idx` on.
abbrev pub blocks : ℕ → MemBlockDesc → ℕ → ℕ → List ℕ
blocks a d idx zero = []
blocks a d idx (suc n) = arena2block a d idx ∷ blocks a d (idx + 1) n

pub length-blocks : (a : ℕ) (d : MemBlockDesc) (idx n : ℕ) → length (blocks a d idx n) ≡ n
length-blocks a d idx zero = refl
length-blocks a d idx (suc n) = let rest = length-blocks a d (idx + 1) n in omega arith

pub member-blocks :
    (a : ℕ) (d : MemBlockDesc) (n idx i : ℕ)
    → idx ≤ i
    → i < idx + n
    → member (arena2block a d i) (blocks a d idx n) ≡ true
member-blocks a d zero idx i le lt = absurd (omega arith)
member-blocks a d (suc n) idx i le lt = elim (Bool-cases (idx == i)) [
  | inl same ↦ let e : idx ≡ i = ground arith in rw e (ground arith)
  | inr other ↦
      let rest = member-blocks a d n (idx + 1) i (ground arith) (omega arith) in ground arith
]

module _ (a : ℕ) (d : MemBlockDesc) (fuel : ℕ) (desc : IsDesc d) (page : a % 4096 ≡ 0)
    (low : a + 4096 ≤ 2 ^ 32) where
  later : (i j : ℕ) → i < j → j < d.blocks_per_arena → arena2block a d j ≢ arena2block a d i
  later i j lt lt' e =
      let o = ordered d a i j desc page low lt lt' in let pos = desc.0 in omega arith

  pub before-Absent :
      (n idx i : ℕ)
      → i < idx
      → idx + n ≤ d.blocks_per_arena
      → Absent (arena2block a d i) (blocks a d idx n)
  before-Absent zero idx i lt le = tt
  before-Absent (suc n) idx i lt le = (
    λ e. later i idx lt (omega arith) (sym e),
    before-Absent n (idx + 1) i (omega arith) (omega arith),
  )

  -- The blocks from `idx` on are no nodes of the list `xs` at the descriptor's head.
  abbrev pub Fresh : ℕ → List ℕ → Type 0
  Fresh idx xs =
      (i : ℕ)
      → idx ≤ i
      → i < d.blocks_per_arena
      → Absent (arena2block a d i) (null ∷ d.free_list ∷ tail d.free_list ∷ xs)

  Fresh-next :
      (idx : ℕ) (xs : List ℕ)
      → idx < d.blocks_per_arena
      → Fresh idx xs
      → Fresh (idx + 1) (xs ++ arena2block a d idx ∷ [])
  Fresh-next idx xs lt f i le lt' =
      let (z, (h, (t, out))) = f i (omega arith) lt' in
      (
        z,
        (
          h,
          (
            t,
            Absent-append (arena2block a d i) xs (arena2block a d idx ∷ []) out
                (later idx i (omega arith) lt', tt),
          ),
        ),
      )

  pub split_arena_lem :
      (n idx : ℕ) (links : Links) (xs : List ℕ)
      → idx + n ≤ d.blocks_per_arena
      → length xs + n < fuel
      → IsList links d.free_list xs
      → Fresh idx xs
      → (links' : Links) × (split_arena n fuel a d idx links ≡ ok links')
        × IsList links' d.free_list (xs ++ blocks a d idx n)
  unfolding split_arena
  split_arena_lem zero idx links xs in_arena lt is f =
      (links, refl, subst (λ l. IsList links d.free_list l) (sym (append-nil xs)) is)
  split_arena_lem (suc n) idx links xs in_arena lt is f =
      let b = arena2block a d idx in
      let out = f idx (omega arith) (omega arith) in
      let none_there : member b xs ≡ false = Absent-not_member b xs out.1.1.1 in
      let walk = list_exist_lem xs is fuel (omega arith) b in
      let len = length-++ xs (b ∷ []) in
      let (links', run, is') =
        split_arena_lem n (idx + 1) (list_append links d.free_list b) (xs ++ b ∷ []) (omega arith)
          (omega arith) (list_append_lem xs b is out).0 (Fresh-next idx xs (omega arith) f) in
      (
        links',
        rw (walk, none_there) run,
        subst (λ l. IsList links' d.free_list l) (append_assoc xs (b ∷ []) (blocks a d (idx + 1) n))
            is',
      )

  -- Every block from `idx` on is on the list.
  pub unsplit_arena_lem :
      (n idx : ℕ) (links : Links) (xs : List ℕ)
      → idx + n ≤ d.blocks_per_arena
      → length xs < fuel
      → IsList links d.free_list xs
      → ((i : ℕ) → idx ≤ i → i < idx + n → member (arena2block a d i) xs ≡ true)
      → (links' : Links) × (ys : List ℕ) × (unsplit_arena n fuel a d idx links ≡ ok links')
        × IsList links' d.free_list ys
        × ((x : ℕ) → member x ys ≡ (member x xs && not (member x (blocks a d idx n))))
  unfolding unsplit_arena
  unsplit_arena_lem zero idx links xs in_arena lt is there =
      (links, xs, refl, is, λ x. ground arith)
  unsplit_arena_lem (suc n) idx links xs in_arena lt is there =
      let b = arena2block a d idx in
      let found = there idx (omega arith) (omega arith) in
      let walk = list_exist_lem xs is fuel lt b in
      let (ys, left, shorter, others) = list_remove-member b xs is found in
      let (links', zs, run, is', rest) =
        unsplit_arena_lem n (idx + 1) (list_remove links b) ys (omega arith) (omega arith) left
          (λ i le lt'.
            let m = there i (omega arith) (omega arith) in
            let o = others (arena2block a d i) in
            let ne = later idx i (omega arith) (omega arith) in ground arith) in
      (
        links',
        zs,
        rw (walk, found) run,
        is',
        λ x. let r = rest x in let o = others x in ground arith,
      )
