-- ===== src/Memory/Heap/Kept.antt =====
-- Which links `blockDescInit` of kernel/memory.c stores.
use holo_os.Base.{ℕ, zero, suc, ◌+◌, ◌*◌, ◌%◌, ◌^◌, ◌<◌, ◌≤◌, ◌≡◌, ◌⊎◌, refl, ◌∙◌, arith}
use holo_os.LinkedList.{Links, list_init}
use holo_os.Memory.Heap.{desc_loop, block_desc_init}

-- The links of a node are the same.
abbrev pub SameNode : Links → Links → ℕ → Type 0
SameNode h g a = (g.next a ≡ h.next a) × (g.prev a ≡ h.prev a)

desc_loop-SameNode :
    (rounds : ℕ) (h : Links) (desc size a : ℕ)
    → (a < desc) ⊎ (desc + 24 * rounds ≤ a)
    → SameNode h (desc_loop rounds h desc size).1 a
unfolding desc_loop list_init
desc_loop-SameNode zero h desc size a out = (refl, refl)
desc_loop-SameNode (suc rounds) h desc size a out =
    let rest =
      desc_loop-SameNode rounds (list_init h (desc + 8)) (desc + 24) ((size + size) % 2 ^ 32) a
        (omega arith) in
    (rest.0 ∙ ground arith, rest.1 ∙ ground arith)

-- It stores only inside the seven descriptors.
pub block_desc_init-SameNode :
    (h : Links) (arr a : ℕ) → (a < arr) ⊎ (arr + 168 ≤ a) → SameNode h (block_desc_init h arr).1 a
unfolding block_desc_init
block_desc_init-SameNode h arr a out = desc_loop-SameNode 7 h arr 16 a (omega arith)
