-- ===== src/LinkedList/Walk.antt =====
-- The loops of lib/list.c that walk a list: `listExist`, `listTraversal` and `listLen`. Each ends
-- when it has more rounds than the list has nodes.
use holo_os.Base.{
  ℕ, zero, suc, ◌+◌, ◌%◌, ◌^◌, ◌<◌, ◌≡◌, Bool, false, ◌||◌, ◌==◌, if◌then◌else◌, List, [], ◌∷◌,
  length, arith, ==_refl,
}
use holo_os.Base.Run.{ok}
use holo_os.LinkedList.{
  Links, null, tail, exist_loop, list_exist, traversal_loop, list_traversal, len_loop, list_len,
}
use holo_os.LinkedList.Distinct.{Absent}
use holo_os.LinkedList.Segment.{Seg, IsList}

abbrev pub member : ℕ → List ℕ → Bool
member a [] = false
member a (x ∷ xs) = x == a || member a xs

-- The first node that the caller's test accepts, or NULL.
abbrev pub find : (ℕ → Bool) → List ℕ → ℕ
find p [] = null
find p (x ∷ xs) = if p x then x else find p xs

module _ (h : Links) (l : ℕ) where
  exist_loop_lem :
      (fuel node p : ℕ) (xs : List ℕ)
      → Seg h p xs (tail l)
      → Absent (tail l) xs
      → length xs < fuel
      → exist_loop fuel h l node (h.next p) ≡ ok (member node xs)
  unfolding exist_loop
  exist_loop_lem zero node p xs s out lt = absurd (omega arith)
  exist_loop_lem (suc fuel) node p [] s out lt = rw (s.0, ==_refl)
  exist_loop_lem (suc fuel) node p (x ∷ xs) s out lt =
      rw s.0 (ground (arith, exist_loop_lem fuel node x xs s.2 out.1))

  traversal_loop_lem :
      (func : ℕ → ℕ → Bool) (arg fuel p : ℕ) (xs : List ℕ)
      → Seg h p xs (tail l)
      → Absent (tail l) xs
      → length xs < fuel
      → traversal_loop func arg fuel h l (h.next p) ≡ ok (find (λ x. func x arg) xs)
  unfolding traversal_loop
  traversal_loop_lem func arg zero p xs s out lt = absurd (omega arith)
  traversal_loop_lem func arg (suc fuel) p [] s out lt = rw (s.0, ==_refl)
  traversal_loop_lem func arg (suc fuel) p (x ∷ xs) s out lt =
      rw s.0 (ground (arith, traversal_loop_lem func arg fuel x xs s.2 out.1))

  len_loop_lem :
      (fuel len p : ℕ) (xs : List ℕ)
      → Seg h p xs (tail l)
      → Absent (tail l) xs
      → length xs < fuel
      → len < 2 ^ 32
      → len_loop fuel h l len (h.next p) ≡ ok ((len + length xs) % 2 ^ 32)
  unfolding len_loop
  len_loop_lem zero len p xs s out lt small = absurd (omega arith)
  len_loop_lem (suc fuel) len p [] s out lt small = rw (s.0, ==_refl) (ground arith)
  len_loop_lem (suc fuel) len p (x ∷ xs) s out lt small = rw s.0 (
      ground
        (arith, len_loop_lem fuel ((len + 1) % 2 ^ 32) x xs s.2 out.1 (omega arith) (omega arith)))

module _ {h : Links} {l : ℕ} (xs : List ℕ) (is : IsList h l xs) (fuel : ℕ)
    (enough : length xs < fuel) where
  -- `listExist` says whether the node is in the list.
  pub list_exist_lem : (node : ℕ) → list_exist fuel h l node ≡ ok (member node xs)
  unfolding list_exist
  list_exist_lem node = exist_loop_lem h l fuel node l xs is.chain is.apart.1.1.0 enough

  -- `listTraversal` returns the first node that the test accepts with the argument, or NULL.
  pub list_traversal_lem :
      (func : ℕ → ℕ → Bool) (arg : ℕ)
      → list_traversal fuel h l func arg ≡ ok (find (λ x. func x arg) xs)
  unfolding list_traversal
  list_traversal_lem func arg =
      traversal_loop_lem h l func arg fuel l xs is.chain is.apart.1.1.0 enough

  -- `listLen` returns the number of nodes, modulo 2^32.
  pub list_len_lem : list_len fuel h l ≡ ok (length xs % 2 ^ 32)
  unfolding list_len
  list_len_lem =
      rw (len_loop_lem h l fuel 0 l xs is.chain is.apart.1.1.0 enough (omega arith)) (ground arith)
