-- ===== src/LinkedList/Sequence.antt =====
-- `listInit`, `listInsert`, `listPush`, `listAppend`, `listRemove`, `listPop` and `listEmpty` of
-- lib/list.c, as operations on the sequence of nodes that a list stands for.
use mathlib.Core.List.{append-nil}
use holo_os.Base.{ℕ, ◌≡◌, ◌≢◌, refl, true, false, List, [], ◌∷◌, ◌++◌, arith}
use holo_os.LinkedList.{
  Links, null, tail, list_init, list_insert, list_push, list_append, list_empty, list_pop,
}
use holo_os.LinkedList.Distinct.{Absent, Absent-left, Absent-right}
use holo_os.LinkedList.Segment.{IsList}
use holo_os.LinkedList.Update.{
  Untouched, first_or, insert_Untouched, insert_end, insert_middle, before_node, list_remove_lem,
}

module _ {h : Links} {l : ℕ} where
  -- `listInsert` before a node of the list, or before its tail, puts a node that is not in the
  -- list at that place and keeps the others in their order; the links of nodes outside the list
  -- stay as they were.
  pub list_insert_lem :
      (xs ys : List ℕ) (n : ℕ)
      → IsList h l (xs ++ ys)
      → Absent n (null ∷ l ∷ tail l ∷ xs ++ ys)
      → IsList (list_insert h (first_or ys (tail l)) n) l (xs ++ n ∷ ys)
        × Untouched h (list_insert h (first_or ys (tail l)) n) (n ∷ tail l ∷ l ∷ xs ++ ys)
  list_insert_lem xs [] n is fresh =
      let is' : IsList h l xs = rw append-nil at is in
      (
        insert_end xs n is' (rw append-nil at fresh),
        λ a out.
            insert_Untouched h (tail l) n l xs is'.chain a
              (out.0, (out.1.0, (out.1.1.0, Absent-left a xs [] out.1.1.1))),
      )
  list_insert_lem xs (y ∷ ys) n is fresh = (
    insert_middle xs y ys is n fresh,
    λ a out. insert_Untouched h y n l xs (before_node xs y ys is) a (
      out.0,
      ((Absent-right a xs (y ∷ ys) out.1.1.1).0, (out.1.1.0, Absent-left a xs (y ∷ ys) out.1.1.1)),
    ),
  )

  next_first : (xs : List ℕ) → IsList h l xs → h.next l ≡ first_or xs (tail l)
  next_first [] is = is.chain.0
  next_first (x ∷ xs) is = is.chain.0

  -- `listPush` puts the node in front of the others, and `listAppend` behind them.
  pub list_push_lem :
      (xs : List ℕ) (n : ℕ)
      → IsList h l xs
      → Absent n (null ∷ l ∷ tail l ∷ xs)
      → IsList (list_push h l n) l (n ∷ xs) × Untouched h (list_push h l n) (n ∷ tail l ∷ l ∷ xs)
  unfolding list_push
  list_push_lem xs n is fresh = rw (next_first xs is) (list_insert_lem [] xs n is fresh)

  pub list_append_lem :
      (xs : List ℕ) (n : ℕ)
      → IsList h l xs
      → Absent n (null ∷ l ∷ tail l ∷ xs)
      → IsList (list_append h l n) l (xs ++ n ∷ [])
        × Untouched h (list_append h l n) (n ∷ tail l ∷ l ∷ xs)
  unfolding list_append
  list_append_lem xs n is fresh =
      let both = list_insert_lem xs [] n (rw append-nil is) (rw append-nil fresh) in
      (both.0, rw append-nil at both.1)

  pub list_empty-nil : IsList h l [] → list_empty h l ≡ true
  unfolding list_empty
  list_empty-nil is = ground (arith, is.chain)

  pub list_empty-cons : (x : ℕ) (xs : List ℕ) → IsList h l (x ∷ xs) → list_empty h l ≡ false
  unfolding list_empty
  list_empty-cons x xs is = ground (arith, is.chain, is.apart)

-- The value of `listPop`, and the sequence that it leaves.
abbrev pub popped : List ℕ → ℕ
popped [] = null
popped (x ∷ xs) = x

abbrev pub rest : List ℕ → List ℕ
rest [] = []
rest (x ∷ xs) = xs

module _ {h : Links} {l : ℕ} where
  -- `listPop` returns the first node and takes it out of the list, or returns NULL if there is
  -- none; the links of nodes outside the list stay as they were.
  pub list_pop_lem :
      (xs : List ℕ)
      → IsList h l xs
      → ((list_pop h l).0 ≡ popped xs)
        × IsList (list_pop h l).1 l (rest xs)
        × Untouched h (list_pop h l).1 (tail l ∷ l ∷ rest xs)
  unfolding list_pop
  list_pop_lem [] is = rw (list_empty-nil is) (refl, is, λ a out. (refl, refl))
  list_pop_lem (x ∷ xs) is =
      rw (list_empty-cons x xs is, is.chain.0)
        (refl, (list_remove_lem [] x xs is).0, (list_remove_lem [] x xs is).1)

-- `listInit` makes an empty list, at an address that is neither NULL nor wraps.
pub list_init_lem :
    (h : Links) (l : ℕ)
    → l ≢ null
    → IsList (list_init h l) l [] × Untouched h (list_init h l) (l ∷ tail l ∷ [])
unfolding list_init
list_init_lem h l ne =
    (record { chain = ground arith; apart = ground arith }, λ a out. ground arith)
