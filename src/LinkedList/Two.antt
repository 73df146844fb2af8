-- ===== src/LinkedList/Two.antt =====
-- Two lists of lib/list.c in one memory: an append to one leaves the other as it was.
use mathlib.Core.List.{append-nil}
use holo_os.Base.{ℕ, ◌≡◌, sym, List, [], ◌∷◌, ◌++◌}
use holo_os.LinkedList.{Links, null, tail, list_append}
use holo_os.LinkedList.Distinct.{
  All, Absent, Distinct, All-left, Absent-left, Absent-right, Distinct-delete, Distinct-left,
  Distinct-apart,
}
use holo_os.LinkedList.Segment.{IsList, Seg-frame}
use holo_os.LinkedList.Sequence.{list_append_lem}
use holo_os.LinkedList.Update.{Untouched}

Distinct-right : (xs ys : List ℕ) → Distinct (xs ++ ys) → Distinct ys
Distinct-right [] ys d = d
Distinct-right (x ∷ xs) ys d = Distinct-right xs ys d.1

avoids :
    (x : ℕ) (xs ys : List ℕ)
    → Absent x ys
    → All (λ y. Absent y xs) ys
    → All (λ y. Absent y (x ∷ xs)) ys
avoids x xs [] a h = tt
avoids x xs (y ∷ ys) a h = ((λ e. a.0 (sym e), h.0), avoids x xs ys a.1 h.1)

none_of : (ys : List ℕ) → All (λ y. Absent y []) ys
none_of [] = tt
none_of (y ∷ ys) = (tt, none_of ys)

-- No address of the second part stands in the first.
pub Distinct-flip : (xs ys : List ℕ) → Distinct (xs ++ ys) → All (λ y. Absent y xs) ys
Distinct-flip [] ys d = none_of ys
Distinct-flip (x ∷ xs) ys d = avoids x xs ys (Absent-right x xs ys d.0) (Distinct-flip xs ys d.1)

-- A list whose addresses a change leaves alone.
pub IsList-kept :
    (h g : Links) (l : ℕ) (xs : List ℕ)
    → All (λ a. (g.next a ≡ h.next a) × (g.prev a ≡ h.prev a)) (l ∷ tail l ∷ xs)
    → IsList h l xs
    → IsList g l xs
IsList-kept h g l xs same v = record {
  chain = Seg-frame h g l xs (tail l) same.0.0 same.1.0.1 same.1.1 v.chain;
  apart = v.apart;
}

-- The addresses that an append of `n` to the list at `l` may touch, from those of the whole list.
outside :
    (y l n : ℕ) (xs : List ℕ)
    → Absent y (l ∷ tail l ∷ xs ++ n ∷ [])
    → Absent y (n ∷ tail l ∷ l ∷ xs)
outside y l n xs a =
    ((Absent-right y xs (n ∷ []) a.1.1).0, (a.1.0, (a.0, Absent-left y xs (n ∷ []) a.1.1)))

pub All-kept :
    (h g : Links) (l n : ℕ) (xs ys : List ℕ)
    → Untouched h g (n ∷ tail l ∷ l ∷ xs)
    → All (λ y. Absent y (l ∷ tail l ∷ xs ++ n ∷ [])) ys
    → All (λ a. (g.next a ≡ h.next a) × (g.prev a ≡ h.prev a)) ys
All-kept h g l n xs [] keep out = tt
All-kept h g l n xs (y ∷ ys) keep out =
    (keep y (outside y l n xs out.0), All-kept h g l n xs ys keep out.1)

-- The new node is none of the list's addresses.
new_node :
    (l n : ℕ) (xs : List ℕ)
    → Distinct (null ∷ l ∷ tail l ∷ xs ++ n ∷ [])
    → Absent n (null ∷ l ∷ tail l ∷ xs)
new_node l n xs d = rw append-nil at (Distinct-delete (null ∷ l ∷ tail l ∷ xs) [] n d).gone

module _ (h : Links) (l1 l2 n1 n2 : ℕ) (xs ys : List ℕ) (is1 : IsList h l1 xs)
    (is2 : IsList h l2 ys)
    (apart : Distinct
      (null ∷ (l1 ∷ tail l1 ∷ xs ++ n1 ∷ []) ++ (l2 ∷ tail l2 ∷ ys ++ n2 ∷ []))) where
  abbrev once : Links
  once = list_append h l1 n1

  abbrev twice : Links
  twice = list_append once l2 n2

  abbrev firsts : List ℕ
  firsts = l1 ∷ tail l1 ∷ xs ++ n1 ∷ []

  abbrev seconds : List ℕ
  seconds = l2 ∷ tail l2 ∷ ys ++ n2 ∷ []

  pub first_new : Absent n1 (null ∷ l1 ∷ tail l1 ∷ xs)
  first_new =
      new_node l1 n1 xs
        (Absent-left null firsts seconds apart.0, Distinct-left firsts seconds apart.1)

  pub second_new : Absent n2 (null ∷ l2 ∷ tail l2 ∷ ys)
  second_new =
      new_node l2 n2 ys
        (Absent-right null firsts seconds apart.0, Distinct-right firsts seconds apart.1)

  flipped : All (λ y. Absent y firsts) seconds
  flipped = Distinct-flip firsts seconds apart.1

  -- The second list behind the first append.
  pub second_kept : IsList once l2 ys
  second_kept =
      let (both, keep) = list_append_lem xs n1 is1 first_new in
      IsList-kept h once l2 ys
        (All-kept h once l1 n1 xs (l2 ∷ tail l2 ∷ ys) keep
          (flipped.0, (flipped.1.0, All-left _ ys (n2 ∷ []) flipped.1.1)))
        is2

  -- Both lists behind an append to each.
  pub both_appended : IsList twice l1 (xs ++ n1 ∷ []) × IsList twice l2 (ys ++ n2 ∷ [])
  both_appended =
      let (first, _) = list_append_lem xs n1 is1 first_new in
      let (second, keep) = list_append_lem ys n2 second_kept second_new in
      (
        IsList-kept once twice l1 (xs ++ n1 ∷ [])
            (All-kept once twice l2 n2 ys firsts keep (Distinct-apart firsts seconds apart.1))
            first,
        second,
      )
