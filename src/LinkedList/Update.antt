-- ===== src/LinkedList/Update.antt =====
-- How the stores of `listInsert` and `listRemove` (lib/list.c) change the links.
use mathlib.Core.List.{append-nil}
use holo_os.Base.{ℕ, ◌≡◌, ◌≢◌, refl, sym, subst, ◌==◌, if◌then◌else◌, List, [], ◌∷◌, ◌++◌, arith}
use holo_os.LinkedList.{Links, null, tail, list_insert, list_remove}
use holo_os.LinkedList.Distinct.{
  All, Absent, Distinct, Absent-left, Absent-right, Distinct-insert, Distinct-apart,
  Distinct-delete, Distinct-left,
}
use holo_os.LinkedList.Segment.{Seg, IsList, Seg-frame, Seg-append, Seg-split, Seg-last, Seg-first}

-- `g` has the links of `h` at every node but those listed.
abbrev pub Untouched : Links → Links → List ℕ → Type 0
Untouched h g nodes = (a : ℕ) → Absent a nodes → (g.next a ≡ h.next a) × (g.prev a ≡ h.prev a)

-- the first node, or the sentinel behind the last
abbrev pub first_or : List ℕ → ℕ → ℕ
first_or [] d = d
first_or (x ∷ xs) d = x

-- After `list_insert`, whatever the list.
module _ (h : Links) (y n : ℕ) where
  insert_next :
      (a : ℕ)
      → (list_insert h y n).next a ≡ (if n == a then y else if h.prev y == a then n else h.next a)
  unfolding list_insert
  insert_next a = refl

  insert_prev :
      (a : ℕ)
      → (list_insert h y n).prev a ≡ (if y == a then n else if n == a then h.prev y else h.prev a)
  unfolding list_insert
  insert_prev a = refl

  insert-before :
      (p : ℕ) (xs : List ℕ)
      → Seg h p xs y
      → Distinct (p ∷ xs)
      → Absent y (p ∷ xs)
      → Absent n (y ∷ p ∷ xs)
      → Seg (list_insert h y n) p (xs ++ n ∷ []) y
  insert-before p [] s d ay an =
      ground (arith, insert_next p, insert_prev n, insert_next n, insert_prev y)
  insert-before p (x ∷ xs) s d ay an =
      let later = Seg-last (λ a. p ≢ a) h x xs y s.2 d.0.0 d.0.1 in
      (
        ground (arith, insert_next p),
        ground (arith, insert_prev x),
        insert-before x xs s.2 d.1 ay.1 (an.0, an.1.1),
      )

  insert-keeps :
      (ys : List ℕ)
      → Absent n ys
      → Absent (h.prev y) ys
      → Absent y ys
      → All
          (λ a. ((list_insert h y n).next a ≡ h.next a) × ((list_insert h y n).prev a ≡ h.prev a))
          ys
  insert-keeps [] an ap ay = tt
  insert-keeps (x ∷ ys) an ap ay = (
    (ground (arith, insert_next x), ground (arith, insert_prev x)),
    insert-keeps ys an.1 ap.1 ay.1,
  )

  insert-after :
      (ys : List ℕ) (q : ℕ)
      → Seg h y ys q
      → Absent n (q ∷ y ∷ ys)
      → Absent (h.prev y) (y ∷ ys)
      → Absent y (q ∷ ys)
      → Seg (list_insert h y n) y ys q
  insert-after ys q s an ap ay =
      Seg-frame h (list_insert h y n) y ys q (ground (arith, insert_next y))
        (ground (arith, insert_prev q)) (insert-keeps ys an.1.1 ap.1 ay.1) s

-- After `list_remove`, whatever the list.
module _ (h : Links) (n : ℕ) where
  remove_next : (a : ℕ) → (list_remove h n).next a ≡ (if h.prev n == a then h.next n else h.next a)
  unfolding list_remove
  remove_next a = refl

  remove_prev : (a : ℕ) → (list_remove h n).prev a ≡ (if h.next n == a then h.prev n else h.prev a)
  unfolding list_remove
  remove_prev a = ground arith

  remove-keeps :
      (ys : List ℕ)
      → Absent (h.prev n) ys
      → Absent (h.next n) ys
      → All (λ a. ((list_remove h n).next a ≡ h.next a) × ((list_remove h n).prev a ≡ h.prev a)) ys
  remove-keeps [] ap an = tt
  remove-keeps (x ∷ ys) ap an =
      ((ground (arith, remove_next x), ground (arith, remove_prev x)), remove-keeps ys ap.1 an.1)

  remove-join :
      (p : ℕ) (xs ys : List ℕ) (q : ℕ)
      → Seg h p xs n
      → Seg h n ys q
      → Distinct (q ∷ p ∷ xs ++ ys)
      → Seg (list_remove h n) p (xs ++ ys) q
  remove-join p [] [] q s t d = ground (arith, remove_next p, remove_prev q)
  remove-join p [] (y ∷ ys) q s t d =
      let back : p ≡ h.prev n = sym s.1 in
      let on : y ≡ h.next n = sym t.0 in
      (
        ground (arith, remove_next p),
        ground (arith, remove_prev y),
        Seg-frame h (list_remove h n) y ys q (ground (arith, remove_next y))
            (ground (arith, remove_prev q))
            (remove-keeps ys (subst (λ a. Absent a ys) back d.1.0.1)
              (subst (λ a. Absent a ys) on d.1.1.0))
            t.2,
      )
  remove-join p (x ∷ xs) ys q s t d =
      let later = Seg-last (λ a. p ≢ a) h x xs n s.2 d.1.0.0 (Absent-left p xs ys d.1.0.1) in
      let earlier =
        Seg-first (λ a. x ≢ a) h n ys q t (Absent-right x xs ys d.1.1.0) (ground arith) in
      (
        ground (arith, remove_next p),
        ground (arith, remove_prev x),
        remove-join x xs ys q s.2 t (d.0.1, d.1.1),
      )

  remove_Untouched :
      (p : ℕ) (xs ys : List ℕ) (q : ℕ)
      → Seg h p xs n
      → Seg h n ys q
      → Untouched h (list_remove h n) (q ∷ p ∷ xs ++ ys)
  remove_Untouched p xs ys q s t a out =
      let back = Seg-last (λ x. a ≢ x) h p xs n s out.1.0 (Absent-left a xs ys out.1.1) in
      let on = Seg-first (λ x. a ≢ x) h n ys q t (Absent-right a xs ys out.1.1) out.0 in
      (ground (arith, remove_next a), ground (arith, remove_prev a))

pub insert_Untouched :
    (h : Links) (y n p : ℕ) (xs : List ℕ)
    → Seg h p xs y
    → Untouched h (list_insert h y n) (n ∷ y ∷ p ∷ xs)
insert_Untouched h y n p xs s a out =
    let back = Seg-last (λ x. a ≢ x) h p xs y s out.1.1.0 out.1.1.1 in
    (ground (arith, insert_next h y n a), ground (arith, insert_prev h y n a))

module _ {h : Links} {l : ℕ} where
  pub insert_end :
      (xs : List ℕ) (n : ℕ)
      → IsList h l xs
      → Absent n (null ∷ l ∷ tail l ∷ xs)
      → IsList (list_insert h (tail l) n) l (xs ++ n ∷ [])
  insert_end xs n is fresh =
      let d : Distinct (null ∷ l ∷ tail l ∷ xs) = is.apart in
      record {
        chain =
            insert-before h (tail l) n l xs is.chain (d.1.0.1, d.1.1.1)
              (λ e. d.1.0.0 (sym e), d.1.1.0) (fresh.1.1.0, (fresh.1.0, fresh.1.1.1));
        apart =
            Distinct-insert (null ∷ l ∷ tail l ∷ xs) [] n (rw append-nil is.apart)
              (rw append-nil fresh);
      }

  module _ (xs : List ℕ) (y : ℕ) (ys : List ℕ) (is : IsList h l (xs ++ y ∷ ys)) where
    nodes_apart : Distinct (l ∷ xs ++ y ∷ ys)
    nodes_apart = (is.apart.1.0.1, is.apart.1.1.1)

    pub node_once : Absent y (l ∷ xs ++ ys)
    node_once = (Distinct-delete (l ∷ xs) ys y nodes_apart).gone

    tail_apart : Absent (tail l) (xs ++ y ∷ ys)
    tail_apart = is.apart.1.1.0

    pub before_node : Seg h l xs y
    before_node = (Seg-split h l xs y ys (tail l) is.chain).before

    pub after_node : Seg h y ys (tail l)
    after_node = (Seg-split h l xs y ys (tail l) is.chain).after

    prev_apart : Absent (h.prev y) (y ∷ ys)
    prev_apart =
        let sides = Distinct-apart (l ∷ xs) (y ∷ ys) nodes_apart in
        Seg-last (λ a. Absent a (y ∷ ys)) h l xs y before_node sides.0 sides.1

    pub insert_middle :
        (n : ℕ)
        → Absent n (null ∷ l ∷ tail l ∷ xs ++ y ∷ ys)
        → IsList (list_insert h y n) l (xs ++ n ∷ y ∷ ys)
    insert_middle n fresh =
        let g = list_insert h y n in
        let later : Absent n (y ∷ ys) = Absent-right n xs (y ∷ ys) fresh.1.1.1 in
        let put = Seg-split g l xs n [] y (
          insert-before h y n l xs before_node (Distinct-left (l ∷ xs) (y ∷ ys) nodes_apart)
            (Absent-left y (l ∷ xs) ys node_once)
            (later.0, (fresh.1.0, Absent-left n xs (y ∷ ys) fresh.1.1.1))) in
        let rest =
          insert-after h y n ys (tail l) after_node (fresh.1.1.0, later) prev_apart
            (
              λ e. (Absent-right (tail l) xs (y ∷ ys) tail_apart).0 (sym e),
              Absent-right y (l ∷ xs) ys node_once,
            ) in
        record {
          chain = Seg-append g l xs n (y ∷ ys) (tail l) put.before (put.after.0, put.after.1, rest);
          apart = Distinct-insert (null ∷ l ∷ tail l ∷ xs) (y ∷ ys) n is.apart fresh;
        }

    -- `listRemove` takes the node out of the list and keeps the others in their order; the links
    -- of every node outside the list, and of the removed node itself, stay as they were.
    pub list_remove_lem :
        IsList (list_remove h y) l (xs ++ ys)
        × Untouched h (list_remove h y) (tail l ∷ l ∷ xs ++ ys)
    list_remove_lem =
        let short = Distinct-delete (null ∷ l ∷ tail l ∷ xs) ys y is.apart in
        (
          record {
            chain = remove-join h y l xs ys (tail l) before_node after_node (
              (λ e. short.rest.1.0.0 (sym e), short.rest.1.1.0),
              (short.rest.1.0.1, short.rest.1.1.1),
            );
            apart = short.rest;
          },
          remove_Untouched h y l xs ys (tail l) before_node after_node,
        )
