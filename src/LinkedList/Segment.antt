-- ===== src/LinkedList/Segment.antt =====
-- What a list of lib/list.c stands for: the nodes between two addresses, linked both ways.
use holo_os.Base.{ℕ, ◌≡◌, sym, subst, ◌∙◌, List, [], ◌∷◌, ◌++◌}
use holo_os.LinkedList.{Links, null, tail}
use holo_os.LinkedList.Distinct.{All, Distinct}

-- From `p` the `next` fields lead through `xs` to `q`, and the `prev` fields lead back.
abbrev pub Seg : Links → ℕ → List ℕ → ℕ → Type 0
Seg h p [] q = (h.next p ≡ q) × (h.prev q ≡ p)
Seg h p (x ∷ xs) q = (h.next p ≡ x) × (h.prev x ≡ p) × Seg h x xs q

-- The list at `l` holds the nodes `xs`, in this order: NULL, the sentinels and the nodes all
-- differ, and the links lead from the head through the nodes to the tail and back.
pub record IsList (h : Links) (l : ℕ) (xs : List ℕ) : Type 0 where
  pub chain : Seg h l xs (tail l)
  pub apart : Distinct (null ∷ l ∷ tail l ∷ xs)

-- A segment survives a change of fields that it does not use.
pub Seg-frame :
    (h g : Links) (p : ℕ) (xs : List ℕ) (q : ℕ)
    → g.next p ≡ h.next p
    → g.prev q ≡ h.prev q
    → All (λ a. (g.next a ≡ h.next a) × (g.prev a ≡ h.prev a)) xs
    → Seg h p xs q
    → Seg g p xs q
Seg-frame h g p [] q en ep same s = (en ∙ s.0, ep ∙ s.1)
Seg-frame h g p (x ∷ xs) q en ep same s =
    (en ∙ s.0, same.0.1 ∙ s.1, Seg-frame h g x xs q same.0.0 ep same.1 s.2)

pub Seg-append :
    (h : Links) (p : ℕ) (xs : List ℕ) (y : ℕ) (ys : List ℕ) (q : ℕ)
    → Seg h p xs y
    → Seg h y ys q
    → Seg h p (xs ++ y ∷ ys) q
Seg-append h p [] y ys q s t = (s.0, s.1, t)
Seg-append h p (x ∷ xs) y ys q s t = (s.0, s.1, Seg-append h x xs y ys q s.2 t)

pub Seg-split :
    (h : Links) (p : ℕ) (xs : List ℕ) (y : ℕ) (ys : List ℕ) (q : ℕ)
    → Seg h p (xs ++ y ∷ ys) q
    → record { before : Seg h p xs y; after : Seg h y ys q }
Seg-split h p [] y ys q s = record { before = (s.0, s.1); after = s.2 }
Seg-split h p (x ∷ xs) y ys q s =
    let rest = Seg-split h x xs y ys q s.2 in
    record { before = (s.0, s.1, rest.before); after = rest.after }

-- What holds at the start and at every node holds at the last of them, which `prev` finds.
pub Seg-last :
    (P : ℕ → Type 0) (h : Links) (p : ℕ) (xs : List ℕ) (q : ℕ)
    → Seg h p xs q
    → P p
    → All P xs
    → P (h.prev q)
Seg-last P h p [] q s here all = subst P (sym s.1) here
Seg-last P h p (x ∷ xs) q s here all = Seg-last P h x xs q s.2 all.0 all.1

-- What holds at every node and at the end holds at the first of them, which `next` finds.
pub Seg-first :
    (P : ℕ → Type 0) (h : Links) (p : ℕ) (xs : List ℕ) (q : ℕ)
    → Seg h p xs q
    → All P xs
    → P q
    → P (h.next p)
Seg-first P h p [] q s all there = subst P (sym s.0) there
Seg-first P h p (x ∷ xs) q s all there = subst P (sym s.0) all.0
