-- ===== src/LinkedList/Refine.antt =====
-- Any sequence of calls of lib/list.c on one list behaves as the same calls on a sequence of nodes.
use holo_os.Base.{
  ℕ, ◌≡◌, refl, sym, subst, ap, Bool-cases, true, ◌==◌, if◌then◌else◌, ==→≡, List, [], ◌∷◌, ◌++◌,
  inl, inr,
}
use holo_os.LinkedList.{Links, null, tail, list_push, list_append, list_remove, list_pop}
use holo_os.LinkedList.Distinct.{Absent}
use holo_os.LinkedList.Segment.{IsList}
use holo_os.LinkedList.Sequence.{popped, rest, list_push_lem, list_append_lem, list_pop_lem}
use holo_os.LinkedList.Update.{list_remove_lem}
use holo_os.LinkedList.Walk.{member}

pub data Op : Type 0 where
  push : ℕ → Op
  append : ℕ → Op
  pop : Op
  remove : ℕ → Op

-- The calls on the list at `l`, with what each `listPop` returns.
unfoldable pub run : ℕ → Links → List Op → List ℕ × Links
run l h [] = ([], h)
run l h (push n ∷ ops) = run l (list_push h l n) ops
run l h (append n ∷ ops) = run l (list_append h l n) ops
run l h (remove n ∷ ops) = run l (list_remove h n) ops
run l h (pop ∷ ops) =
    let (n, h') = list_pop h l in let (out, last) = run l h' ops in (n ∷ out, last)

abbrev pub erase : ℕ → List ℕ → List ℕ
erase a [] = []
erase a (x ∷ xs) = if x == a then xs else x ∷ erase a xs

-- The same calls on a sequence.
unfoldable pub replay : List ℕ → List Op → List ℕ × List ℕ
replay xs [] = ([], xs)
replay xs (push n ∷ ops) = replay (n ∷ xs) ops
replay xs (append n ∷ ops) = replay (xs ++ n ∷ []) ops
replay xs (remove n ∷ ops) = replay (erase n xs) ops
replay xs (pop ∷ ops) = let (out, last) = replay (rest xs) ops in (popped xs ∷ out, last)

-- What the callers keep to: a node is put in only while it is out, and taken out only while it is
-- in.
abbrev pub Allowed : ℕ → List ℕ → List Op → Type 0
Allowed l xs [] = Unit
Allowed l xs (push n ∷ ops) = Absent n (null ∷ l ∷ tail l ∷ xs) × Allowed l (n ∷ xs) ops
Allowed l xs (append n ∷ ops) = Absent n (null ∷ l ∷ tail l ∷ xs) × Allowed l (xs ++ n ∷ []) ops
Allowed l xs (remove n ∷ ops) = (member n xs ≡ true) × Allowed l (erase n xs) ops
Allowed l xs (pop ∷ ops) = Allowed l (rest xs) ops

-- Where the node stands.
record Found (n : ℕ) (xs : List ℕ) : Type 0 where
  before : List ℕ
  after : List ℕ
  whole : xs ≡ before ++ n ∷ after
  erased : erase n xs ≡ before ++ after

find_node : (n : ℕ) (xs : List ℕ) → member n xs ≡ true → Found n xs
find_node n [] m = cc
find_node n (x ∷ xs) m = elim (Bool-cases (x == n)) [
  | inl hit ↦ record {
    before = [];
    after = xs;
    whole = ap (λ a. a ∷ xs) (==→≡ x n hit);
    erased = rw hit;
  }
  | inr miss ↦
      let deeper = find_node n xs (rw miss at m) in
      record {
        before = x ∷ deeper.before;
        after = deeper.after;
        whole = ap (λ r. x ∷ r) deeper.whole;
        erased = rw miss (ap (λ r. x ∷ r) deeper.erased);
      }
]

remove-erase :
    (h : Links) (l n : ℕ) (xs : List ℕ)
    → IsList h l xs
    → member n xs ≡ true
    → IsList (list_remove h n) l (erase n xs)
remove-erase h l n xs is m =
    let f = find_node n xs m in
    subst (IsList (list_remove h n) l) (sym f.erased)
      (list_remove_lem f.before n f.after (subst (IsList h l) f.whole is)).0

-- Whatever calls follow one another on a list, with nodes put in and taken out as allowed: each
-- `listPop` returns the node that the sequence gives, and at the end the list stands for the
-- sequence.
pub run_refines :
    (ops : List Op) {h : Links} {l : ℕ} {xs : List ℕ}
    → IsList h l xs
    → Allowed l xs ops
    → ((run l h ops).0 ≡ (replay xs ops).0) × IsList (run l h ops).1 l (replay xs ops).1
unfolding run replay
run_refines [] is a = (refl, is)
run_refines (push n ∷ ops) {xs} is a = run_refines ops (list_push_lem xs n is a.0).0 a.1
run_refines (append n ∷ ops) {xs} is a = run_refines ops (list_append_lem xs n is a.0).0 a.1
run_refines (remove n ∷ ops) {h} {l} {xs} is a = run_refines ops (remove-erase h l n xs is a.0) a.1
run_refines (pop ∷ ops) {xs} is a =
    let (value, after, _) = list_pop_lem xs is in
    let (out, last) = run_refines ops after a in (λ i. value i ∷ out i, last)
