-- ===== src/Thread/Ready.antt =====
-- The ready list of kernel/thread.c as a sequence of threads.
use holo_os.Base.{
  ℕ, zero, suc, ◌+◌, ◌<◌, ◌≡◌, ◌≢◌, refl, ap, ◌∙◌, Bool, false, List, [], ◌∷◌, ◌++◌, length, arith,
}
use holo_os.Base.Memory.{update}
use holo_os.Base.Run.{ok}
use holo_os.LinkedList.{tail, list_append}
use holo_os.LinkedList.Distinct.{All, Absent, All-append}
use holo_os.LinkedList.Segment.{IsList}
use holo_os.LinkedList.Sequence.{list_append_lem}
use holo_os.LinkedList.Walk.{member, list_exist_lem}
use holo_os.Interrupt.{intr_off, intr_get_status}
use holo_os.Memory.Pool.{null}
use holo_os.Thread.{task_ready, general_tag, Kernel, set, spin_wait, ready_append, requeue}

abbrev pub tags : List ℕ → List ℕ
tags [] = []
tags (t ∷ ts) = general_tag t ∷ tags ts

pub tags-++ : (xs ys : List ℕ) → tags (xs ++ ys) ≡ tags xs ++ tags ys
tags-++ [] ys = refl
tags-++ (x ∷ xs) ys = ap (λ l. general_tag x ∷ l) (tags-++ xs ys)

pub length-tags : (ts : List ℕ) → length (tags ts) ≡ length ts
length-tags [] = refl
length-tags (t ∷ ts) = ap (λ n. 1 + n) (length-tags ts)

pub Absent-member : (a : ℕ) (xs : List ℕ) → Absent a xs → member a xs ≡ false
Absent-member a [] h = refl
Absent-member a (x ∷ xs) (ne, h) = let rest = Absent-member a xs h in ground arith

pub Absent-tags : (t : ℕ) (ts : List ℕ) → Absent t ts → Absent (general_tag t) (tags ts)
Absent-tags t [] h = tt
Absent-tags t (x ∷ xs) (ne, h) = (omega arith, Absent-tags t xs h)

pub Absent-of_tags : (t : ℕ) (ts : List ℕ) → Absent (general_tag t) (tags ts) → Absent t ts
Absent-of_tags t [] h = tt
Absent-of_tags t (x ∷ xs) (ne, h) = (λ e. ne (ap general_tag e), Absent-of_tags t xs h)

-- What holds of all and is kept for every address but one holds of all where that one is absent.
pub All-keep :
    (P Q : ℕ → Type 0) (a : ℕ) (xs : List ℕ)
    → ((x : ℕ) → a ≢ x → P x → Q x)
    → Absent a xs
    → All P xs
    → All Q xs
All-keep P Q a [] keep out h = tt
All-keep P Q a (x ∷ xs) keep (ne, out) (p, h) = (keep x ne p, All-keep P Q a xs keep out h)

pub All-map : {P Q : ℕ → Type 0} → ((x : ℕ) → P x → Q x) → (xs : List ℕ) → All P xs → All Q xs
All-map f [] h = tt
All-map f (x ∷ xs) (p, h) = (f x p, All-map f xs h)

-- A thread that may be scheduled.
abbrev pub IsReady : Kernel → ℕ → Type 0
IsReady k t = (k.tasks.status t ≡ task_ready) × (t ≢ null)

-- Between two calls of the scheduler: the ready list holds the threads `ts`, all of them ready and
-- the current one not among them; the spin locks are free and interrupts are off.
pub record IsSched (k : Kernel) (ts : List ℕ) : Type 0 where
  pub ready : IsList k.links k.ready_list (tags ts)
  pub waiting : All (IsReady k) ts
  pub not_null : k.current ≢ null
  pub cur_tag : Absent (general_tag k.current) (k.ready_list ∷ tail k.ready_list ∷ [])
  pub cur_out : k.tasks.status k.current ≢ task_ready
  pub ready_free : k.ready_lock ≡ false
  pub tag_free : k.tag_lock ≡ false
  pub off : intr_get_status k.eflags ≡ intr_off

pub spin_wait-free : (fuel : ℕ) {b : Bool} → 0 < fuel → b ≡ false → spin_wait fuel b ≡ ok tt
unfolding spin_wait
spin_wait-free zero lt e = absurd (omega arith)
spin_wait-free (suc fuel) lt e = rw (e, spin_wait)

pub Absent-ready :
    (k : Kernel) (c : ℕ) (ts : List ℕ)
    → k.tasks.status c ≢ task_ready
    → All (IsReady k) ts
    → Absent c ts
Absent-ready k c [] ne h = tt
Absent-ready k c (x ∷ xs) ne ((e, _), h) =
    (λ same. ne (ap k.tasks.status same ∙ e), Absent-ready k c xs ne h)

module _ (k : Kernel) (ts : List ℕ) (v : IsSched k ts) where
  pub cur-Absent : Absent k.current ts
  cur-Absent = Absent-ready k k.current ts v.cur_out v.waiting

  pub cur_tag-Absent :
      Absent (general_tag k.current) (null ∷ k.ready_list ∷ tail k.ready_list ∷ tags ts)
  cur_tag-Absent =
      (omega arith, (v.cur_tag.0, (v.cur_tag.1.0, Absent-tags k.current ts cur-Absent)))

  -- The state that the first part of `schedule` leaves.
  abbrev pub requeued : Kernel
  requeued = record k {
    links = list_append k.links k.ready_list (general_tag k.current);
    ready_lock = false;
    tasks = record k.tasks {
      ticks = update k.tasks.ticks k.current (k.tasks.priority k.current);
      status = set k.tasks.status k.current task_ready;
    };
  }

  pub requeue_lem :
      (fuel : ℕ)
      → length ts < fuel
      → (requeue fuel k ≡ ok requeued)
        × IsList requeued.links k.ready_list (tags (ts ++ k.current ∷ []))
        × All (IsReady requeued) (ts ++ k.current ∷ [])
  unfolding requeue ready_append
  requeue_lem fuel lt =
      let out = cur_tag-Absent in
      let free = spin_wait-free fuel {b = k.ready_lock} (omega arith) v.ready_free in
      let few : length (tags ts) < fuel = rw (length-tags ts) lt in
      let walk = list_exist_lem (tags ts) v.ready fuel few (general_tag k.current) in
      let none_there = Absent-member (general_tag k.current) (tags ts) out.1.1.1 in
      let joined = (list_append_lem (tags ts) (general_tag k.current) v.ready out).0 in
      (
        rw (free, walk, none_there) refl,
        rw (tags-++ ts (k.current ∷ [])) joined,
        All-append (IsReady requeued) ts (k.current ∷ [])
            (All-keep (IsReady k) (IsReady requeued) k.current ts
              (λ x ne r. (ground (arith, r.0), r.1)) cur-Absent v.waiting)
            ((ground arith, v.not_null), tt),
      )
