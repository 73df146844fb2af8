-- ===== src/Thread/Preempted.antt =====
-- `lockAcquire` of kernel/sync.c and `schedule` of kernel/thread.c link a thread by the same node,
-- `generalTag`: what becomes of a thread that is preempted between the two.
use holo_os.Base.{ℕ, ◌<◌, ◌≡◌, sym, List, [], ◌∷◌, ◌++◌, length}
use holo_os.LinkedList.{Links, null, tail, list_append}
use holo_os.LinkedList.Distinct.{Absent, Distinct}
use holo_os.LinkedList.Segment.{IsList}
use holo_os.LinkedList.Sequence.{list_append_lem}
use holo_os.LinkedList.Two.{IsList-kept, All-kept, Distinct-flip}
use holo_os.Thread.{task_running, general_tag, Kernel}
use holo_os.Thread.Ready.{tags, IsSched, requeued}
use holo_os.Thread.Switch.{switched}

-- `listAppend(&lock->waiters, &threadCurrent()->generalTag)`
unfoldable pub append_waiter : Kernel → ℕ → Kernel
append_waiter k waiters = record k { links = list_append k.links waiters (general_tag k.current) }

module _ (k : Kernel) (t : ℕ) (others : List ℕ) (v : IsSched k (t ∷ others)) (fuel : ℕ)
    (lt : length (t ∷ others) < fuel) (running : k.tasks.status k.current ≡ task_running)
    (waiters : ℕ) (empty : IsList k.links waiters [])
    (apart : Distinct (
      null ∷ (waiters ∷ tail waiters ∷ general_tag k.current ∷ [])
      ++ (k.ready_list ∷ tail k.ready_list ∷ tags (t ∷ others)))) where
  abbrev n : ℕ
  n = general_tag k.current

  abbrev firsts : List ℕ
  firsts = waiters ∷ tail waiters ∷ n ∷ []

  abbrev seconds : List ℕ
  seconds = k.ready_list ∷ tail k.ready_list ∷ tags (t ∷ others)

  abbrev links1 : Links
  links1 = list_append k.links waiters n

  abbrev k1 : Kernel
  k1 = record k { links = links1 }

  new : Absent n (null ∷ waiters ∷ tail waiters ∷ [])
  new = (λ e. apart.0.1.1.0 (sym e), (λ e. apart.1.0.1.0 (sym e), (λ e. apart.1.1.0.0 (sym e), tt)))

  ready1 : IsList links1 k.ready_list (tags (t ∷ others))
  ready1 =
      IsList-kept k.links links1 k.ready_list (tags (t ∷ others))
        (All-kept k.links links1 waiters n [] seconds (list_append_lem [] n empty new).1
          (Distinct-flip firsts seconds apart.1))
        v.ready

  sched1 : IsSched k1 (t ∷ others)
  sched1 = record {
    ready = ready1;
    waiting = v.waiting;
    not_null = v.not_null;
    cur_tag = v.cur_tag;
    cur_out = v.cur_out;
    ready_free = v.ready_free;
    tag_free = v.tag_free;
    off = v.off;
  }

  abbrev k2 : Kernel
  k2 = switched (requeued k1 (t ∷ others) sched1) t

  abbrev queue : List ℕ
  queue = others ++ k.current ∷ []
