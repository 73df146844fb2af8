-- ===== src/Ioqueue/Tests.antt =====
-- The ring of device/ioqueue.c at the end of its buffer, and the theorems there.
use holo_os.Base.{ℕ, ◌≤◌, ◌≡◌, ◌⊎◌, refl, ◌==◌, if◌then◌else◌, List, [], ◌∷◌, ◌++◌, length, arith}
use holo_os.Ioqueue.{
  Ioqueue, ioqueue_getchar, ioqueue_putchar, ioqueue_full, ioqueue_empty, Call, get, put, waits,
  stored, got, serve, serve_all,
}
use holo_os.Ioqueue.Ring.{IsQueue}
use holo_os.Ioqueue.Waiting.{Event, call, again, happen_all}
use holo_os.Ioqueue.Waiting.Wakeups.{Served, fresh, happen_all-Served}
use holo_os.Ioqueue.Schedule.{
  serve_list_all, serve_all_refines, serve_all_fifo, stored_chars, got_chars,
}

-- The last two cells hold 104 and 105.
abbrev ring : Ioqueue
ring = record { buf = λ a. if a == 62 then 104 else 105; head = 62; tail = 0 }

ring-IsQueue : IsQueue ring (104 ∷ 105 ∷ [])
ring-IsQueue = record {
  head_in = omega arith;
  tail_at = refl;
  short = omega arith;
  cells = (refl, (refl, tt));
}

abbrev some_calls : List Call
some_calls = get ∷ put 33 ∷ get ∷ get ∷ get ∷ []

serve_all_refines_example :
    ((serve_all ring some_calls).0 ≡ (serve_list_all (104 ∷ 105 ∷ []) some_calls).0)
    × IsQueue (serve_all ring some_calls).1 (serve_list_all (104 ∷ 105 ∷ []) some_calls).1
serve_all_refines_example = serve_all_refines ring (104 ∷ 105 ∷ []) some_calls ring-IsQueue

serve_all_fifo_example :
    (ys : List ℕ) × IsQueue (serve_all ring some_calls).1 ys
    × (104 ∷ 105 ∷ [] ++ stored_chars some_calls (serve_all ring some_calls).0
        ≡ got_chars (serve_all ring some_calls).0 ++ ys)
    × (length ys ≤ 63)
serve_all_fifo_example = serve_all_fifo ring (104 ∷ 105 ∷ []) some_calls ring-IsQueue

serve_all_answers : (serve_all ring some_calls).0 ≡ got 104 ∷ stored ∷ got 105 ∷ got 33 ∷ waits ∷ []
unfolding serve_all serve ioqueue_getchar ioqueue_putchar ioqueue_full ioqueue_empty
serve_all_answers = refl

-- Two threads sleep on the empty queue, a third puts two characters, and the first that was woken
-- goes on.
abbrev busy : List Event
busy = call 1 get ∷ call 2 get ∷ call 3 (put 104) ∷ call 3 (put 105) ∷ again 0 ∷ []

happen_all-Served_example :
    (xs : List ℕ) × IsQueue (happen_all (fresh ring) busy).queue.ring xs
    × ((happen_all (fresh ring) busy).put_chars ≡ (happen_all (fresh ring) busy).got_chars ++ xs)
    × Served (happen_all (fresh ring) busy).queue (length xs) 0 0
    × (((happen_all (fresh ring) busy).queue.not_empty ≡ [])
        ⊎ ((happen_all (fresh ring) busy).queue.not_full ≡ [])
        ⊎ (1 ≤ length (happen_all (fresh ring) busy).queue.woken))
happen_all-Served_example = happen_all-Served ring busy
