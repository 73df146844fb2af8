-- ===== src/Ioqueue/Ring.antt =====
-- The ring of device/ioqueue.c as a queue of at most 63 characters.
use holo_os.Base.{
  ℕ, ◌+◌, ◌%◌, ◌<◌, ◌≤◌, ◌≡◌, ◌≢◌, refl, false, ◌==◌, none, some, List, [], ◌∷◌, ◌++◌, length,
  length-++, arith,
}
use holo_os.Base.Memory.{Mem, update}
use holo_os.Ioqueue.{
  Ioqueue, ioqueue_init, next_pos, ioqueue_full, ioqueue_empty, ioqueue_getchar, ioqueue_putchar,
}

-- The cells from `pos` on, around the end of the buffer, hold the list.
abbrev pub Cells : Mem → ℕ → List ℕ → Type 0
Cells b pos [] = Unit {0}
Cells b pos (x ∷ xs) = (b pos ≡ x) × Cells b (next_pos pos) xs

-- The ring holds the list, the oldest character first.
pub record IsQueue (q : Ioqueue) (xs : List ℕ) : Type 0 where
  pub head_in : q.head < 64
  pub tail_at : q.tail ≡ (q.head + length xs) % 64
  pub short : length xs ≤ 63
  pub cells : Cells q.buf q.head xs

Cells-update :
    (b : Mem) (pos c : ℕ) (xs : List ℕ)
    → pos < 64
    → length xs ≤ 63
    → Cells b pos xs
    → Cells (update b ((pos + length xs) % 64) c) pos xs
Cells-update b pos c [] lt le h = tt
Cells-update b pos c (x ∷ xs) lt le (e, h) =
    let same : (next_pos pos + length xs) % 64 ≡ (pos + (1 + length xs)) % 64 = omega arith in
    let other : pos ≢ (pos + (1 + length xs)) % 64 = omega arith in
    (ground arith, rw same at (Cells-update b (next_pos pos) c xs (omega arith) (omega arith) h))

Cells-append :
    (b : Mem) (pos c : ℕ) (xs : List ℕ)
    → pos < 64
    → Cells b pos xs
    → b ((pos + length xs) % 64) ≡ c
    → Cells b pos (xs ++ c ∷ [])
Cells-append b pos c [] lt h e = let here : (pos + 0) % 64 ≡ pos = omega arith in (rw here at e, tt)
Cells-append b pos c (x ∷ xs) lt (e', h) e =
    let same : (next_pos pos + length xs) % 64 ≡ (pos + (1 + length xs)) % 64 = omega arith in
    (e', Cells-append b (next_pos pos) c xs (omega arith) h (rw same e))

-- `ioqueueInit` leaves an empty queue.
pub ioqueue_init_lem : (q : Ioqueue) → IsQueue (ioqueue_init q) []
unfolding ioqueue_init
ioqueue_init_lem q = record {
  head_in = omega arith;
  tail_at = refl;
  short = omega arith;
  cells = tt;
}

-- `ioqueueGetchar` waits exactly if the queue is empty; otherwise it takes the oldest character.
pub getchar-empty : (q : Ioqueue) → IsQueue q [] → ioqueue_getchar q ≡ none
unfolding ioqueue_getchar ioqueue_empty
getchar-empty q v = ground (arith, v.tail_at, v.head_in)

pub getchar_lem :
    (q : Ioqueue) (x : ℕ) (xs : List ℕ)
    → IsQueue q (x ∷ xs)
    → (q' : Ioqueue) × (ioqueue_getchar q ≡ some (x, q')) × IsQueue q' xs
unfolding ioqueue_getchar ioqueue_empty
getchar_lem q x xs v =
    let (e, h) = v.cells in
    let some_left : (q.tail == q.head) ≡ false = ground (arith, v.tail_at, v.head_in, v.short) in
    (
      record q { head = next_pos q.head },
      rw some_left (rw e refl),
      record {
        head_in = omega arith;
        tail_at = omega (arith, v.tail_at, v.head_in);
        short = omega (arith, v.short);
        cells = h;
      },
    )

-- `ioqueuePutchar` waits exactly if the queue holds 63 characters; otherwise it puts the character
-- behind the others.
pub putchar-full :
    (q : Ioqueue) (c : ℕ) (xs : List ℕ) → IsQueue q xs → length xs ≡ 63 → ioqueue_putchar q c ≡ none
unfolding ioqueue_putchar ioqueue_full
putchar-full q c xs v full = ground (arith, v.tail_at, v.head_in, full)

pub putchar_lem :
    (q : Ioqueue) (c : ℕ) (xs : List ℕ)
    → IsQueue q xs
    → length xs < 63
    → (q' : Ioqueue) × (ioqueue_putchar q c ≡ some q') × IsQueue q' (xs ++ c ∷ [])
unfolding ioqueue_putchar ioqueue_full
putchar_lem q c xs v lt =
    let room : (next_pos q.tail == q.head) ≡ false = ground (arith, v.tail_at, v.head_in) in
    let len : length (xs ++ c ∷ []) ≡ 1 + length xs = omega (arith, length-++ xs (c ∷ [])) in
    let stop = v.tail_at in
    (
      record q { buf = update q.buf q.tail c; tail = next_pos q.tail },
      rw room refl,
      record {
        head_in = v.head_in;
        tail_at = omega (arith, v.tail_at, v.head_in, len);
        short = omega (arith, len);
        cells = rw stop (
            Cells-append _ q.head c xs v.head_in
              (Cells-update q.buf q.head c xs v.head_in v.short v.cells) (ground arith));
      },
    )
