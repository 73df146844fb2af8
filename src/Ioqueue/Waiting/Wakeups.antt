-- ===== src/Ioqueue/Waiting/Wakeups.antt =====
-- No wake-up of device/ioqueue.c is lost: who may still sleep after any calls, in any order.
use mathlib.Core.List.{append_assoc}
use holo_os.Base.{
  ℕ, ◌+◌, ◌≤◌, ◌≡◌, ◌⊎◌, inl, inr, refl, Bool, true, false, sym, ap, ◌∙◌, Bool-cases, ltb, Option,
  none, some, List, [], ◌∷◌, ◌++◌, length, length-++, pick, sum_by, sum_by-nil, sum_by-cons,
  sum_by-snoc, pick-sum_by, arith,
}
use holo_os.Ioqueue.{Ioqueue, Call, get, put}
use holo_os.Ioqueue.Ring.{
  IsQueue, ioqueue_init_lem, getchar-empty, getchar_lem, putchar-full, putchar_lem,
}
use holo_os.Ioqueue.Waiting.{
  Shared, init_queue, wait_not_empty, wait_not_full, wake_getter, wake_putter, getchar_round,
  putchar_round, Event, call, again, History, end_get, end_put, round, happen, happen_all,
}

abbrev is_get : ℕ × Call → ℕ
is_get (t, get) = 1
is_get (t, put c) = 0

abbrev is_put : ℕ × Call → ℕ
is_put (t, get) = 0
is_put (t, put c) = 1

-- The woken threads that have not run since and are in `ioqueueGetchar`, or in `ioqueuePutchar`.
abbrev pub woken_getters : Shared → ℕ
woken_getters s = sum_by is_get s.woken

abbrev pub woken_putters : Shared → ℕ
woken_putters s = sum_by is_put s.woken

-- Somebody sleeps on `condNotEmpty` only while `gets` threads and the woken ones are to get all of the
-- `n` characters of the ring, and on `condNotFull` only while `puts` threads and the woken ones are
-- to fill all its free cells.
abbrev pub Served : Shared → ℕ → ℕ → ℕ → Type 0
Served s n gets puts =
    ((s.not_empty ≡ []) ⊎ (n ≤ gets + woken_getters s))
    × ((s.not_full ≡ []) ⊎ (63 ≤ n + puts + woken_putters s))

wake_putter-Served :
    (s : Shared) (n : ℕ) (ws : List (ℕ × ℕ))
    → s.not_full ≡ ws
    → Served s (1 + n) 1 0
    → Served (wake_putter s ws) n 0 0 × ((wake_putter s ws).ring ≡ s.ring)
unfolding wake_putter
wake_putter-Served s n [] e (g, p) =
    ((elim g [ inl nil ↦ inl nil | inr le ↦ inr (omega arith) ], inl e), refl)
wake_putter-Served s n ((t, c) ∷ ws) e (g, p) =
    let gets = sum_by-snoc is_get s.woken (t, put c) in
    let puts = sum_by-snoc is_put s.woken (t, put c) in
    (
      (
        elim g [ inl nil ↦ inl nil | inr le ↦ inr (omega (arith, gets)) ],
        inr (elim p [ inl nil ↦ absurd cc | inr le ↦ omega (arith, puts) ]),
      ),
      refl,
    )

wake_getter-Served :
    (s : Shared) (n : ℕ) (ts : List ℕ)
    → s.not_empty ≡ ts
    → Served s n 0 1
    → Served (wake_getter s ts) (1 + n) 0 0 × ((wake_getter s ts).ring ≡ s.ring)
unfolding wake_getter
wake_getter-Served s n [] e (g, p) =
    ((inl e, elim p [ inl nil ↦ inl nil | inr le ↦ inr (omega arith) ]), refl)
wake_getter-Served s n (t ∷ ts) e (g, p) =
    let gets = sum_by-snoc is_get s.woken (t, get) in
    let puts = sum_by-snoc is_put s.woken (t, get) in
    (
      (
        inr (elim g [ inl nil ↦ absurd cc | inr le ↦ omega (arith, gets) ]),
        elim p [ inl nil ↦ inl nil | inr le ↦ inr (omega (arith, puts)) ],
      ),
      refl,
    )

woken_all : (ws : List (ℕ × Call)) → sum_by is_get ws + sum_by is_put ws ≡ length ws
woken_all [] = let n = sum_by-nil is_get in let m = sum_by-nil is_put in omega arith
woken_all ((t, get) ∷ ws) =
    let n = sum_by-cons is_get (t, get) ws in
    let m = sum_by-cons is_put (t, get) ws in let rest = woken_all ws in omega arith
woken_all ((t, put c) ∷ ws) =
    let n = sum_by-cons is_get (t, put c) ws in
    let m = sum_by-cons is_put (t, put c) ws in let rest = woken_all ws in omega arith

record IsServed (h : History) : Type 0 where
  chars : List ℕ
  ring : IsQueue h.queue.ring chars
  order : h.put_chars ≡ h.got_chars ++ chars
  served : Served h.queue (length chars) 0 0

get-IsServed :
    (h : History) (s : Shared) (t : ℕ) (xs : List ℕ)
    → IsQueue s.ring xs
    → h.put_chars ≡ h.got_chars ++ xs
    → Served s (length xs) 1 0
    → IsServed (round h s t get)
unfolding round end_get wait_not_empty getchar_round
get-IsServed h s t [] v order (g, p) =
    let run : ◌≡◌ {A = Option ℕ × Shared} (getchar_round s t) (none, wait_not_empty s t) =
      rw (getchar-empty s.ring v, getchar_round) refl in
    rw run (record { chars = []; ring = v; order = order; served = (inr (omega arith), p) })
get-IsServed h s t (x ∷ xs) v order served =
    let (ring', run, v') = getchar_lem s.ring x xs v in
    let (after, same) =
      wake_putter-Served (record s { ring = ring' }) (length xs) s.not_full refl served in
    let over : ◌≡◌ {A = Option ℕ × Shared} (getchar_round s t)
        (some x, wake_putter (record s { ring = ring' }) s.not_full) =
      rw (run, getchar_round) refl in
    rw over (record {
      chars = xs;
      ring = rw same v';
      order = order ∙ sym (append_assoc h.got_chars (x ∷ []) xs);
      served = after;
    })

put-IsServed :
    (h : History) (s : Shared) (t c : ℕ) (xs : List ℕ)
    → IsQueue s.ring xs
    → h.put_chars ≡ h.got_chars ++ xs
    → Served s (length xs) 0 1
    → IsServed (round h s t (put c))
unfolding round end_put wait_not_full putchar_round wake_getter
put-IsServed h s t c xs v order (g, p) = elim (Bool-cases (ltb (length xs) 63)) [
  | inl room ↦
      let (ring', run, v') = putchar_lem s.ring c xs v (ground arith) in
      let (after, same) =
        wake_getter-Served (record s { ring = ring' }) (length xs) s.not_empty refl (g, p) in
      let len : length (xs ++ c ∷ []) ≡ 1 + length xs = omega (arith, length-++ xs (c ∷ [])) in
      let over : ◌≡◌ {A = Bool × Shared} (putchar_round s t c)
          (true, wake_getter (record s { ring = ring' }) s.not_empty) =
        rw (run, putchar_round) refl in
      rw over (record {
        chars = xs ++ c ∷ [];
        ring = rw same v';
        order = ap (λ l. l ++ c ∷ []) order ∙ append_assoc h.got_chars xs (c ∷ []);
        served = rw len after;
      })
  | inr full ↦
      let size : length xs ≡ 63 = ground (arith, v.short) in
      let waits : ◌≡◌ {A = Bool × Shared} (putchar_round s t c) (false, wait_not_full s t c) =
        rw (putchar-full s.ring c xs v size, putchar_round) refl in
      rw waits (record { chars = xs; ring = v; order = order; served = (g, inr (omega arith)) })
]

happen-IsServed : (h : History) (e : Event) → IsServed h → IsServed (happen h e)
unfolding happen
happen-IsServed h (call t get) v =
    get-IsServed h h.queue t v.chars v.ring v.order
      (elim v.served.0 [ inl n ↦ inl n | inr le ↦ inr (omega arith) ], v.served.1)
happen-IsServed h (call t (put c)) v =
    put-IsServed h h.queue t c v.chars v.ring v.order
      (v.served.0, elim v.served.1 [ inl n ↦ inl n | inr le ↦ inr (omega arith) ])
happen-IsServed h (again n) v =
    woken_one (pick n h.queue.woken) (λ f. pick-sum_by f n h.queue.woken)
  where
    woken_one :
        (o : Option ((ℕ × Call) × List (ℕ × Call)))
        → ((f : ℕ × Call → ℕ) (r : (ℕ × Call) × List (ℕ × Call))
            → o ≡ some r
            → sum_by f h.queue.woken ≡ f r.0 + sum_by f r.1)
        → IsServed
            (elim o [ none ↦ h | some r ↦ round h (record h.queue { woken = r.1 }) r.0.0 r.0.1 ])
    woken_one none sum = v
    woken_one (some ((t, get), ws)) sum =
        let gets = sum is_get ((t, get), ws) refl in
        let puts = sum is_put ((t, get), ws) refl in
        get-IsServed h (record h.queue { woken = ws }) t v.chars v.ring v.order
          (
            elim v.served.0 [ inl n ↦ inl n | inr le ↦ inr (omega arith) ],
            elim v.served.1 [ inl n ↦ inl n | inr le ↦ inr (omega arith) ],
          )
    woken_one (some ((t, put c), ws)) sum =
        let gets = sum is_get ((t, put c), ws) refl in
        let puts = sum is_put ((t, put c), ws) refl in
        put-IsServed h (record h.queue { woken = ws }) t c v.chars v.ring v.order
          (
            elim v.served.0 [ inl n ↦ inl n | inr le ↦ inr (omega arith) ],
            elim v.served.1 [ inl n ↦ inl n | inr le ↦ inr (omega arith) ],
          )

happen_all-IsServed : (es : List Event) (h : History) → IsServed h → IsServed (happen_all h es)
unfolding happen_all
happen_all-IsServed [] h v = v
happen_all-IsServed (e ∷ es) h v = happen_all-IsServed es (happen h e) (happen-IsServed h e v)

-- A new queue, with no call over.
abbrev pub fresh : Ioqueue → History
fresh ioq = record { queue = init_queue ioq; put_chars = []; got_chars = [] }

-- After any calls of `ioqueueGetchar` and `ioqueuePutchar` on a new queue, in any order, the ring
-- holds the characters that were put and not got, in their order. If a thread still sleeps in
-- `ioqueueGetchar`, then woken threads that have not run yet are to get all of them; and if one
-- sleeps in `ioqueuePutchar`, then woken threads are to fill all free cells of the 63. So threads
-- never sleep on both conditions with no thread woken.
pub happen_all-Served :
    (ioq : Ioqueue) (es : List Event)
    → (xs : List ℕ) × IsQueue (happen_all (fresh ioq) es).queue.ring xs
      × ((happen_all (fresh ioq) es).put_chars ≡ (happen_all (fresh ioq) es).got_chars ++ xs)
      × Served (happen_all (fresh ioq) es).queue (length xs) 0 0
      × (((happen_all (fresh ioq) es).queue.not_empty ≡ [])
          ⊎ ((happen_all (fresh ioq) es).queue.not_full ≡ [])
          ⊎ (1 ≤ length (happen_all (fresh ioq) es).queue.woken))
unfolding init_queue
happen_all-Served ioq es =
    let v = happen_all-IsServed es (fresh ioq) (record {
      chars = [];
      ring = ioqueue_init_lem ioq;
      order = refl;
      served = (inl refl, inl refl);
    }) in
    let all = woken_all (happen_all (fresh ioq) es).queue.woken in
    (
      v.chars,
      v.ring,
      v.order,
      v.served,
      elim v.served.0 [
        | inl none_get ↦ inl none_get
        | inr gets ↦ elim v.served.1 [
          | inl none_put ↦ inr (inl none_put)
          | inr puts ↦ inr (inr (omega arith))
        ]
      ],
    )
