-- ===== src/Keyboard/Typing.antt =====
-- device/keyboard.c with its queue: what becomes of the characters that the handler passes on while no
-- thread calls `ioqueueGetchar` on `keyboardBuf`, as no code of the kernel does. The handler runs on
-- the stack of the thread that the interrupt meets. A thread that sleeps leaves another one to run
-- here: with no ready thread left, `schedule` would stop the kernel (Thread.Switch).
use mathlib.Core.List.{append-nil, append_assoc}
use holo_os.Base.{
  ℕ, ◌+◌, ◌≡◌, ◌⊎◌, inl, inr, refl, sym, ap, ◌∙◌, Bool, true, false, Bool-cases, ltb, List, [], ◌∷◌,
  ◌++◌, length, arith,
}
use holo_os.Interrupt.{Handlers, register_handler}
use holo_os.Ioqueue.{Ioqueue, put}
use holo_os.Ioqueue.Ring.{IsQueue, ioqueue_init_lem, putchar-full, putchar_lem}
use holo_os.Ioqueue.Waiting.{
  Shared, init_queue, wait_not_full, wake_getter, putchar_round, History, end_put, round,
}
use holo_os.Ioqueue.Waiting.Wakeups.{fresh}
use holo_os.Screen.{Screen}
use holo_os.Screen.Text.{put_all}
use holo_os.Keyboard.{Keyboard, Effect, nothing, put_char, unknown_key, intr_keyboard_handler}

-- The queue and the table of handlers; `handler` is the address of `intrKeyboardHandler`.
unfoldable pub keyboard_init : ℕ → Ioqueue → Handlers → Shared × Handlers
keyboard_init handler ioq h = (init_queue ioq, register_handler 0x21 handler h)

pub record Typing : Type 0 where
  pub keyboard : Keyboard
  pub history : History
  pub screen : Screen

-- "\nunknown key."
abbrev pub unknown_text : List ℕ
unknown_text = 10 ∷ 117 ∷ 110 ∷ 107 ∷ 110 ∷ 111 ∷ 119 ∷ 110 ∷ 32 ∷ 107 ∷ 101 ∷ 121 ∷ 46 ∷ []

-- What the handler passes on, on the stack of thread `t`.
pub deliver : Typing → ℕ → Effect → Typing
deliver s t nothing = s
deliver s t (put_char ch) = record s { history = round s.history s.history.queue t (put ch) }
deliver s t unknown_key = record s { screen = put_all s.screen unknown_text }

pub keyboard_interrupt : Typing → ℕ → ℕ → Typing
keyboard_interrupt s t byte =
    let (k, effect) = intr_keyboard_handler s.keyboard byte in
    deliver (record s { keyboard = k }) t effect

-- Interrupts by their threads and bytes.
pub keyboard_interrupts : Typing → List (ℕ × ℕ) → Typing
keyboard_interrupts s [] = s
keyboard_interrupts s ((t, byte) ∷ es) = keyboard_interrupts (keyboard_interrupt s t byte) es

-- The characters that the handler by itself passes on, with the threads.
abbrev char_of : ℕ → Effect → List (ℕ × ℕ)
char_of t nothing = []
char_of t (put_char ch) = (t, ch) ∷ []
char_of t unknown_key = []

unfoldable pub typed : Keyboard → List (ℕ × ℕ) → List (ℕ × ℕ)
typed k [] = []
typed k ((t, byte) ∷ es) =
    let (k', effect) = intr_keyboard_handler k byte in char_of t effect ++ typed k' es

abbrev pub chars : List (ℕ × ℕ) → List ℕ
chars [] = []
chars ((t, ch) ∷ ps) = ch ∷ chars ps

chars-snoc : (ps : List (ℕ × ℕ)) (t ch : ℕ) → chars (ps ++ (t, ch) ∷ []) ≡ chars ps ++ ch ∷ []
chars-snoc [] t ch = refl
chars-snoc ((u, d) ∷ ps) t ch = ap (λ l. d ∷ l) (chars-snoc ps t ch)

length-chars : (ps : List (ℕ × ℕ)) → length (chars ps) ≡ length ps
length-chars [] = refl
length-chars ((u, d) ∷ ps) = ap (λ n. 1 + n) (length-chars ps)

-- The characters of `kept` are in the ring, and the threads of `asleep` wait for room.
record Kept (h : History) (kept asleep : List (ℕ × ℕ)) : Type 0 where
  ring : IsQueue h.queue.ring (chars kept)
  put_chars : h.put_chars ≡ chars kept
  no_getter : h.queue.not_empty ≡ []
  waiting : h.queue.not_full ≡ asleep
  full : (asleep ≡ []) ⊎ (length kept ≡ 63)

put-Kept :
    (h : History) (t ch : ℕ) (kept asleep : List (ℕ × ℕ))
    → Kept h kept asleep
    → (kept' : List (ℕ × ℕ)) × (asleep' : List (ℕ × ℕ)) × Kept
        (round h h.queue t (put ch))
        kept'
        asleep'
      × ((kept ++ asleep) ++ (t, ch) ∷ [] ≡ kept' ++ asleep')
unfolding round end_put wait_not_full putchar_round wake_getter
put-Kept h t ch kept asleep v = elim (Bool-cases (ltb (length kept) 63)) [
  | inl room ↦
      let n = length-chars kept in
      let (ring', run, v') = putchar_lem h.queue.ring ch (chars kept) v.ring (ground arith) in
      let over : ◌≡◌ {A = Bool × Shared} (putchar_round h.queue t ch)
          (true, wake_getter (record h.queue { ring = ring' }) h.queue.not_empty) =
        rw (run, putchar_round) refl in
      let none_asleep : asleep ≡ [] = elim v.full [
        | inl nil ↦ nil
        | inr size ↦ absurd (ground arith)
      ] in
      let nobody = v.no_getter in
      (
        kept ++ (t, ch) ∷ [],
        [],
        rw (over, nobody)
            (record {
              ring = rw (chars-snoc kept t ch) v';
              put_chars = ap (λ l. l ++ ch ∷ []) v.put_chars ∙ sym (chars-snoc kept t ch);
              no_getter = refl;
              waiting = v.waiting ∙ none_asleep;
              full = inl refl;
            }),
        rw (none_asleep, append-nil kept) (sym (append-nil (kept ++ (t, ch) ∷ []))),
      )
  | inr no_room ↦
      let n = length-chars kept in
      let short = v.ring.short in
      let size : length (chars kept) ≡ 63 = ground arith in
      let waits : ◌≡◌ {A = Bool × Shared} (putchar_round h.queue t ch)
          (false, wait_not_full h.queue t ch) =
        rw (putchar-full h.queue.ring ch (chars kept) v.ring size, putchar_round) refl in
      (
        kept,
        asleep ++ (t, ch) ∷ [],
        rw waits (record {
          ring = v.ring;
          put_chars = v.put_chars;
          no_getter = v.no_getter;
          waiting = ap (λ l. l ++ (t, ch) ∷ []) v.waiting;
          full = inr (omega arith);
        }),
        append_assoc kept asleep ((t, ch) ∷ []),
      )
]

deliver-Kept :
    (s : Typing) (t : ℕ) (e : Effect) (kept asleep : List (ℕ × ℕ))
    → Kept s.history kept asleep
    → (kept' : List (ℕ × ℕ)) × (asleep' : List (ℕ × ℕ)) × Kept (deliver s t e).history kept' asleep'
      × ((kept ++ asleep) ++ char_of t e ≡ kept' ++ asleep')
      × ((deliver s t e).keyboard ≡ s.keyboard)
unfolding deliver
deliver-Kept s t nothing kept asleep v = (kept, asleep, v, append-nil (kept ++ asleep), refl)
deliver-Kept s t (put_char ch) kept asleep v =
    let (kept', asleep', v', e) = put-Kept s.history t ch kept asleep v in
    (kept', asleep', v', e, refl)
deliver-Kept s t unknown_key kept asleep v = (kept, asleep, v, append-nil (kept ++ asleep), refl)

keyboard_interrupts-Kept :
    (es : List (ℕ × ℕ)) (s : Typing) (kept asleep : List (ℕ × ℕ))
    → Kept s.history kept asleep
    → (kept' : List (ℕ × ℕ)) × (asleep' : List (ℕ × ℕ)) × Kept
        (keyboard_interrupts s es).history
        kept'
        asleep'
      × ((kept ++ asleep) ++ typed s.keyboard es ≡ kept' ++ asleep')
unfolding keyboard_interrupts keyboard_interrupt typed deliver
keyboard_interrupts-Kept [] s kept asleep v = (kept, asleep, v, append-nil (kept ++ asleep))
keyboard_interrupts-Kept ((t, byte) ∷ es) s kept asleep v =
    let r = intr_keyboard_handler s.keyboard byte in
    let (kept1, asleep1, v1, e1, same) =
      deliver-Kept (record s { keyboard = r.0 }) t r.1 kept asleep v in
    let (kept', asleep', v', e') =
      keyboard_interrupts-Kept es (keyboard_interrupt s t byte) kept1 asleep1 v1 in
    (
      kept',
      asleep',
      v',
      sym (append_assoc (kept ++ asleep) (char_of t r.1) (typed r.0 es))
          ∙ ap (λ l. l ++ typed r.0 es) e1
          ∙ (rw same at e'),
    )

-- After any interrupts of the keyboard, from a new queue on that no thread reads, the first 63
-- characters that the handler passes on are in the ring, in their order. Behind them every thread
-- in whose time the handler passes on a character sleeps on `condNotFull`, with its character.
pub typing_lem :
    (k : Keyboard) (ioq : Ioqueue) (screen : Screen) (es : List (ℕ × ℕ))
    → (kept : List (ℕ × ℕ)) × (asleep : List (ℕ × ℕ)) × (typed k es ≡ kept ++ asleep)
      × IsQueue
          (keyboard_interrupts
            (record { keyboard = k; history = fresh ioq; screen = screen })
            es).history.queue.ring
          (chars kept)
      × ((keyboard_interrupts
            (record { keyboard = k; history = fresh ioq; screen = screen })
            es).history.queue.not_full
          ≡ asleep)
      × ((asleep ≡ []) ⊎ (length kept ≡ 63))
unfolding init_queue
typing_lem k ioq screen es =
    let (kept, asleep, v, e) =
      keyboard_interrupts-Kept es (record { keyboard = k; history = fresh ioq; screen = screen }) []
        []
        (record {
          ring = ioqueue_init_lem ioq;
          put_chars = refl;
          no_getter = refl;
          waiting = refl;
          full = inl refl;
        }) in
    (kept, asleep, e, v.ring, v.waiting, v.full)
