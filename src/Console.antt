-- ===== src/Console.antt =====
-- device/console.c: threads that print under `consoleLock`. Each thread runs `lockAcquire` and
-- `lockRelease` in the steps of Sync, and between them prints a character a step; the steps of the
-- threads come in any order. A call of `consolePuts`, `consolePutchar` or `consolePutint` is told by
-- the characters that it is to print.
pub mod Whole
mod Tests
use holo_os.Base.{ℕ, Bool, ◌≡◌, ◌≢◌, Option, none, some, List, [], ◌∷◌, ◌++◌}
use holo_os.Sync.{Lock, lock_init, Place, outside, inside, check_holder, null, set, step_at, relink}

-- `text` is what the call of a thread prints, and `left` what of it is still to come; `messages` are
-- those of the calls that have printed all of theirs.
pub record Console : Type 0 where
  pub lock : Lock
  pub screen : List ℕ
  pub text : ℕ → List ℕ
  pub left : ℕ → List ℕ
  pub messages : List (List ℕ)

unfoldable pub console_init : Console
console_init = record {
  lock = lock_init;
  screen = [];
  text = λ t. [];
  left = λ t. [];
  messages = [];
}

-- A call with the characters `cs`, as its thread enters `consoleAcquire`.
abbrev pub calls : Console → ℕ → List ℕ → Lock → Console
calls s t cs l = record s { lock = l; text = set s.text t cs; left = set s.left t cs }

-- `putchar` of the next character.
abbrev pub prints : Console → ℕ → ℕ → List ℕ → Console
prints s t c cs = record s { screen = s.screen ++ c ∷ []; left = set s.left t cs }

-- The call has printed its characters, and its thread enters `consoleRelease`.
abbrev pub releases : Console → ℕ → Lock → Console
releases s t l = record s {
  lock = l;
  text = set s.text t [];
  left = set s.left t [];
  messages = s.messages ++ s.text t ∷ [];
}

-- What one step of a thread makes of the console.
pub data Step : Console → Console → Type 0 where
  call :
      {s : Console} (t : ℕ) (cs : List ℕ) {l : Lock}
      → t ≢ null
      → s.lock.place t ≡ outside
      → step_at s.lock t (s.lock.place t) ≡ some l
      → Step s (calls s t cs l)
  print :
      {s : Console} (t c : ℕ) (cs : List ℕ)
      → t ≢ null
      → s.lock.place t ≡ inside
      → s.left t ≡ c ∷ cs
      → Step s (prints s t c cs)
  release :
      {s : Console} (t : ℕ) {l : Lock}
      → t ≢ null
      → s.lock.place t ≡ inside
      → s.left t ≡ []
      → step_at s.lock t (s.lock.place t) ≡ some l
      → Step s (releases s t l)
  go :
      {s : Console} (t : ℕ) {l : Lock}
      → t ≢ null
      → s.lock.place t ≢ outside
      → s.lock.place t ≢ inside
      → step_at s.lock t (s.lock.place t) ≡ some l
      → Step s (record s { lock = l })
  -- a thread is preempted in `lockAcquire`, and the list of waiters may be any
  preempt :
      {s : Console} (ws : List ℕ) (bl : ℕ → Bool) → Step s (record s { lock = relink s.lock ws bl })

pub data Runs : Console → Type 0 where
  begin : Runs console_init
  continue : {s s' : Console} → Runs s → Step s s' → Runs s'
