-- ===== src/Lib.antt =====
-- HoloOS, a small x86 kernel in C: models of its data structures, its memory management, its
-- threads and its processes, with the theorems that make them correct.
--
-- The parts, and the files that model them:
-- - Base: what the others share. Base.Run is a call's outcome: `ASSERT` and `PANIC`
--   (include/kernel/debug.h, kernel/debug.c) stop a run as `panic`; the build compiles assertions
--   in. Base.Memory is memory as a function from addresses, Base.Bits and Base.Masks are the bit
--   operations of bytes and words.
-- - CString models lib/string.c: the routines on blocks of bytes, and in CString.Text those on
--   strings.
-- - LinkedList models lib/list.c: the `prev` and `next` fields of all nodes are two memories, and
--   a list is the address of its head.
-- - Bitmap models kernel/bitmap.c over a memory of bytes.
-- - Memory.Pool models the pools of page frames of kernel/memory.c (`palloc`, `pfree`,
--   `memPoolInit`), and Memory.Paging its page tables (`pdePtr`, `ptePtr`, `v2p`, `pageTableAdd`,
--   `pageTablePteRemove`). The pools keep their frames in bitmaps, the page tables take frames
--   from the kernel's pool. Memory.Alloc models the pages of a virtual space and what joins the
--   three: `vaddrGet`, `vaddrRemove`, `mallocPage`, `getKernelPages`, `getUserPages`, `getPage`
--   and `mfreePage`. Memory.Heap models the sizes of the heap's blocks and where they lie in an
--   arena, and in Memory.Heap.Calls `sysMalloc` and `sysFree`, whose free blocks are nodes of
--   lists of LinkedList in pages of Memory.Alloc.
-- - Keyboard models the interrupt handler of device/keyboard.c as a step on its five flags, one
--   byte of the controller a time. Keyboard.Typing puts the characters that it passes on into the
--   queue, on the stack of the thread that the interrupt meets.
-- - Ioqueue models device/ioqueue.c: each call is one step under the queue's lock, or waits.
--   Ioqueue.Waiting adds the two conditions, with the threads that sleep on them and those that
--   were woken.
-- - Sync models `lockAcquire` and `lockRelease` of kernel/sync.c: a step is one access to what
--   threads share, or what a thread does under the spin lock up to the next one, and the steps of
--   different threads come in any order. The waiters are a sequence; where a thread is preempted
--   between `listAppend` and `threadSetStatus`, `schedule` links the same node into the ready
--   list (Thread.Preempted), and any other sequence of waiters may follow. Sync.Semaphore models
--   conditions and semaphores, where what a thread does under the semaphore's lock is one step.
-- - Interrupt models kernel/interrupt.c: the flag that `intrDisable` and `intrSetStatus` save and
--   restore, the gates and the table of handlers. Tss models kernel/tss.c: the descriptors of
--   segments as the processor reads them.
-- - Thread models kernel/thread.c and the timer interrupt of device/timer.c: control blocks are
--   fields by the address of the block, and the ready list is a list of LinkedList whose nodes
--   lie in them. One call of the scheduler goes up to the end of the switch, where the next
--   thread's stack is in use. Thread.Context models kernel/switch.S on registers and stack. Timer
--   models how device/timer.c sets its counter.
-- - Process models kernel/process.c over Thread and Memory: page directories, the space of a
--   process and its way into user mode through `intrExit` of lib/kernel/kernel.S.
-- - Stdio models `itoa` and `vsprintf` of lib/stdio.c, which write through the routines of
--   CString, and in Stdio.Hex `putint` of lib/kernel/printC.c by the characters that it prints.
--   Stdio.Render says what text a format stands for, apart from any buffer: a format is read as a
--   list of pieces, and each piece stands for characters. `sprintf` and `printf` take their
--   arguments from the words of the caller's stack.
-- - Screen models `putchar` and `puts` of lib/kernel/print.S by what they leave in the video
--   memory and of the cursor.
-- - Console models device/console.c: threads at the lock of Sync, which print a character a step
--   between `consoleAcquire` and `consoleRelease`.
-- - Syscall models the table and the functions of lib/kernel/syscallK.c, `syscallHandler` of
--   lib/kernel/kernel.S with the registers that it saves and loads, `write` under the console's
--   lock, for which a call waits without end while another thread has it, and in Syscall.User the
--   calls of lib/kernel/syscall.c; Syscall.Print joins them with Stdio and Screen to `printf` of
--   a user program.
-- - Startup models `initAll` of kernel/init.c over the state of all components, and `main` of
--   kernel/main.c up to its last loop.
--
-- Conventions: a number is a native natural number; arithmetic of `uint32` and `uint16` is
-- written with its wrap-around, and a pointer is an address that is not wrapped. Different kinds
-- of memory (bytes of bitmaps, words of page tables, link fields) are different functions: no two
-- of them overlap in the source either. An `int` result in which -1 means failure is an Option. A
-- loop takes the number of rounds that its test leaves, or fuel, one round for each node or byte
-- and one more, which is enough since a round that goes on moves by one of them; `itoa` takes 32
-- rounds, since its number has 32 binary digits and each round takes away at least one.
-- `vsprintf` takes a round for a character of the format, and in it one for each character of a
-- string argument.
--
-- Not modelled: the boot sector and the loader, the interrupt entries but for `syscallHandler`
-- and `intrExit`, `clearScreen`, the messages of the initialisers on the screen, port input and
-- output but for the bytes that program the interrupt controller and the counter, and the
-- demonstration threads that `main` starts. The locks of the pools of memory are left out of the
-- models of the calls that hold one from start to end; `getPage` says whether it gives its lock
-- back. A spin lock of kernel/thread.c is whether it is occupied, and waiting for it takes fuel:
-- no amount of it is enough while the lock's holder does not run.
pub mod Base
pub mod CString
pub mod LinkedList
pub mod Bitmap
pub mod Memory
pub mod Keyboard
pub mod Ioqueue
pub mod Sync
pub mod Stdio
pub mod Interrupt
pub mod Tss
pub mod Thread
pub mod Process
pub mod Timer
pub mod Screen
pub mod Syscall
pub mod Console
pub mod Startup
