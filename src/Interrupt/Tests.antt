-- ===== src/Interrupt/Tests.antt =====
-- kernel/interrupt.c with the flags 0x246, where interrupts are on.
