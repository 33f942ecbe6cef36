-- ===== src/Lib.antt =====
-- Verification of the secos-ng kernel, a small 32-bit x86 kernel for teaching, of tp_exam, the
-- preemptive scheduler of two ring 3 tasks that is built on it, and of six of its exercises.
--
-- The parts and the files that model them, with paths from the repository's root:
--
-- - Base: numbers, lists, words and bit masks that all parts share.
-- - Bitfield, Registers: the packed unions of kernel/include, as gcc lays them out on x86. A member
--   is a position and a width; `get` and `put` read and write it in the raw word. The members
--   stand in Uart/Regs, Pic/Regs, Cpu/Control, Cpu/Flags, Segment/Regs, Paging/Regs, Trap/Regs and
--   Trap/Gate, and Registers enumerates the unions. The masks that the headers define beside them
--   stand in Cpu/FlagMasks, Cpu/ControlMasks, Cpu/ExtensionMasks, Uart/Masks and Paging/Masks, and
--   Registers/Masks sets each against its member.
-- - Types: kernel/include/types.h, the views of words as members of the unions, and the macros on
--   aligned addresses for 32-bit operands.
-- - Memory: kernel/include/string.h. Memory is a function from 32-bit addresses to bytes; the
--   string instructions are recursion on their count, so they end, and addresses wrap at 4 GB.
--   Memory/Words reads back what word stores have written,
--   and Memory/Direction has the direction flag that the macros clear, its Functions the functions with
--   the flags.
-- - Print: kernel/core/print.c. Print/Buffer is `buffer_t` with `__buf_add`, Print/Digits the number
--   conversions and Print/Format the loop of `__vsnprintf` over the format, with its locals as a
--   record. Print/Format/Spec parses a format into directives and gives each its text. The text of
--   a string argument is a parameter, the bytes before its zero byte; the format is the list of
--   its bytes, without the zero byte; the arguments are the 32-bit words on the stack.
--   Print/Console is `__vprintf`, which sends the text through Uart. Print/Panic is `printf` and
--   `panic`, by how the call ends. A routine that prints is modelled as its calls, Print/Calls;
--   Print/Pieces gives the text of a call whose format is put together from known parts.
-- - Stack: kernel/core/stack.c, the walk over the frame pointers in memory. The address of the symbol
--   `__kernel_start__`, which the linker places, is a parameter.
-- - Io, Uart, Pic: kernel/core/uart.c and kernel/core/pic.c. Writes to ports are a trace; what a
--   device answers to the polls is an argument. Uart/Bank and Pic/Remap say which register a write
--   reaches, from the comments in kernel/include/uart.h and kernel/include/pic.h; Pic/Service has the
--   lines in service, Pic/Bios the vectors of the BIOS, and Trap/Stubs/Requests serves requests one
--   after the other.
-- - Segment: kernel/include/segmem.h and `config_segmentation` of tp_exam/tp.c. Segment/Dump is
--   `print_gdt_content` of tp1/tp.c, and Segment/Exercise its `tp`, on a memory that has anything in
--   the locals; a copy through a segment register checks the limit at every byte.
-- - Paging: kernel/include/pagemem.h and `config_pgds` of tp_exam/tp.c, by the memory that its calls
--   of `memset` and `pg_set_entry` leave. Paging/Walk is the two-level walk, with the
--   rights of the user and to write, and Paging/Frame what `config_pgds` leaves of other memory. Paging/SelfMap is `tp`
--   of tp4/tp.c, whose stores go through its own tables once paging is on. Paging/Large has the pages
--   of 4 MB, Paging/Whole the macros that clear and copy a page, Paging/Parts those that take an
--   address apart.
-- - Trap: kernel/core/intr.c, kernel/core/excp.c and `config_interrupt` of tp_exam/tp.c. Trap/Dispatch
--   is where the handlers branch, Trap/Report all that they print, with the walk of Stack. The
--   text of an exception's name is behind a pointer, as that of every string argument; Trap/Report/Names
--   has the strings, and Trap/Causes each vector's name and the bits of its error code, apart from the code.
--   Trap/Userland is `tp` of tp5/tp.c, which enters ring 3, and Trap/Syscall its system call, from
--   `int` to `iret`, with the handler of tp_exam/tp.c beside it. Trap/Ring3 is tp3/tp.c, with
--   the tests of the processor on the selectors of the frame and of the TSS. Trap/Stubs is
--   kernel/core/idt.s, the stub of each vector and the return, Trap/Stubs/Ending the whole of an
--   interrupt, and Trap/Stubs/Vectors the exceptions of kernel/include/excp.h.
--   Trap/Breakpoint is the handler of tp2/tp.c, and Trap/Breakpoint/Gate its `tp`.
-- - Cpu/Push, Cpu/Interrupt: the stack as the processor's pushes leave it, and what the processor,
--   `pusha`, `popa` and `iret` do at the entry to an interrupt and at its end. Cpu/FlagOps is what
--   kernel/include/asm.h and kernel/include/gpr.h do to the flags.
-- - Sched: `config_task`, `config` and `clock_interrupt_handler` of tp_exam/tp.c. It takes the
--   selectors from Segment and the directories from Paging. A saved context is the list of words
--   that `memcpy` moves; an index of `tasks` is 0 or 1. Sched/Counter has the two tasks and the
--   system call as a step relation: `task1_function` by its accesses to the counter, and each round
--   of `task2_function` with `sys_counter` and `syscall_handler` as one step, as the handler runs
--   with interrupts off. Every access goes through the tables of the directory loaded. Sched/Switch
--   is the clock interrupt on memory, with the globals and contexts at their addresses, and
--   Sched/Switch/Preempt adds the entry and the return of `clock_interrupt_isr`.
-- - Boot: `start` of kernel/core/start.c with the whole of `config` of tp_exam/tp.c, composed of the
--   operations of the parts above. Addresses of code and data are parameters, and so is the text of
--   the macro RELEASE; the two calls of `debug` poll the port by their own answers, and the second one
--   writes its buffer, which lies in the first 4 MB and below the tables, with paging on. Boot/MemoryMap is `tp` of tp0/tp.c: its loop over the memory map of the boot
--   loader and, in Probes, its reads and writes at addresses that may have no memory.
-- - Tests: the theorems at concrete inputs.
--
-- Fuel: the decimal conversions have 21 rounds, as 2^64 < 10^20 and the last test takes one; the
-- hexadecimal one has 17, for 16 digits; the walk over the memory map has one for each 24 bytes of it
-- and two more; the walk over the stack has one for each eight bytes below
-- the kernel and two more; the dump of a descriptor table has 8193, for a table of 8192 at most. The
-- theorems on them show that this is enough. A poll of a device beyond the answers given is `none`.
--
-- Not modelled: the entry kernel/core/entry.s; the accessors of segment, table and control registers,
-- which are single instructions, but for what the code that uses them leaves there; the boot
-- structures of kernel/include/grub_mbi.h and kernel/include/mbi.h, which come from GRUB; the
-- processor's translation cache; interrupts that come while a handler of the clock runs, between its `sti`
-- and its `iret`: an entry and its return are one step; memory that answers at several addresses; what compiled prologues push below the stack pointer.
pub mod Base
pub mod Bitfield
pub mod Registers
pub mod Memory
pub mod Print
pub mod Io
pub mod Uart
pub mod Pic
pub mod Cpu
pub mod Segment
pub mod Paging
pub mod Trap
pub mod Sched
pub mod Stack
pub mod Types
pub mod Boot
pub mod Tests
