-- ===== src/Lib.antt =====
-- An ARM (v5T) simulator in C: registers, memory, the processor core, the decoding and execution of
-- instructions.
--
-- The parts. `arm_step` (arm_instruction.c) fetches a word through arm_core.c, chooses one of eight
-- classes by bits 27 to 25 and calls a handler of arm_data_processing.c, arm_load_store.c or
-- arm_branch_other.c; a non-zero status of the handler goes to `arm_exception` (arm_exception.c). The
-- handlers reach the registers and the memory through arm_core.c only, which calls registers.c (a
-- register file with banks chosen by the mode) and memory.c (a block of bytes with a byte order), and
-- they use the bit fields, shifts, conditions and flags of util.c. The main program (arm_simulator.c)
-- reads its options (debug.c and trace.c keep some of them), creates the memory and the processor and
-- starts two threads: one scans what GDB sends (scanner.l) and serves its packets (gdb_protocol.c), which
-- step the processor and read and write its state; the other raises the exceptions that send_irq.c sends.
-- A lock keeps the two apart. memory_test.c is a program of its own, which tests the memory.
--
-- The files:
--   Base            names and tests that all files share, and `Outcome`: a value, `exit`, undefined
--                   behaviour (an access out of an allocated block), or a loop that has not ended
--                   in its rounds
--   Bits, Word      binary digits; 32-bit arithmetic with its wrap-around written out, and `Host`
--   Constants       arm_constants.h and the bit numbers of arm_load_store.h
--   Util            util.h and util.c; Util/Shifter is `do_shift`, Util/Macros the macros that no other
--                   part of the simulator uses
--   Registers       registers.c; Registers/Bank gives one table of places for all its switches,
--                   Registers/Frame and Modes what one access changes for the others, and Registers/Copy
--                   the transfer of several registers
--   Memory          memory.c; half-words and words are the cases 2 and 4 of one function
--   Core            arm_core.c and arm_exception.c; Core/Print is `arm_print_state`
--   MemoryTest      memory_test.c
--   DataProcessing  arm_data_processing.c; DataProcessing/Results describes the sixteen operations by
--                   sums and digits, DataProcessing/Return is the write of the program counter with the
--                   S bit
--   Branch          arm_branch_other.c
--   LoadStore       arm_load_store.c; LoadStore/Multiple has the transfers of a register list,
--                   LoadStore/Words, HalfWords and Stack (push and pop) transfers of one register
--   Instruction     arm_instruction.c; Instruction/Execute, Described, Immediate and Shifted
--                   follow a data-processing instruction from the fetch to the registers
--   Text, Gdb       gdb_protocol.c: the packets, and the requests on all registers and for a step;
--                   Gdb/Requests has the other requests and the table of handlers
--   Scanner         scanner.l: the rules, and the buffer of characters that are no packet
--   Debug           debug.c: the sorted table of file names and its binary search
--   Names           arm_constants.c, and the lookup of a name in send_irq.c
--   Trace           trace.c, without the text that it prints; Trace/Code has the macros of
--                   trace_location.h as nested code
--   Simulator       arm_simulator.c: the options, the start, and the exceptions from outside;
--                   Simulator/Threads has the two threads and their lock as moves on shared data
--   Tests           examples
-- Registers/Words, Memory/Bytes and the Valid modules have the lemmas on one invariant of the processor,
-- `IsValid` of Core/Valid, that registers stay words and the memory bytes of the same size and order, as
-- their types in C have it; Gdb/Safety, Scanner/Safety and Simulator/Safety put them together.
-- Each C function is a function of the same name. Structures are records and are passed on instead of
-- changed in place; a C function that changes the processor returns it with its status (`Stepped`,
-- `Fetched`, `Read`, `Written`). Names in upper case are in lower case here. The global `regCPSR` of
-- util.c, which only `cond_valid` sets, for `check_fs`, is an argument.
--
-- What the code leaves open is a parameter. `Host` has the byte order of the machine and the value of a
-- shift by 32 or more. `Unset` has the contents of the variables that are read before they are set:
-- the instruction after a failed fetch, the upper bytes of a loaded byte or half-word, and the base
-- register of a multiple store. `Locals` has the same for the requests of gdb_protocol.c, the bytes that
-- lie behind a request that is too short, and what `sscanf` makes of a number that is too large; `atoi`
-- takes such a number modulo 2 ^ 32. The content of freshly allocated blocks is an argument too, and so
-- is, at each macro of trace_location.h, which operand of its sum C evaluates first.
--
-- Bounds. The loops over the bytes of a word and over the sixteen bits of a register list recurse on
-- the number of rounds left, 1 to 4 and 16, so no fuel is needed. The binary search of debug.c has
-- one round more than the table has files, the scanner one more than the input has characters, the
-- lookup of send_irq.c eight, which is enough. The loop of the continue request may run for ever: it
-- has a number of rounds, and any number that is greater than the steps to the next breakpoint is
-- enough. Addresses and registers are natural numbers; the operations on them wrap at 2 ^ 32 where
-- the C types do.
--
-- Not modelled: the text that is printed but by `arm_print_state` (the formats of trace.c, the debug
-- output, what memory_test prints around its results) and the calls of the trace in the processor
-- core, freeing of memory and failing allocations, the signs, spaces and 0x that `%x` accepts before
-- the digits, the sockets of arm_simulator.c and send_irq.c (a connection is the sequence of its
-- bytes), the `getopt_long` that cuts the options out of the arguments, the copy of csapp, and the
-- code that flex generates (scanner.c).
pub mod Base
pub mod Bits
pub mod Word
pub mod Constants
pub mod Text
pub mod Util
pub mod Registers
pub mod Memory
pub mod MemoryTest
pub mod Core
pub mod DataProcessing
pub mod Branch
pub mod LoadStore
pub mod Instruction
pub mod Gdb
pub mod Debug
pub mod Scanner
pub mod Names
pub mod Simulator
pub mod Trace
pub mod Tests
