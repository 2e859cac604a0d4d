-- ===== src/Simulator.antt =====
-- arm_simulator.c: the options, the start, and the listener for exceptions from outside.
pub mod Options
pub mod Start
pub mod Threads
pub mod Safety
use projet_prog.Base.{
  ℕ, ◌%◌, ◌^◌, Bool, true, false, if◌then◌else◌, ◌==◌, List, [], ◌∷◌, Option, none, some, Outcome,
  ok, exited, ◌>>=◌,
}
use projet_prog.Text.{atoi}
use projet_prog.Trace.{
  Trace, trace_add, first_trace, memory_flag, registers_flag, state_flag, position_flag,
}
use projet_prog.Registers.{Registers, registers_create}
use projet_prog.Memory.{memory_create}
use projet_prog.Core.{Core, arm_exception, arm_create}
use projet_prog.Debug.{Debugged, add_debug_to}

-- What the options set. The trace goes to standard output where no file is named.
pub record Settings : Type 0 where
  pub gdb_port : ℕ
  pub irq_port : ℕ
  pub trace_file : Option (List ℕ)
  pub trace : Trace
  pub debugged : Debugged

-- One round of the loop over the options: `opt` and `optarg` are what `getopt_long` gives. `opens`
-- says which files `fopen` can open.
module _ (opens : List ℕ → Bool) where
  unfoldable pub set_option : Settings → ℕ → List ℕ → Outcome Settings
  set_option s opt optarg =
      if opt == b'g'
      then ok (record s { gdb_port = atoi optarg % 2 ^ 16 })
      else if opt == b'i'
      then ok (record s { irq_port = atoi optarg % 2 ^ 16 })
      else if opt == b'h'
      then exited
      else if opt == b't'
      then if opens optarg then ok (record s { trace_file = some optarg }) else exited
      else if opt == b'r'
      then ok (record s { trace = trace_add registers_flag s.trace })
      else if opt == b'm'
      then ok (record s { trace = trace_add memory_flag s.trace })
      else if opt == b's'
      then ok (record s { trace = trace_add state_flag s.trace })
      else if opt == b'p'
      then ok (record s { trace = trace_add position_flag s.trace })
      else if opt == b'd'
      then (add_debug_to s.debugged optarg >>= λ d. ok (record s { debugged = d }))
      else exited

  unfoldable pub set_options : Settings → List (ℕ × List ℕ) → Outcome Settings
  set_options s [] = ok s
  set_options s (o ∷ os) = set_option s o.0 o.1 >>= λ s'. set_options s' os

-- No file is debugged at first; the array of names is a global, with NULL for each.
abbrev pub first_settings : Settings
first_settings = record {
  gdb_port = 0;
  irq_port = 0;
  trace_file = none;
  trace = first_trace;
  debugged = record { debugged_files = λ _. []; nb_debugged_files = 0 };
}

-- The processor that `main` creates. The contents of the two blocks and of `cycle_count` are what
-- `malloc` gives; `big` stands for BIG_ENDIAN_SIMULATOR.
unfoldable pub started : Bool → (ℕ → ℕ) → (ℕ → ℕ) → ℕ → Core
started big content registers cycle_count =
    arm_create cycle_count (registers_create registers) (memory_create content 0x2_0000 big)

-- The loop of `irq_listener` over the bytes of a connection.
unfoldable pub irq_listener : Core → List ℕ → Core
irq_listener arm [] = arm
irq_listener arm (irq ∷ irqs) = irq_listener (arm_exception arm irq) irqs
