-- ===== src/Simulator/Safety.antt =====
-- The whole program: the start, the exceptions from outside, and a connection of GDB.
use projet_prog.Base.{ℕ, ◌^◌, ◌<◌, refl, Bool, List, [], ◌∷◌, Ensures}
use projet_prog.Word.{Host, IsWord}
use projet_prog.Registers.{registers_create}
use projet_prog.Memory.{memory_create}
use projet_prog.Core.{Core, arm_exception}
use projet_prog.Core.Valid.{IsValid, arm_exception-IsValid, arm_create-IsValid}
use projet_prog.LoadStore.{Unset}
use projet_prog.LoadStore.Valid.{UnsetWords}
use projet_prog.Gdb.Requests.{Locals}
use projet_prog.Scanner.{ParserData, gdb_scanner}
use projet_prog.Scanner.Safety.{table, gdb_scanner-IsValid}
use projet_prog.Simulator.{started, irq_listener}

irq_listener-IsValid :
    (size : ℕ) (order : Bool) (arm : Core) (irqs : List ℕ)
    → IsValid size order arm
    → IsValid size order (irq_listener arm irqs)
unfolding irq_listener
irq_listener-IsValid size order arm [] h = h
irq_listener-IsValid size order arm (irq ∷ irqs) h =
    irq_listener-IsValid size order (arm_exception arm irq) irqs
      (arm_exception-IsValid size order arm irq h)

started-IsValid :
    (big : Bool) (content registers : ℕ → ℕ) (cycles : ℕ)
    → ((i : ℕ) → content i < 2 ^ 8)
    → ((i : ℕ) → IsWord (registers i))
    → IsWord cycles
    → IsValid 0x2_0000 big (started big content registers cycles)
unfolding started memory_create registers_create
started-IsValid big content registers cycles b w c =
    arm_create-IsValid 0x2_0000 big cycles (registers_create registers)
      (memory_create content 0x2_0000 big) c w
      (record { bytes = b; same_size = refl; same_order = refl })

-- From the start, whatever the fresh blocks hold, after any bytes from a connection for exceptions
-- and then any stream from GDB, if the server comes to the end of it, the registers hold words and
-- the memory holds 0x20000 bytes in the byte order of the build.
pub gdb_scanner-started :
    (host : Host) (big : Bool) (unset : ℕ → ℕ → Unset) (rounds : ℕ → ℕ) (locals : ℕ → Locals)
    (content registers : ℕ → ℕ) (cycles : ℕ) (irqs input : List ℕ)
    → ((k n : ℕ) → UnsetWords (unset k n))
    → ((i : ℕ) → content i < 2 ^ 8)
    → ((i : ℕ) → IsWord (registers i))
    → IsWord cycles
    → let arm = irq_listener (started big content registers cycles) irqs in
      Ensures
        (λ (d : ParserData). IsValid 0x2_0000 big d.gdb.arm)
        (gdb_scanner (table host big unset rounds locals) arm input)
gdb_scanner-started host big unset rounds locals content registers cycles irqs input u b w c =
    gdb_scanner-IsValid host big unset u rounds locals 0x2_0000 big _ input (
      irq_listener-IsValid 0x2_0000 big (started big content registers cycles) irqs
        (started-IsValid big content registers cycles b w c))
