-- ===== src/Tests/Threads.antt =====
-- Examples for the two threads.
use projet_prog.Base.{◌≡◌, refl, arith, true, false, ◌&&◌, ◌||◌, [], ◌∷◌}
use projet_prog.Word.{x86}
use projet_prog.Text.{codes, sum, take, length, drop, scan_hex, digit_value, scan_rest}
use projet_prog.Core.{arm_write_cpsr}
use projet_prog.Gdb.{gdb_send_ack, payload, checksum_ok}
use projet_prog.Gdb.Requests.{set_thread, gdb_init}
use projet_prog.Gdb.Safety.{Serves}
use projet_prog.Simulator.Threads.{
  Request, find_handler, GdbThread, IrqThread, System, server, Reach, GdbMove, IrqMove, Step,
}
use projet_prog.Simulator.Threads.Exclusion.{inside_gdb, inside_irq, Reach-Serves}
use projet_prog.Simulator.Threads.Release.{Releases, Reach-Releases}
use projet_prog.Tests.{gdb_with, core_with, unset_example}

abbrev asked : Request
asked = record {
  unset = λ _. unset_example;
  rounds = 2;
  locals = record {
    value = 1;
    address = 2;
    size = 3;
    reg = 4;
    instruction = 5;
    behind = 0 ∷ [];
    overflow = λ n. n;
  };
  text = codes "$Hc0#db";
}

-- After the first write of a reset that has come in between a request and its lock.
abbrev between : System
between = record {
  arm = arm_write_cpsr (core_with 0) 0x1d3;
  locked = true;
  gdb = gdb_send_ack (gdb_with 0);
  gdb_thread = GdbThread.requested asked;
  irq_thread = IrqThread.status_written;
}

asked-checksum : checksum_ok asked.text ≡ true
unfolding checksum_ok sum payload take length drop scan_hex digit_value scan_rest
asked-checksum = refl

between-Reach : Reach x86 false (gdb_with 0) between
unfolding find_handler payload gdb_init take length drop
between-Reach =
    Reach.later
      (Reach.later
        (Reach.later Reach.start (
          Step.by_gdb (
            GdbMove.request {h = λ gdb. set_thread gdb (codes "c0")} asked
              (λ n. record { ins = omega arith; val = omega arith }) asked-checksum refl)))
        (Step.by_irq (IrqMove.irq_lock 1)))
      (Step.by_irq (IrqMove.write_status refl))

Reach-Serves_example :
    ((inside_gdb between.gdb_thread && inside_irq between.irq_thread) ≡ false)
    × (between.locked ≡ (inside_gdb between.gdb_thread || inside_irq between.irq_thread))
    × (between.gdb_thread ≡ GdbThread.waiting
        → between.irq_thread ≡ IrqThread.listening
        → Serves x86 false (gdb_with 0) (server between))
Reach-Serves_example = Reach-Serves x86 false (gdb_with 0) between between-Reach

Reach-Releases_example : Releases x86 false between
Reach-Releases_example = Reach-Releases x86 false (gdb_with 0) between between-Reach tt
