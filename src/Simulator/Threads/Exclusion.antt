-- ===== src/Simulator/Threads/Exclusion.antt =====
-- The lock keeps the threads apart, and what they do together is a sequence of whole requests and whole
-- exceptions.
use projet_prog.Base.{◌≡◌, refl, sym, ap, Bool, true, false, ◌&&◌, ◌||◌, subst}
use projet_prog.Word.{Host}
use projet_prog.Constants.{reset}
use projet_prog.Core.{Core, arm_exception, arm_write_cpsr, arm_write_usr_register}
use projet_prog.Gdb.{Gdb, gdb_send_ack, gdb_require_retransmission}
use projet_prog.Gdb.Safety.{Serves, raise}
use projet_prog.Simulator.Threads.{
  GdbThread, waiting, requested, serving, served, IrqThread, listening, raising, status_written,
  raised, System, server, GdbMove, IrqMove, Step, Reach,
}
use projet_prog.Simulator.Threads.Held.{
  Held, Acknowledged, unsupported-Served, wrong_sum-Served, handle-Served,
}

abbrev pub inside_gdb : GdbThread → Bool
inside_gdb waiting = false
inside_gdb (requested r) = false
inside_gdb (serving r p) = true
inside_gdb served = true

abbrev pub inside_irq : IrqThread → Bool
inside_irq listening = false
inside_irq (raising irq) = true
inside_irq status_written = true
inside_irq raised = true

module _ (host : Host) (big : Bool) (first : Gdb) where
  -- Between the two writes of a reset the processor before it counts.
  abbrev Whole : Gdb → GdbThread → IrqThread → Core → Type 0
  Whole gdb t status_written p =
      (q : Core) × (p ≡ arm_write_cpsr q 0x1d3) × Held host big first gdb t q
  Whole gdb t listening p = Held host big first gdb t p
  Whole gdb t (raising irq) p = Held host big first gdb t p
  Whole gdb t raised p = Held host big first gdb t p

  record Inv (p : Core) (locked : Bool) (gdb : Gdb) (t : GdbThread) (i : IrqThread) : Type 0 where
    apart : (inside_gdb t && inside_irq i) ≡ false
    held : locked ≡ (inside_gdb t || inside_irq i)
    whole : Whole gdb t i p

  -- A change of the first thread that goes with any processor goes with what counts.
  Whole-map :
      (gdb gdb' : Gdb) (t t' : GdbThread) (i : IrqThread) (p : Core)
      → ((q : Core) → Held host big first gdb t q → Held host big first gdb' t' q)
      → Whole gdb t i p
      → Whole gdb' t' i p
  Whole-map gdb gdb' t t' listening p f w = f p w
  Whole-map gdb gdb' t t' (raising irq) p f w = f p w
  Whole-map gdb gdb' t t' status_written p f w = (w.0, w.1, f w.0 w.2)
  Whole-map gdb gdb' t t' raised p f w = f p w

  GdbMove-Inv :
      {p p' : Core} {b b' : Bool} {gdb gdb' : Gdb} {t t' : GdbThread} (i : IrqThread)
      → GdbMove host big p b gdb t p' b' gdb' t'
      → Inv p b gdb t i
      → Inv p' b' gdb' t' i
  GdbMove-Inv i (GdbMove.wrong_sum {p} {locked} {gdb} r u c) inv = record {
    apart = refl;
    held = inv.held;
    whole =
        Whole-map gdb (gdb_require_retransmission gdb) waiting waiting i p
          (λ q s. wrong_sum-Served host big first r gdb q u c s) inv.whole;
  }
  GdbMove-Inv i (GdbMove.unsupported {p} {locked} {gdb} {gdb'} r u c n e) inv = record {
    apart = refl;
    held = inv.held;
    whole =
        Whole-map gdb gdb' waiting waiting i p
          (λ q s. unsupported-Served host big first r gdb gdb' q u c n e s) inv.whole;
  }
  GdbMove-Inv i (GdbMove.request {p} {locked} {gdb} r u c n) inv = record {
    apart = refl;
    held = inv.held;
    whole =
        Whole-map gdb (gdb_send_ack gdb) waiting (requested r) i p (λ q s. (gdb, refl, s, u, c))
          inv.whole;
  }
  GdbMove-Inv listening (GdbMove.gdb_lock r) inv = record {
    apart = refl;
    held = refl;
    whole = (refl, inv.whole);
  }
  GdbMove-Inv (raising irq) (GdbMove.gdb_lock r) inv = absurd (let h = inv.held in cc)
  GdbMove-Inv status_written (GdbMove.gdb_lock r) inv = absurd (let h = inv.held in cc)
  GdbMove-Inv raised (GdbMove.gdb_lock r) inv = absurd (let h = inv.held in cc)
  GdbMove-Inv listening (GdbMove.handle {p} {q} {locked} {gdb} {gdb'} r n e) inv = record {
    apart = refl;
    held = inv.held;
    whole =
        handle-Served host big first r gdb gdb' q n e
          (subst (Acknowledged host big first r gdb) (sym inv.whole.0) inv.whole.1);
  }
  GdbMove-Inv (raising irq) (GdbMove.handle r n e) inv = absurd (let h = inv.apart in cc)
  GdbMove-Inv status_written (GdbMove.handle r n e) inv = absurd (let h = inv.apart in cc)
  GdbMove-Inv raised (GdbMove.handle r n e) inv = absurd (let h = inv.apart in cc)
  GdbMove-Inv listening GdbMove.gdb_unlock inv = record {
    apart = refl;
    held = refl;
    whole = inv.whole;
  }
  GdbMove-Inv (raising irq) GdbMove.gdb_unlock inv = absurd (let h = inv.apart in cc)
  GdbMove-Inv status_written GdbMove.gdb_unlock inv = absurd (let h = inv.apart in cc)
  GdbMove-Inv raised GdbMove.gdb_unlock inv = absurd (let h = inv.apart in cc)

  -- A whole exception while the server is out of its handlers.
  reset-Held :
      (gdb : Gdb) (t : GdbThread) (q : Core)
      → inside_gdb t ≡ false
      → Held host big first gdb t q
      → Held host big first gdb t (arm_exception q reset)
  reset-Held gdb waiting q o h = raise reset h
  reset-Held gdb (requested r) q o (g, a, s, u, c) = (g, a, raise reset s, u, c)
  reset-Held gdb (serving r p) q o h = absurd (cc)
  reset-Held gdb served q o h = absurd (cc)

  out : (t : GdbThread) → (inside_gdb t && true) ≡ false → inside_gdb t ≡ false
  out waiting h = refl
  out (requested r) h = refl
  out (serving r p) h = absurd (cc)
  out served h = absurd (cc)

  out_of_held : (t : GdbThread) → false ≡ (inside_gdb t || false) → inside_gdb t ≡ false
  out_of_held waiting h = refl
  out_of_held (requested r) h = refl
  out_of_held (serving r p) h = absurd (cc)
  out_of_held served h = absurd (cc)

  IrqMove-Inv :
      {p p' : Core} {b b' : Bool} (gdb : Gdb) (t : GdbThread) {i i' : IrqThread}
      → IrqMove p b i p' b' i'
      → Inv p b gdb t i
      → Inv p' b' gdb t i'
  unfolding arm_exception
  IrqMove-Inv gdb t (IrqMove.irq_lock irq) inv =
      let o = out_of_held t inv.held in
      record { apart = rw o refl; held = rw o refl; whole = inv.whole }
  IrqMove-Inv gdb t (IrqMove.ignore n) inv = record {
    apart = inv.apart;
    held = inv.held;
    whole = inv.whole;
  }
  IrqMove-Inv gdb t (IrqMove.write_status {p} e) inv = record {
    apart = inv.apart;
    held = inv.held;
    whole = (p, refl, inv.whole);
  }
  IrqMove-Inv gdb t IrqMove.write_counter inv = record {
    apart = inv.apart;
    held = inv.held;
    whole =
        subst (Held host big first gdb t)
          (ap (λ (x : Core). arm_write_usr_register x 15 0) (sym inv.whole.1))
          (reset-Held gdb t inv.whole.0 (out t inv.apart) inv.whole.2);
  }
  IrqMove-Inv gdb t IrqMove.irq_unlock inv =
      let o = out t inv.apart in record { apart = rw o refl; held = rw o refl; whole = inv.whole }

  Reach-Inv :
      {s : System} → Reach host big first s → Inv s.arm s.locked s.gdb s.gdb_thread s.irq_thread
  Reach-Inv Reach.start = record { apart = refl; held = refl; whole = Serves.start }
  Reach-Inv (Reach.later {s} r (Step.by_gdb m)) = GdbMove-Inv s.irq_thread m (Reach-Inv r)
  Reach-Inv (Reach.later {s} r (Step.by_irq m)) = IrqMove-Inv s.gdb s.gdb_thread m (Reach-Inv r)

-- However the moves of the two threads follow each other, they are never both between the lock and its
-- release, the lock is taken exactly when one of them is, and when neither is and no acknowledged
-- request waits, the server and the processor are as after a sequence of whole packets and whole
-- exceptions.
pub Reach-Serves :
    (host : Host) (big : Bool) (first : Gdb) (s : System)
    → Reach host big first s
    → ((inside_gdb s.gdb_thread && inside_irq s.irq_thread) ≡ false)
      × (s.locked ≡ (inside_gdb s.gdb_thread || inside_irq s.irq_thread))
      × (s.gdb_thread ≡ waiting → s.irq_thread ≡ listening → Serves host big first (server s))
Reach-Serves host big first s r =
    let inv = Reach-Inv host big first r in
    (inv.apart, inv.held, λ t i. quiet s.gdb_thread s.irq_thread t i inv.whole)
  where
    quiet :
        (t : GdbThread) (i : IrqThread)
        → t ≡ waiting
        → i ≡ listening
        → Whole host big first s.gdb t i s.arm
        → Serves host big first (server s)
    quiet waiting listening e f w = w
    quiet waiting (raising irq) e f w = absurd (cc)
    quiet waiting status_written e f w = absurd (cc)
    quiet waiting raised e f w = absurd (cc)
    quiet (requested r) i e f w = absurd (cc)
    quiet (serving r p) i e f w = absurd (cc)
    quiet served i e f w = absurd (cc)
