-- ===== src/Simulator/Threads/Release.antt =====
-- The lock does not stay taken.
use native.Mathlib.Decide.{ℕ_discrete}
use projet_prog.Base.{◌≡◌, refl, Bool, false, ◌||◌, some, Outcome, ok}
use projet_prog.Word.{Host}
use projet_prog.Constants.{reset}
use projet_prog.Core.{Core, arm_write_cpsr, arm_write_usr_register}
use projet_prog.Gdb.{Gdb}
use projet_prog.Simulator.Threads.{
  GdbThread, waiting, requested, serving, served, IrqThread, listening, raising, status_written,
  raised, System, handler_of, GdbMove, IrqMove, Step, Reach,
}
use projet_prog.Simulator.Threads.Exclusion.{inside_gdb, inside_irq, Reach-Serves}

module _ (host : Host) (big : Bool) where
  -- Any number of moves.
  pub data Leads (s : System) : System → Type 0 where
    done : Leads s s
    then_step : {t u : System} → Leads s t → Step host big t u → Leads s u

  -- The request that is being served ends, on the processor that it began with.
  abbrev pub Completes : Gdb → GdbThread → Type 0
  Completes gdb waiting = Unit
  Completes gdb (requested r) = Unit
  Completes gdb (serving r q) =
      (h : Gdb → Outcome Gdb) × (g : Gdb) × (handler_of host big r ≡ some h)
      × (h (record gdb { arm = q }) ≡ ok g)
  Completes gdb served = Unit

  -- What is to be shown of a state.
  abbrev pub Releases : System → Type 0
  Releases s = (t : System) × Leads s t × (t.locked ≡ false)

  abbrev state : Core → Bool → Gdb → GdbThread → IrqThread → System
  state p b gdb t i = record { arm = p; locked = b; gdb = gdb; gdb_thread = t; irq_thread = i }

  after_irq :
      (p : Core) (b : Bool) (gdb : Gdb) (t : GdbThread) (i : IrqThread)
      → b ≡ inside_irq i
      → Releases (state p b gdb t i)
  after_irq p b gdb t listening e = (_, done, e)
  after_irq p b gdb t raised e =
      (state p false gdb t listening, then_step done (Step.by_irq IrqMove.irq_unlock), refl)
  after_irq p b gdb t status_written e = (
    state (arm_write_usr_register p 15 0) false gdb t listening,
    then_step (then_step done (Step.by_irq IrqMove.write_counter)) (Step.by_irq IrqMove.irq_unlock),
    refl,
  )
  after_irq p b gdb t (raising irq) e = elim (ℕ_discrete irq reset) [
    | yes same ↦ (
      state (arm_write_usr_register (arm_write_cpsr p 0x1d3) 15 0) false gdb t listening,
      then_step
          (then_step (then_step done (Step.by_irq (IrqMove.write_status same)))
            (Step.by_irq IrqMove.write_counter))
          (Step.by_irq IrqMove.irq_unlock),
      refl,
    )
    | no other ↦ (
      state p false gdb t listening,
      then_step (then_step done (Step.by_irq (IrqMove.ignore other)))
          (Step.by_irq IrqMove.irq_unlock),
      refl,
    )
  ]

  after_all :
      (p : Core) (b : Bool) (gdb : Gdb) (t : GdbThread) (i : IrqThread)
      → b ≡ (inside_gdb t || inside_irq i)
      → Completes gdb t
      → Releases (state p b gdb t i)
  after_all p b gdb waiting i e c = after_irq p b gdb waiting i e
  after_all p b gdb (requested r) i e c = after_irq p b gdb (requested r) i e
  after_all p b gdb (serving r q) i e (h, g, found, ends) = (
    state g.arm false g waiting i,
    then_step (then_step done (Step.by_gdb (GdbMove.handle r found ends)))
        (Step.by_gdb GdbMove.gdb_unlock),
    refl,
  )
  after_all p b gdb served i e c =
      (state p false gdb waiting i, then_step done (Step.by_gdb GdbMove.gdb_unlock), refl)

-- From every state that the two threads come to, in which a request that is being served ends, some
-- moves lead to a state in which the lock is free.
pub Reach-Releases :
    (host : Host) (big : Bool) (first : Gdb) (s : System)
    → Reach host big first s
    → Completes host big s.gdb s.gdb_thread
    → Releases host big s
Reach-Releases host big first s r c =
    after_all host big s.arm s.locked s.gdb s.gdb_thread s.irq_thread
      (Reach-Serves host big first s r).1 c
