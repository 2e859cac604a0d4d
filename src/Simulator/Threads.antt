-- ===== src/Simulator/Threads.antt =====
-- The two threads of arm_simulator.c on one processor: `gdb_listener` in gdb_packet_analysis of
-- gdb_protocol.c, and `irq_listener`. A thread takes the lock, works on the processor in steps of its
-- own, and gives the lock back.
pub mod Held
pub mod Exclusion
pub mod Release
use projet_prog.Base.{
  ℕ, ◌≡◌, ◌≢◌, Bool, true, false, List, [], ◌∷◌, Option, none, some, Outcome, ok,
}
use projet_prog.Word.{Host}
use projet_prog.Constants.{reset}
use projet_prog.Core.{Core, arm_write_cpsr, arm_write_usr_register}
use projet_prog.LoadStore.{Unset}
use projet_prog.LoadStore.Valid.{UnsetWords}
use projet_prog.Gdb.{
  Gdb, gdb_send_ack, gdb_send_data, gdb_require_retransmission, payload, checksum_ok,
}
use projet_prog.Gdb.Requests.{Locals, gdb_init}

-- A packet, and what the variables that its handler does not set hold.
pub record Request : Type 0 where
  pub unset : ℕ → Unset
  pub rounds : ℕ
  pub locals : Locals
  pub text : List ℕ

-- The handler of a request on the server's data, if the table has one.
abbrev applied : List ℕ → Option (Gdb → List ℕ → Outcome Gdb) → Option (Gdb → Outcome Gdb)
applied data' none = none
applied data' (some h) = some (λ gdb. h gdb data')

unfoldable pub find_handler :
    (ℕ → Option (Gdb → List ℕ → Outcome Gdb)) → List ℕ → Option (Gdb → Outcome Gdb)
find_handler handler [] = none
find_handler handler (index ∷ data') = applied data' (handler index)

-- Where the thread that serves GDB stands: before the lock with a request, in the handler (with the
-- processor as it was when the handler began), after it, or elsewhere.
pub data GdbThread : Type 0 where
  waiting : GdbThread
  requested : Request → GdbThread
  serving : Request → Core → GdbThread
  served : GdbThread

-- Where the thread that listens to interrupts stands: in `arm_exception`, between its two writes, after
-- it, or elsewhere.
pub data IrqThread : Type 0 where
  listening : IrqThread
  raising : ℕ → IrqThread
  status_written : IrqThread
  raised : IrqThread

-- `shared_data`, and the data of the first thread, whose `arm` stands for the shared one.
pub record System : Type 0 where
  pub arm : Core
  pub locked : Bool
  pub gdb : Gdb
  pub gdb_thread : GdbThread
  pub irq_thread : IrqThread

-- The server's data with the shared processor.
abbrev pub server : System → Gdb
server s = record s.gdb { arm = s.arm }

-- A move of the second thread on the processor, the lock and its place.
pub data IrqMove : Core → Bool → IrqThread → Core → Bool → IrqThread → Type 0 where
  irq_lock : {p : Core} (irq : ℕ) → IrqMove p false listening p true (raising irq)
  ignore :
      {p : Core} {locked : Bool} {irq : ℕ}
      → irq ≢ reset
      → IrqMove p locked (raising irq) p locked raised
  write_status :
      {p : Core} {locked : Bool} {irq : ℕ}
      → irq ≡ reset
      → IrqMove p locked (raising irq) (arm_write_cpsr p 0x1d3) locked status_written
  write_counter :
      {p : Core} {locked : Bool}
      → IrqMove p locked status_written (arm_write_usr_register p 15 0) locked raised
  irq_unlock : {p : Core} {locked : Bool} → IrqMove p locked raised p false listening

module _ (host : Host) (big : Bool) where
  abbrev pub handler_of : Request → Option (Gdb → Outcome Gdb)
  handler_of r = find_handler (gdb_init host big r.unset r.rounds r.locals) (payload r.text)

  -- A move of the first thread on the processor, the lock, its data and its place. A handler writes
  -- the processor that it makes of the one it began with.
  pub data GdbMove : Core → Bool → Gdb → GdbThread → Core → Bool → Gdb → GdbThread → Type 0 where
    wrong_sum :
        {p : Core} {locked : Bool} {gdb : Gdb} (r : Request)
        → ((n : ℕ) → UnsetWords (r.unset n))
        → checksum_ok r.text ≡ false
        → GdbMove p locked gdb waiting p locked (gdb_require_retransmission gdb) waiting
    unsupported :
        {p : Core} {locked : Bool} {gdb gdb' : Gdb} (r : Request)
        → ((n : ℕ) → UnsetWords (r.unset n))
        → checksum_ok r.text ≡ true
        → handler_of r ≡ none
        → gdb_send_data (gdb_send_ack gdb) [] ≡ ok gdb'
        → GdbMove p locked gdb waiting p locked gdb' waiting
    request :
        {p : Core} {locked : Bool} {gdb : Gdb} {h : Gdb → Outcome Gdb} (r : Request)
        → ((n : ℕ) → UnsetWords (r.unset n))
        → checksum_ok r.text ≡ true
        → handler_of r ≡ some h
        → GdbMove p locked gdb waiting p locked (gdb_send_ack gdb) (requested r)
    gdb_lock :
        {p : Core} {gdb : Gdb} (r : Request)
        → GdbMove p false gdb (requested r) p true gdb (serving r p)
    handle :
        {p q : Core} {locked : Bool} {gdb gdb' : Gdb} {h : Gdb → Outcome Gdb} (r : Request)
        → handler_of r ≡ some h
        → h (record gdb { arm = q }) ≡ ok gdb'
        → GdbMove p locked gdb (serving r q) gdb'.arm locked gdb' served
    gdb_unlock :
        {p : Core} {locked : Bool} {gdb : Gdb} → GdbMove p locked gdb served p false gdb waiting

  pub data Step (s : System) : System → Type 0 where
    by_gdb :
        {p : Core} {locked : Bool} {gdb : Gdb} {t : GdbThread}
        → GdbMove s.arm s.locked s.gdb s.gdb_thread p locked gdb t
        → Step s (record s { arm = p; locked = locked; gdb = gdb; gdb_thread = t })
    by_irq :
        {p : Core} {locked : Bool} {t : IrqThread}
        → IrqMove s.arm s.locked s.irq_thread p locked t
        → Step s (record s { arm = p; locked = locked; irq_thread = t })

  -- The lock is free at the start, and no thread is at work.
  abbrev pub created : Gdb → System
  created gdb = record {
    arm = gdb.arm;
    locked = false;
    gdb = gdb;
    gdb_thread = waiting;
    irq_thread = listening;
  }

  pub data Reach (gdb : Gdb) : System → Type 0 where
    start : Reach gdb (created gdb)
    later : {s t : System} → Reach gdb s → Step s t → Reach gdb t
