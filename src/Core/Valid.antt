-- ===== src/Core/Valid.antt =====
-- A processor whose registers hold words and whose memory holds bytes, and the accesses to it.
use projet_prog.Base.{
  ℕ, ◌%◌, ◌^◌, arith, Bool, if◌then◌else◌, ◌==◌, Outcome, ok, Ensures, Ensures->>=,
}
use projet_prog.Bits.{bit_and-lt}
use projet_prog.Word.{Host, IsWord, add32, sub32}
use projet_prog.Constants.{reset}
use projet_prog.Registers.{
  Registers, read_register, read_cpsr, write_register, write_cpsr, write_usr_register, write_spsr,
}
use projet_prog.Registers.Words.{
  HoldsWords, write_register-HoldsWords, write_cpsr-HoldsWords, write_spsr-HoldsWords,
  write_usr_register-HoldsWords, read_register-IsWord,
}
use projet_prog.Memory.{Memory, Read, Written, memory_write_byte, memory_write, memory_read}
use projet_prog.Memory.Bytes.{
  HoldsBytes, Gives, memory_write_byte-HoldsBytes, memory_write-HoldsBytes, memory_read-lt,
}
use projet_prog.Core.{
  Core, Fetched, Stepped, pc_adjust, arm_read_register, arm_read_cpsr, arm_write_register,
  arm_write_cpsr, arm_write_spsr, arm_write_usr_register, arm_exception, arm_create, arm_write_byte,
  arm_write_half, arm_write_word, arm_fetch,
}

-- With a memory of a given size and byte order.
pub record IsValid (size : ℕ) (big : Bool) (p : Core) : Type 0 where
  pub count : IsWord p.cycle_count
  pub words : HoldsWords p.reg
  pub bytes : HoldsBytes size big p.mem

-- The processor that comes with a status is valid.
abbrev pub StepsValid : ℕ → Bool → Outcome Stepped → Type 0
StepsValid size big o = Ensures (λ (s : Stepped). IsValid size big s.core) o

pub pc_adjust-IsWord : (reg value : ℕ) → IsWord value → IsWord (pc_adjust reg value)
unfolding pc_adjust
pc_adjust-IsWord reg value w =
    ground (arith, bit_and-lt 32 (add32 value 4) 0xffff_fffd (omega arith))

-- Where the old content was a word too.
pub Gives-IsWord : (old : ℕ) (r : Read) → Gives 32 old r → IsWord old → IsWord r.value
Gives-IsWord old r g w = ground (arith, g.0, g.1)

module _ (size : ℕ) (big : Bool) where
  pub arm_read_register-IsWord :
      (p : Core) (reg : ℕ) → IsValid size big p → IsWord (arm_read_register p reg)
  unfolding arm_read_register
  arm_read_register-IsWord p reg h =
      pc_adjust-IsWord reg (read_register p.reg reg) (read_register-IsWord p.reg reg h.words)

  pub arm_read_cpsr-IsWord : (p : Core) → IsValid size big p → IsWord (arm_read_cpsr p)
  unfolding read_cpsr
  arm_read_cpsr-IsWord p h = h.words 16

  with_registers :
      (p : Core) (r : Registers)
      → IsValid size big p
      → HoldsWords r
      → IsValid size big (record p { reg = r })
  with_registers p r h w = record { count = h.count; words = w; bytes = h.bytes }

  with_memory :
      (p : Core) (m : Memory)
      → IsValid size big p
      → HoldsBytes size big m
      → IsValid size big (record p { mem = m })
  with_memory p m h b = record { count = h.count; words = h.words; bytes = b }

  pub arm_write_register-IsValid :
      (p : Core) (reg value : ℕ)
      → IsValid size big p
      → IsWord value
      → IsValid size big (arm_write_register p reg value)
  arm_write_register-IsValid p reg value h w =
      with_registers p (write_register p.reg reg value) h
        (write_register-HoldsWords p.reg reg value h.words w)

  pub arm_write_cpsr-IsValid :
      (p : Core) (value : ℕ)
      → IsValid size big p
      → IsWord value
      → IsValid size big (arm_write_cpsr p value)
  arm_write_cpsr-IsValid p value h w =
      with_registers p (write_cpsr p.reg value) h (write_cpsr-HoldsWords p.reg value h.words w)

  pub arm_write_spsr-IsValid :
      (p : Core) (value : ℕ)
      → IsValid size big p
      → IsWord value
      → IsValid size big (arm_write_spsr p value)
  arm_write_spsr-IsValid p value h w =
      with_registers p (write_spsr p.reg value) h (write_spsr-HoldsWords p.reg value h.words w)

  pub arm_exception-IsValid :
      (p : Core) (exception : ℕ) → IsValid size big p → IsValid size big (arm_exception p exception)
  unfolding arm_exception
  arm_exception-IsValid p exception h = choose (exception == reset)
    where
      p1 : Core
      p1 = arm_write_cpsr p 0x1d3

      choose : (b : Bool) → IsValid size big (if b then arm_write_usr_register p1 15 0 else p)
      choose Bool.true =
          with_registers p1 (write_usr_register p1.reg 15 0)
            (arm_write_cpsr-IsValid p 0x1d3 h (omega arith))
            (write_usr_register-HoldsWords p1.reg 15 0
              (write_cpsr-HoldsWords p.reg 0x1d3 h.words (omega arith)) (omega arith))
      choose Bool.false = h

  -- `arm_create` on registers of any content.
  pub arm_create-IsValid :
      (cycles : ℕ) (reg : Registers) (mem : Memory)
      → IsWord cycles
      → HoldsWords reg
      → HoldsBytes size big mem
      → IsValid size big (arm_create cycles reg mem)
  unfolding arm_create
  arm_create-IsValid cycles reg mem c w b =
      let h =
        arm_exception-IsValid (record { cycle_count = cycles; reg = reg; mem = mem }) reset
          (record { count = c; words = w; bytes = b }) in
      record { count = omega arith; words = h.words; bytes = h.bytes }

  pub arm_write_byte-IsValid :
      (p : Core) (address value : ℕ)
      → IsValid size big p
      → StepsValid size big (arm_write_byte p address value)
  unfolding arm_write_byte
  arm_write_byte-IsValid p address value h =
      Ensures->>= (λ (w : Written). HoldsBytes size big w.mem)
        (λ (s : Stepped). IsValid size big s.core) (memory_write_byte p.mem address (value % 2 ^ 8))
        (λ w. ok (record { status = w.status; core = record p { mem = w.mem } }))
        (memory_write_byte-HoldsBytes size big p.mem address (value % 2 ^ 8) h.bytes (omega arith))
        (λ w b. with_memory p w.mem h b)

  module _ (host : Host) where
    pub arm_write_half-IsValid :
        (p : Core) (address value : ℕ)
        → IsValid size big p
        → StepsValid size big (arm_write_half host p address value)
    unfolding arm_write_half
    arm_write_half-IsValid p address value h =
        Ensures->>= (λ (w : Written). HoldsBytes size big w.mem)
          (λ (s : Stepped). IsValid size big s.core)
          (memory_write host 2 p.mem address (value % 2 ^ 16))
          (λ w. ok (record { status = w.status; core = record p { mem = w.mem } }))
          (memory_write-HoldsBytes size big host p.mem 2 address (value % 2 ^ 16) h.bytes)
          (λ w b. with_memory p w.mem h b)

    pub arm_write_word-IsValid :
        (p : Core) (address value : ℕ)
        → IsValid size big p
        → StepsValid size big (arm_write_word host p address value)
    unfolding arm_write_word
    arm_write_word-IsValid p address value h =
        Ensures->>= (λ (w : Written). HoldsBytes size big w.mem)
          (λ (s : Stepped). IsValid size big s.core) (memory_write host 4 p.mem address value)
          (λ w. ok (record { status = w.status; core = record p { mem = w.mem } }))
          (memory_write-HoldsBytes size big host p.mem 4 address value h.bytes)
          (λ w b. with_memory p w.mem h b)

    -- The fetch, with a word in the variable for the instruction before and after.
    pub arm_fetch-IsValid :
        (p : Core) (value : ℕ)
        → IsValid size big p
        → IsWord value
        → Ensures
            (λ (f : Fetched). IsValid size big f.core × IsWord f.value)
            (arm_fetch host p value)
    unfolding arm_fetch arm_read_register
    arm_fetch-IsValid p value h w =
        let address = sub32 (arm_read_register p 15) 4 in
        Ensures->>= (Gives 32 value) (λ (f : Fetched). IsValid size big f.core × IsWord f.value)
          (memory_read host 4 p.mem address value)
          (λ r. ok (record {
            status = r.status;
            value = r.value;
            core =
                arm_write_register (record p { cycle_count = add32 p.cycle_count 1 }) 15
                  (add32 address 4);
          }))
          (memory_read-lt size big host p.mem 4 address value h.bytes)
          (λ r g. (
            arm_write_register-IsValid (record p { cycle_count = add32 p.cycle_count 1 }) 15
                (add32 address 4) (record { count = omega arith; words = h.words; bytes = h.bytes })
                (omega arith),
            Gives-IsWord value r g w,
          ))
