-- ===== src/Registers.antt =====
-- registers.c: the 37 words of the register file, and the reads and writes that choose among the
-- banked ones by the mode.
pub mod Bank
pub mod Words
pub mod Frame
pub mod Modes
pub mod Copy
use projet_prog.Base.{ℕ, ◌≡◌, Bool, true, false, not, ◌&&◌, ◌||◌, if◌then◌else◌, ◌==◌, leb}
use projet_prog.Util.{get_bits}
use projet_prog.Constants.{
  usr, fiq, irq, svc, abt, und, sys, pc, cpsr, r13_svc, r14_svc, spsr_svc, r13_abt, r14_abt,
  spsr_abt, r13_und, r14_und, spsr_und, r13_irq, r14_irq, spsr_irq, r8_fiq, r9_fiq, r10_fiq,
  r11_fiq, r12_fiq, r13_fiq, r14_fiq, spsr_fiq,
}

-- `struct registers_data`: `reg_number` as a function of the index, which is below 37.
pub record Registers : Type 0 where
  pub reg_number : ℕ → ℕ

-- `registers_create`: the block that `malloc` gives is not cleared, so its content is an argument.
unfoldable pub registers_create : (ℕ → ℕ) → Registers
registers_create content = record { reg_number = content }

-- `r->regNumber[i] = value`
abbrev pub store : Registers → ℕ → ℕ → Registers
store r i value = record { reg_number = λ j. if i == j then value else r.reg_number j }

-- The low five bits of the CPSR.
abbrev pub get_mode : Registers → ℕ
get_mode r = get_bits (r.reg_number cpsr) 4 0

unfoldable pub current_mode_has_spsr : Registers → Bool
current_mode_has_spsr r = not (get_mode r == usr) && not (get_mode r == sys)

unfoldable pub in_a_privileged_mode : Registers → Bool
in_a_privileged_mode r = not (get_mode r == usr)

unfoldable pub read_cpsr : Registers → ℕ
read_cpsr r = r.reg_number cpsr

unfoldable pub read_spsr : Registers → ℕ
read_spsr r =
    let mode = get_mode r in
    if mode == svc
    then r.reg_number spsr_svc
    else if mode == abt
    then r.reg_number spsr_abt
    else if mode == und
    then r.reg_number spsr_und
    else if mode == irq
    then r.reg_number spsr_irq
    else if mode == fiq
    then r.reg_number spsr_fiq
    else 0

-- The three switches of `read_register`.
unfoldable pub read_fiq_bank : Registers → ℕ → ℕ
read_fiq_bank r reg =
    if reg == 8
    then r.reg_number r8_fiq
    else if reg == 9
    then r.reg_number r9_fiq
    else if reg == 10
    then r.reg_number r10_fiq
    else if reg == 11
    then r.reg_number r11_fiq
    else if reg == 12
    then r.reg_number r12_fiq
    else 0

unfoldable pub read_r13 : Registers → ℕ → ℕ
read_r13 r mode =
    if mode == usr || mode == sys
    then r.reg_number 13
    else if mode == svc
    then r.reg_number r13_svc
    else if mode == abt
    then r.reg_number r13_abt
    else if mode == und
    then r.reg_number r13_und
    else if mode == irq
    then r.reg_number r13_irq
    else if mode == fiq
    then r.reg_number r13_fiq
    else 0

unfoldable pub read_r14 : Registers → ℕ → ℕ
read_r14 r mode =
    if mode == usr || mode == sys
    then r.reg_number 14
    else if mode == svc
    then r.reg_number r14_svc
    else if mode == abt
    then r.reg_number r14_abt
    else if mode == und
    then r.reg_number r14_und
    else if mode == irq
    then r.reg_number r14_irq
    else if mode == fiq
    then r.reg_number r14_fiq
    else 0

unfoldable pub read_register : Registers → ℕ → ℕ
read_register r reg =
    let mode = get_mode r in
    if leb reg 7 || (reg == pc || reg == cpsr)
    then r.reg_number reg
    else if leb 8 reg && leb reg 12
    then if mode == fiq then read_fiq_bank r reg else r.reg_number reg
    else if reg == 13
    then read_r13 r mode
    else if reg == 14
    then read_r14 r mode
    else if reg == 17
    then read_spsr r
    else 0

unfoldable pub read_usr_register : Registers → ℕ → ℕ
read_usr_register r reg = if leb reg 16 then r.reg_number reg else 0

unfoldable pub write_cpsr : Registers → ℕ → Registers
write_cpsr r value = store r cpsr value

unfoldable pub write_spsr : Registers → ℕ → Registers
write_spsr r value =
    let mode = get_mode r in
    if mode == svc
    then store r spsr_svc value
    else if mode == abt
    then store r spsr_abt value
    else if mode == und
    then store r spsr_und value
    else if mode == irq
    then store r spsr_irq value
    else if mode == fiq
    then store r spsr_fiq value
    else r

-- The three switches of `write_register`. The first is on the mode, as in the source.
unfoldable pub write_fiq_bank : Registers → ℕ → ℕ → Registers
write_fiq_bank r mode value =
    if mode == 8
    then store r r8_fiq value
    else if mode == 9
    then store r r9_fiq value
    else if mode == 10
    then store r r10_fiq value
    else if mode == 11
    then store r r11_fiq value
    else if mode == 12
    then store r r12_fiq value
    else r

unfoldable pub write_r13 : Registers → ℕ → ℕ → Registers
write_r13 r mode value =
    if mode == usr || mode == sys
    then store r 13 value
    else if mode == svc
    then store r r13_svc value
    else if mode == abt
    then store r r13_abt value
    else if mode == und
    then store r r13_und value
    else if mode == irq
    then store r r13_irq value
    else if mode == fiq
    then store r r13_fiq value
    else r

unfoldable pub write_r14 : Registers → ℕ → ℕ → Registers
write_r14 r mode value =
    if mode == usr || mode == sys
    then store r 14 value
    else if mode == svc
    then store r r14_svc value
    else if mode == abt
    then store r r14_abt value
    else if mode == und
    then store r r14_und value
    else if mode == irq
    then store r r14_irq value
    else if mode == fiq
    then store r r14_fiq value
    else r

unfoldable pub write_register : Registers → ℕ → ℕ → Registers
write_register r reg value =
    let mode = get_mode r in
    if leb reg 7 || (reg == pc || reg == cpsr)
    then store r reg value
    else if leb 8 reg && leb reg 12
    then if mode == fiq then write_fiq_bank r mode value else store r reg value
    else if reg == 13
    then write_r13 r mode value
    else if reg == 14
    then write_r14 r mode value
    else if reg == 17
    then write_spsr r value
    else r

unfoldable pub write_usr_register : Registers → ℕ → ℕ → Registers
write_usr_register r reg value = if leb reg 16 then store r reg value else r
