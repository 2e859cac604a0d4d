-- ===== src/Constants.antt =====
-- arm_constants.h: the modes, the exceptions, the flags and the places of the banked registers, and
-- the bit numbers of arm_load_store.h.
use projet_prog.Base.{ℕ}

abbrev pub usr : ℕ
usr = 0x10

abbrev pub fiq : ℕ
fiq = 0x11

abbrev pub irq : ℕ
irq = 0x12

abbrev pub svc : ℕ
svc = 0x13

abbrev pub abt : ℕ
abt = 0x17

abbrev pub und : ℕ
und = 0x1b

abbrev pub sys : ℕ
sys = 0x1f

abbrev pub reset : ℕ
reset = 1

abbrev pub undefined_instruction : ℕ
undefined_instruction = 2

abbrev pub software_interrupt : ℕ
software_interrupt = 3

abbrev pub prefetch_abort : ℕ
prefetch_abort = 4

abbrev pub data_abort : ℕ
data_abort = 5

-- The flags of the CPSR, by bit number.
abbrev pub n_flag : ℕ
n_flag = 31

abbrev pub z_flag : ℕ
z_flag = 30

abbrev pub c_flag : ℕ
c_flag = 29

abbrev pub v_flag : ℕ
v_flag = 28

abbrev pub r13_svc : ℕ
r13_svc = 17

abbrev pub r14_svc : ℕ
r14_svc = 18

abbrev pub spsr_svc : ℕ
spsr_svc = 19

abbrev pub r13_abt : ℕ
r13_abt = 20

abbrev pub r14_abt : ℕ
r14_abt = 21

abbrev pub spsr_abt : ℕ
spsr_abt = 22

abbrev pub r13_und : ℕ
r13_und = 23

abbrev pub r14_und : ℕ
r14_und = 24

abbrev pub spsr_und : ℕ
spsr_und = 25

abbrev pub r13_irq : ℕ
r13_irq = 26

abbrev pub r14_irq : ℕ
r14_irq = 27

abbrev pub spsr_irq : ℕ
spsr_irq = 28

abbrev pub r8_fiq : ℕ
r8_fiq = 29

abbrev pub r9_fiq : ℕ
r9_fiq = 20

abbrev pub r10_fiq : ℕ
r10_fiq = 31

abbrev pub r11_fiq : ℕ
r11_fiq = 32

abbrev pub r12_fiq : ℕ
r12_fiq = 33

abbrev pub r13_fiq : ℕ
r13_fiq = 34

abbrev pub r14_fiq : ℕ
r14_fiq = 35

abbrev pub spsr_fiq : ℕ
spsr_fiq = 36

abbrev pub lr : ℕ
lr = 14

abbrev pub pc : ℕ
pc = 15

abbrev pub cpsr : ℕ
cpsr = 16

-- `I`, `P`, `U`, `B`, `W`, `L` and `H` of a load or store.
abbrev pub i_bit : ℕ
i_bit = 25

abbrev pub p_bit : ℕ
p_bit = 24

abbrev pub u_bit : ℕ
u_bit = 23

abbrev pub b_bit : ℕ
b_bit = 22

abbrev pub w_bit : ℕ
w_bit = 21

abbrev pub l_bit : ℕ
l_bit = 20

abbrev pub h_bit : ℕ
h_bit = 5
