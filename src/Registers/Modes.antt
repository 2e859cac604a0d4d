-- ===== src/Registers/Modes.antt =====
-- The registers of one mode and what is done in another, and the changes of the mode.
use projet_prog.Base.{
  ℕ, ◌+◌, ◌-◌, ◌≤◌, ◌≡◌, ◌≢◌, refl, sym, ap, ◌∙◌, arith, Bool, true, false, leb, if◌then◌else◌,
  ==_ne, Option, none, some,
}
use projet_prog.Constants.{fiq, abt}
use projet_prog.Util.{get_bits}
use projet_prog.Registers.{Registers, get_mode, read_register, write_register, write_cpsr}
use projet_prog.Registers.Bank.{
  place, own_places, at_place, store_place, is_lost, read_register-place, write_register-place,
}
use projet_prog.Registers.Frame.{place-ne_cpsr}

-- The offset of r13, r14 and the SPSR among the places of a mode.
own_offset : ℕ → ℕ
own_offset reg = if leb reg 14 then reg - 13 else 2

own_offset-le : (reg : ℕ) → own_offset reg ≤ 2
unfolding own_offset
own_offset-le reg = ground arith

own_offset-injective :
    (reg reg' : ℕ)
    → 13 ≤ reg
    → 13 ≤ reg'
    → reg ≤ 17
    → reg' ≤ 17
    → reg ≢ 15
    → reg ≢ 16
    → reg' ≢ 15
    → reg' ≢ 16
    → own_offset reg ≡ own_offset reg'
    → reg ≡ reg'
unfolding own_offset
own_offset-injective reg reg' p p' q q' a ne c ne' e = ground arith

place-offset :
    (mode reg : ℕ) {b i : ℕ}
    → own_places mode ≡ some b
    → 13 ≤ reg
    → reg ≢ 15
    → reg ≢ 16
    → place mode reg ≡ some i
    → (i ≡ b + own_offset reg) × (reg ≤ 17)
unfolding place own_offset
place-offset mode reg h p a ne e = ground arith

own_places-apart :
    (mode mode' : ℕ) {b b' : ℕ}
    → own_places mode ≡ some b
    → own_places mode' ≡ some b'
    → b ≤ b' + 2
    → b' ≤ b + 2
    → (mode ≡ mode') × (b ≡ b')
own_places-apart mode mode' h h' p q = ground arith

-- The r13, r14 and SPSR of two modes with places of their own are kept apart.
pub place-own :
    (mode mode' reg reg' : ℕ) {b b' i : ℕ}
    → own_places mode ≡ some b
    → own_places mode' ≡ some b'
    → 13 ≤ reg
    → 13 ≤ reg'
    → reg ≢ 15
    → reg ≢ 16
    → reg' ≢ 15
    → reg' ≢ 16
    → place mode reg ≡ some i
    → place mode' reg' ≡ some i
    → (mode ≡ mode') × (reg ≡ reg')
place-own mode mode' reg reg' {b} {b'} h h' p p' a ne c ne' e e' =
    let o = place-offset mode reg h p a ne e in
    let o' = place-offset mode' reg' h' p' c ne' e' in
    let same =
      own_places-apart mode mode' h h' (omega (arith, o, o', own_offset-le reg'))
        (omega (arith, o, o', own_offset-le reg)) in
    (same.0, own_offset-injective reg reg' p p' o.1 o'.1 a ne c ne' (omega (arith, o, o', same)))

at_place-write_other :
    (r : Registers) (reg reg' value mode' : ℕ) {b b' : ℕ}
    → own_places (get_mode r) ≡ some b
    → own_places mode' ≡ some b'
    → get_mode r ≢ mode'
    → 13 ≤ reg
    → 13 ≤ reg'
    → reg ≢ 15
    → reg ≢ 16
    → reg' ≢ 15
    → reg' ≢ 16
    → at_place (write_register r reg value) (place mode' reg') ≡ at_place r (place mode' reg')
at_place-write_other r reg reg' value mode' h h' diff p p' a ne c ne' =
    rw (write_register-place r reg value)
      (apart (is_lost (get_mode r) reg) (place (get_mode r) reg) (place mode' reg') refl refl)
  where
    apart :
        (lost : Bool) (o o' : Option ℕ)
        → place (get_mode r) reg ≡ o
        → place mode' reg' ≡ o'
        → at_place (if lost then r else store_place r o value) o' ≡ at_place r o'
    apart true o o' e e' = refl
    apart false none o' e e' = refl
    apart false (some i) none e e' = refl
    apart false (some i) (some j) e e' = rw (
        ==_ne i j (λ q.
          diff
            (place-own (get_mode r) mode' reg reg' h h' p p' a ne c ne' e
              (e' ∙ ap some (sym q))).0))

at_place-write_cpsr :
    (r : Registers) (status mode' reg' : ℕ)
    → reg' ≢ 16
    → at_place (write_cpsr r status) (place mode' reg') ≡ at_place r (place mode' reg')
unfolding write_cpsr
at_place-write_cpsr r status mode' reg' ne = go (place mode' reg') refl
  where
    go : (o : Option ℕ) → place mode' reg' ≡ o → at_place (write_cpsr r status) o ≡ at_place r o
    go none e = refl
    go (some i) e = rw (==_ne 16 i (λ q. place-ne_cpsr mode' reg' ne e (sym q)))

-- A write of the CPSR that keeps the mode leaves every other register as it was.
pub read-write_cpsr_ne :
    (r : Registers) (status reg : ℕ)
    → get_bits status 4 0 ≡ get_mode r
    → reg ≢ 16
    → read_register (write_cpsr r status) reg ≡ read_register r reg
unfolding write_cpsr
read-write_cpsr_ne r status reg e ne =
    read_register-place (write_cpsr r status) reg
    ∙ at_place-write_cpsr r status (get_bits status 4 0) reg ne
    ∙ ap (λ m. at_place r (place m reg)) e
    ∙ sym (read_register-place r reg)

-- A write of r13, r14 or the SPSR in a mode that has its own leaves those of every other such mode,
-- read after a change to that mode, as they were.
pub read-write_other_mode :
    (r : Registers) (reg reg' value status : ℕ) {b b' : ℕ}
    → own_places (get_mode r) ≡ some b
    → own_places (get_bits status 4 0) ≡ some b'
    → get_mode r ≢ get_bits status 4 0
    → 13 ≤ reg
    → 13 ≤ reg'
    → reg ≢ 15
    → reg ≢ 16
    → reg' ≢ 15
    → reg' ≢ 16
    → read_register (write_cpsr (write_register r reg value) status) reg'
      ≡ read_register (write_cpsr r status) reg'
unfolding write_cpsr
read-write_other_mode r reg reg' value status h h' diff p p' a ne c ne' =
    read_register-place (write_cpsr (write_register r reg value) status) reg'
    ∙ after (write_register r reg value)
    ∙ at_place-write_other r reg reg' value (get_bits status 4 0) h h' diff p p' a ne c ne'
    ∙ sym (after r)
    ∙ sym (read_register-place (write_cpsr r status) reg')
  where
    after :
        (q : Registers)
        → at_place (write_cpsr q status) (place (get_mode (write_cpsr q status)) reg')
          ≡ at_place q (place (get_bits status 4 0) reg')
    after q = at_place-write_cpsr q status (get_bits status 4 0) reg' ne'

-- r9 of the FIQ mode is kept where r13 of the abort mode is: what the one is given the other reads.
pub write_abt_r13-read_fiq_r9 :
    (r : Registers) (value status : ℕ)
    → get_mode r ≡ abt
    → get_bits status 4 0 ≡ fiq
    → read_register (write_cpsr (write_register r 13 value) status) 9 ≡ value
unfolding write_cpsr place
write_abt_r13-read_fiq_r9 r value status m f =
    rw
      (
        read_register-place (write_cpsr (write_register r 13 value) status) 9,
        write_register-place r 13 value,
        m,
        f,
      )
      refl
