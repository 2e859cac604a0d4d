-- ===== src/Tests/Util.antt =====
-- Examples for util.c and the flags.
use mathlib.Core.Bool.{xor}
use projet_prog.Base.{ℕ, ◌≡◌, refl, arith, truthy, true, inl}
use projet_prog.Word.{x86}
use projet_prog.Util.{RegFields, cond_valid, update_flags}
use projet_prog.Util.Shifter.{imm, shifted, do_shift}
use projet_prog.Util.Shifter.Places.{lsl_place, lsr_place, asr_place, ror_place, places}
use projet_prog.Util.Shifter.Refine.{do_shift-imm}
use projet_prog.Util.Conditions.{condition, base_condition, cond_valid-condition}
use projet_prog.Util.Flags.{HasFlags}
use projet_prog.DataProcessing.{alu}
use projet_prog.DataProcessing.Flags.{update_flags-add, update_flags-adc}

do_shift-imm_example :
    (do_shift x86 4 0x8000_0001 0 imm 1 ≡ places lsl_place 4 (shifted 0x8000_0001 1))
    × (do_shift x86 4 0x8000_0001 1 imm 1 ≡ places lsr_place 4 (shifted 0x8000_0001 1))
    × (do_shift x86 4 0x8000_0001 2 imm 1 ≡ places asr_place 4 (shifted 0x8000_0001 1))
    × (do_shift x86 4 0x8000_0001 3 imm 1 ≡ places ror_place 4 (shifted 0x8000_0001 1))
do_shift-imm_example = do_shift-imm x86 0x8000_0001 1 (omega arith) 4 (omega arith) (omega arith)

-- LT with N set and V clear.
cond_valid-condition_example : truthy (cond_valid 11 0x8000_0000) ≡ true
unfolding condition base_condition xor
cond_valid-condition_example = cond_valid-condition 11 0x8000_0000 (omega arith)

-- The fields of an instruction on 0x7fff_ffff and 0x8000_0002.
abbrev fields : ℕ → RegFields
fields opcode = record {
  cond = 14;
  opcode = opcode;
  s = 1;
  rn = 1;
  rd = 2;
  sop = 0x8000_0002;
  rn_val = 0x7fff_ffff;
}

-- ADDS: the sum leaves 32 bits and is 1.
update_flags-add_example :
    HasFlags 0x1d3 (update_flags 0x1d3 (fields 4) (alu 4 0x7fff_ffff 0x8000_0002 0) 0) 0 0 1 0
update_flags-add_example =
    update_flags-add 0x1d3 (fields 4) 0 0 (inl refl) (omega arith) (omega arith)

update_flags-adc_example :
    HasFlags 0x2000_01d3
      (update_flags 0x2000_01d3 (fields 5) (alu 5 0x7fff_ffff 0x8000_0002 1) 0)
      0
      0
      1
      0
update_flags-adc_example =
    update_flags-adc 0x2000_01d3 (fields 5) 0 refl (omega arith) (omega arith) (omega arith)
