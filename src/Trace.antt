-- ===== src/Trace.antt =====
-- trace.c: the accesses that are traced, and the stack of the places in the source they come from.
pub mod Code
pub mod Stack
use projet_prog.Base.{
  ℕ, zero, suc, ◌+◌, ◌-◌, bit_and, bit_or, Bool, true, false, ◌&&◌, if◌then◌else◌, ◌==◌, ltb,
  truthy, List, [], ◌∷◌, ◌++◌, Option, none, some, Outcome, ok, undefined, ◌>>=◌,
}
use projet_prog.Word.{add32}
use projet_prog.Core.{Core}
use projet_prog.Names.{arm_get_mode_name, arm_get_register_name}

-- The flags of trace.h.
abbrev pub memory_flag : ℕ
memory_flag = 1

abbrev pub registers_flag : ℕ
registers_flag = 2

abbrev pub state_flag : ℕ
state_flag = 4

abbrev pub position_flag : ℕ
position_flag = 8

-- An entry of the two stacks.
pub record Location : Type 0 where
  pub file : List ℕ
  pub line : ℕ

-- What one call writes to the output, where ARM_TRACE_FORMAT is not set: the location is printed
-- before it, if there is one. `sequential` is `seq`, which only the other format shows. The
-- type and the cause are 0 or 1, as every call gives them.
pub data Entry : Type 0 where
  memory_entry : Option Location → ℕ → Bool → ℕ → ℕ → ℕ → ℕ → ℕ → Entry
  register_entry : Option Location → ℕ → ℕ → List ℕ → Option (List ℕ) → ℕ → Entry
  state_entry : Core → Entry

abbrev pub max_locations : ℕ
max_locations = 128

-- The static variables. `depth` is `location_stack_top + 1`.
pub record Trace : Type 0 where
  pub output : List Entry
  pub last_address : ℕ
  pub enabled : Bool
  pub location_stack : ℕ → Location
  pub depth : ℕ
  pub trace_flags : ℕ

unfoldable pub trace_start_location : Trace → Location → Outcome Trace
trace_start_location t l =
    if t.enabled
    then if ltb t.depth max_locations
      then ok (record t {
        depth = t.depth + 1;
        location_stack = λ i. if t.depth == i then l else t.location_stack i;
      })
      else undefined
    else ok t

-- An end without a start would leave the top below -1.
unfoldable pub trace_end_location : Trace → Outcome Trace
trace_end_location t =
    if t.enabled
    then if t.depth == 0 then undefined else ok (record t { depth = t.depth - 1 })
    else ok t

-- The location that `trace_print_location` prints.
unfoldable pub printed_location : Trace → Option Location
printed_location t =
    if t.enabled && truthy (bit_and t.trace_flags position_flag)
    then if t.depth == 0 then none else some (t.location_stack (t.depth - 1))
    else none

unfoldable pub trace_memory : Trace → ℕ → ℕ → ℕ → ℕ → ℕ → ℕ → Trace
trace_memory t cycle type size cause address value =
    if t.enabled && truthy (bit_and t.trace_flags memory_flag)
    then record t {
      last_address = address;
      output =
          t.output
          ++ (memory_entry (printed_location t) cycle (address == add32 t.last_address 4) type size
                cause address value
              ∷ []);
    }
    else t

unfoldable pub trace_register : Trace → ℕ → ℕ → ℕ → ℕ → ℕ → Outcome Trace
trace_register t cycle type reg mode value =
    if t.enabled && truthy (bit_and t.trace_flags registers_flag)
    then (arm_get_mode_name mode >>= λ mode_name. arm_get_register_name reg >>= λ name.
        ok (record t {
          output =
              t.output
              ++ (register_entry (printed_location t) cycle type name mode_name value ∷ []);
        }))
    else ok t

unfoldable pub trace_arm_state : Trace → Core → Trace
trace_arm_state t p =
    if t.enabled && truthy (bit_and t.trace_flags state_flag)
    then record t { output = t.output ++ (state_entry p ∷ []) }
    else t

abbrev pub trace_disable : Trace → Trace
trace_disable t = record t { enabled = false }

abbrev pub trace_enable : Trace → Trace
trace_enable t = record t { enabled = true }

abbrev pub trace_add : ℕ → Trace → Trace
trace_add flags t = record t { trace_flags = bit_or t.trace_flags flags }

-- The static variables at the start. The stack holds NULLs and zeros.
abbrev pub first_trace : Trace
first_trace = record {
  output = [];
  last_address = 0x1234_5678;
  enabled = true;
  location_stack = λ _. record { file = []; line = 0 };
  depth = 0;
  trace_flags = 0;
}
