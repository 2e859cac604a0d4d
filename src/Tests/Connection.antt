-- ===== src/Tests/Connection.antt =====
-- Examples for the scanner, the options, the debugged files and the exceptions from outside.
use projet_prog.Base.{
  ℕ, ◌≡◌, ◌≢◌, ◌↔◌, refl, arith, inl, inr, Bool, true, false, List, [], ◌∷◌, ◌++◌, Option, none,
  Outcome, ok, undefined, ◌>>=◌, EndsWith, EndsOr,
}
use Prim.Native.Nat.{Ordering}
use projet_prog.Word.{x86}
use projet_prog.Text.{codes, length}
use projet_prog.Gdb.{Gdb, framed, gdb_send_ack, run_request}
use projet_prog.Gdb.Requests.{Locals}
use projet_prog.Debug.{Debugged, strcmp, add_debug_to, is_debugged}
use projet_prog.Debug.Table.{Listed, IsTable}
use projet_prog.Debug.Find.{is_debugged-Listed}
use projet_prog.Debug.Insert.{add_debug_to_full}
use projet_prog.Trace.{Trace, first_trace}
use projet_prog.Trace.Code.{Code, stop, access, located, run_code, nesting, logged}
use projet_prog.Trace.Stack.{top, After, run_code-After}
use projet_prog.Scanner.{ParserData, handle_error, yylex}
use projet_prog.Scanner.Stream.{yylex-framed}
use projet_prog.Scanner.Ends.{FailsOn, yylex-EndsOr}
use projet_prog.Scanner.Safety.{table}
use projet_prog.Simulator.{set_options, first_settings, Settings}
use projet_prog.Simulator.Options.{Asked, set_options-is_debugged}
use projet_prog.Tests.{gdb_with, unset_example}

-- A parser after one character that is no packet.
abbrev parser : ParserData
parser = record { gdb = gdb_with 0; buffer = b'x' ∷ [] }

abbrev no_handlers : ℕ → ℕ → Option (Gdb → List ℕ → Outcome Gdb)
no_handlers rounds index = none

yylex-framed_example : yylex no_handlers 3 parser (framed (codes "g") ++ codes "+") ≡ (
    handle_error parser >>= λ d.
    run_request (no_handlers 2) (gdb_send_ack d.gdb) (codes "g") >>= λ g.
    yylex no_handlers 2 (record d { gdb = g }) (codes "+"))
yylex-framed_example =
    yylex-framed no_handlers 2 parser (codes "g") (codes "+") ((omega arith, omega arith), tt)

abbrev locals_example : Locals
locals_example = record {
  value = 1;
  address = 2;
  size = 3;
  reg = 4;
  instruction = 5;
  behind = 0 ∷ [];
  overflow = λ n. n;
}

-- The program's own handlers, with a request that ends the program after one that is answered.
yylex-EndsOr_example :
    EndsOr
      (FailsOn
        (table x86 false (λ _ _. unset_example) (λ _. 4) (λ _. locals_example))
        (codes "$?#3f$p16#d7"))
      (λ (d : ParserData). length d.buffer ≡ 0)
      (yylex
        (table x86 false (λ _ _. unset_example) (λ _. 4) (λ _. locals_example))
        13
        parser
        (codes "$?#3f$p16#d7"))
unfolding length
yylex-EndsOr_example =
    yylex-EndsOr (table x86 false (λ _ _. unset_example) (λ _. 4) (λ _. locals_example)) 13 parser
      (codes "$?#3f$p16#d7") (omega arith) (omega arith)

-- A full table of one name.
abbrev full : Debugged
full = record { debugged_files = λ _. codes "gdb.c"; nb_debugged_files = 64 }

full-IsTable : IsTable full
unfolding strcmp
full-IsTable = record { room = omega arith; sorted = λ i j l l' e. absurd (cc) }

is_debugged-Listed_example :
    (b : Bool) × (is_debugged full (codes "gdb.c") ≡ ok b)
    × ((b ≡ true) ↔ Listed (λ _. codes "gdb.c") 64 (codes "gdb.c"))
is_debugged-Listed_example = is_debugged-Listed full (codes "gdb.c") full-IsTable

add_debug_to_full_example :
    (strcmp (codes "gdb.c") (codes "arm.c") ≡ Ordering.lt
      → add_debug_to full (codes "arm.c") ≡ ok full)
    × (strcmp (codes "gdb.c") (codes "arm.c") ≢ Ordering.lt
        → add_debug_to full (codes "arm.c") ≡ undefined)
add_debug_to_full_example = add_debug_to_full full (codes "arm.c") full-IsTable refl

abbrev options_example : List (ℕ × List ℕ)
options_example = (b'd', codes "gdb.c") ∷ (b'r', []) ∷ (b'd', codes "arm.c") ∷ []

set_options-is_debugged_example :
    EndsWith
      (λ (s : Settings).
        (x : List ℕ)
        → (b : Bool) × (is_debugged s.debugged x ≡ ok b) × ((b ≡ true) ↔ Asked options_example x))
      (set_options (λ _. true) first_settings options_example)
unfolding length
set_options-is_debugged_example =
    set_options-is_debugged (λ _. true) options_example (omega arith)
      (
        inr (inr (inr (inr (inr (inr (inr refl)))))),
        (inr (inr (inr (inl refl))), (inr (inr (inr (inr (inr (inr (inr refl)))))), tt)),
      )

-- An access within a location within another, with the flags for the memory and for locations.
abbrev tracing : Trace
tracing = record first_trace { trace_flags = 9 }

abbrev nested : Code
nested =
    located true (record { file = codes "core.c"; line = 7 })
      (located true (record { file = codes "step.c"; line = 3 })
        (access (record { cycle = 1; type = 1; size = 4; cause = 1; address = 8; value = 5 }) stop)
        stop)
      stop

run_code-After_example :
    EndsWith (After tracing (logged (top tracing) nested)) (run_code nested tracing)
unfolding nesting
run_code-After_example =
    run_code-After nested tracing (record { on = refl; memory = refl; position = refl })
      (omega arith)
