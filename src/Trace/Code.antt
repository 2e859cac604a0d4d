-- ===== src/Trace/Code.antt =====
-- The macros of trace_location.h as nested code, and what is to be printed for it.
use projet_prog.Base.{
  Bool, true, false, ℕ, suc, ◌≡◌, refl, ap, ◌==◌, max, List, [], ◌∷◌, ◌++◌, Option, some, Outcome,
  ok, ◌>>=◌,
}
use projet_prog.Word.{add32}
use projet_prog.Trace.{
  Location, Entry, memory_entry, Trace, trace_start_location, trace_end_location, trace_memory,
}

-- An access to memory: the arguments of `trace_memory`.
pub record Access : Type 0 where
  pub cycle : ℕ
  pub type : ℕ
  pub size : ℕ
  pub cause : ℕ
  pub address : ℕ
  pub value : ℕ

-- What the macros expand to: the start of a location, accesses and locations within it, and its end;
-- then what follows. The call and END_LOCATION are the operands of a sum, which C evaluates in either
-- order: the Boolean says at each place whether the call comes first.
pub data Code : Type 0 where
  stop : Code
  access : Access → Code → Code
  located : Bool → Location → Code → Code → Code

unfoldable pub run_code : Code → Trace → Outcome Trace
run_code stop t = ok t
run_code (access a rest) t =
    run_code rest (trace_memory t a.cycle a.type a.size a.cause a.address a.value)
run_code (located true l body rest) t = trace_start_location t l >>= λ t1.
    run_code body t1 >>= λ t2. trace_end_location t2 >>= run_code rest
run_code (located false l body rest) t = trace_start_location t l >>= λ t1.
    trace_end_location t1 >>= λ t2. run_code body t2 >>= run_code rest

-- The depth of the locations.
unfoldable pub nesting : Code → ℕ
nesting stop = 0
nesting (access a rest) = nesting rest
nesting (located b l body rest) = max (suc (nesting body)) (nesting rest)

-- The accesses with the location that is printed before each: the innermost one of those whose call
-- comes first.
abbrev pub Logged : Type 0
Logged = Option Location × Access

unfoldable pub logged : Option Location → Code → List Logged
logged l stop = []
logged l (access a rest) = (l, a) ∷ logged l rest
logged l (located true l' body rest) = logged (some l') body ++ logged l rest
logged l (located false l' body rest) = logged l body ++ logged l rest

-- What is printed for them, after an access to the address `last`.
abbrev pub entry_of : ℕ → Logged → Entry
entry_of last (l, a) =
    memory_entry l a.cycle (a.address == add32 last 4) a.type a.size a.cause a.address a.value

unfoldable pub entries : ℕ → List Logged → List Entry
entries last [] = []
entries last (x ∷ rest) = entry_of last x ∷ entries (x.1).address rest

unfoldable pub last_of : ℕ → List Logged → ℕ
last_of last [] = last
last_of last (x ∷ rest) = last_of (x.1).address rest

pub entries-append :
    (last : ℕ) (xs ys : List Logged)
    → entries last (xs ++ ys) ≡ entries last xs ++ entries (last_of last xs) ys
unfolding entries last_of
entries-append last [] ys = refl
entries-append last (x ∷ xs) ys =
    ap (λ (es : List Entry). entry_of last x ∷ es) (entries-append (x.1).address xs ys)

pub last_of-append :
    (last : ℕ) (xs ys : List Logged) → last_of last (xs ++ ys) ≡ last_of (last_of last xs) ys
unfolding last_of
last_of-append last [] ys = refl
last_of-append last (x ∷ xs) ys = last_of-append (x.1).address xs ys
