-- ===== src/Trace/Stack.antt =====
-- Accesses within nested locations, as the macros of trace_location.h put them.
use mathlib.Core.List.{append_assoc, append-nil}
use projet_prog.Base.{
  ℕ, ◌+◌, ◌-◌, ◌≤◌, ◌<◌, ◌≡◌, refl, sym, ap, ◌∙◌, arith, bit_and, Bool-cases, inl, inr, ap₂, true,
  false, if◌then◌else◌, ◌==◌, lt→ltb, truthy, List, [], ◌∷◌, ◌++◌, Option, none, some, Outcome, ok,
  ◌>>=◌, EndsWith, subst,
}
use projet_prog.Trace.{
  Location, Entry, Trace, trace_start_location, trace_end_location, printed_location, trace_memory,
}
use projet_prog.Trace.Code.{
  Access, Code, stop, access, located, run_code, nesting, Logged, logged, entries, last_of,
  entries-append, last_of-append,
}

-- Accesses to memory are traced with their locations.
pub record IsTracing (t : Trace) : Type 0 where
  pub on : t.enabled ≡ true
  pub memory : truthy (bit_and t.trace_flags 1) ≡ true
  pub position : truthy (bit_and t.trace_flags 8) ≡ true

-- The innermost location.
abbrev pub top : Trace → Option Location
top t = if t.depth == 0 then none else some (t.location_stack (t.depth - 1))

-- `t'` is as `t` but for the accesses printed.
pub record After (t : Trace) (accesses : List Logged) (t' : Trace) : Type 0 where
  pub tracing : IsTracing t'
  pub same_depth : t'.depth ≡ t.depth
  pub below : (i : ℕ) → i < t.depth → t'.location_stack i ≡ t.location_stack i
  pub printed : t'.output ≡ t.output ++ entries t.last_address accesses
  pub last : t'.last_address ≡ last_of t.last_address accesses

top-After : (t : Trace) (xs : List Logged) (t' : Trace) → After t xs t' → top t' ≡ top t
top-After t xs t' h = elim (Bool-cases (t.depth == 0)) [
  | inl e ↦ rw (h.same_depth, e)
  | inr e ↦ rw (h.same_depth, e, h.below (t.depth - 1) (ground arith))
]

After-append :
    (t t1 t2 : Trace) (xs ys : List Logged) → After t xs t1 → After t1 ys t2 → After t (xs ++ ys) t2
After-append t t1 t2 xs ys h k = record {
  tracing = k.tracing;
  same_depth = k.same_depth ∙ h.same_depth;
  below = λ i l. k.below i (omega (arith, h.same_depth)) ∙ h.below i l;
  printed =
      k.printed
      ∙ ap₂ (λ (o : List Entry) (n : ℕ). o ++ entries n ys) h.printed h.last
      ∙ append_assoc t.output (entries t.last_address xs) (entries (last_of t.last_address xs) ys)
      ∙ ap (λ (es : List Entry). t.output ++ es) (sym (entries-append t.last_address xs ys));
  last = k.last ∙ ap (λ (n : ℕ). last_of n ys) h.last ∙ sym (last_of-append t.last_address xs ys);
}

trace_memory-After :
    (t : Trace) (a : Access)
    → IsTracing t
    → After t ((top t, a) ∷ []) (trace_memory t a.cycle a.type a.size a.cause a.address a.value)
unfolding trace_memory printed_location entries last_of
trace_memory-After t a h =
    rw (h.on, h.memory, h.position)
      (record {
        tracing = record { on = refl; memory = h.memory; position = h.position };
        same_depth = refl;
        below = λ i l. refl;
        printed = refl;
        last = refl;
      })

abbrev pushed : Trace → Location → Trace
pushed t l = record t {
  depth = t.depth + 1;
  location_stack = λ i. if t.depth == i then l else t.location_stack i;
}

abbrev popped : Trace → Trace
popped t = record t { depth = t.depth - 1 }

started :
    (t : Trace) (l : Location)
    → IsTracing t
    → t.depth < 128
    → trace_start_location t l ≡ ok (pushed t l)
unfolding trace_start_location
started t l h d = rw (h.on, lt→ltb t.depth 128 d)

ended : (t : Trace) → IsTracing t → 0 < t.depth → trace_end_location t ≡ ok (popped t)
unfolding trace_end_location
ended t h d = let more : (t.depth == 0) ≡ false = ground arith in rw (h.on, more)

top-pushed : (t : Trace) (l : Location) → top (pushed t l) ≡ some l
top-pushed t l =
    let last : t.depth + 1 - 1 ≡ t.depth = omega arith in
    ground (arith, ap (pushed t l).location_stack last)

popped-After :
    (t : Trace) (l : Location) (xs : List Logged) (t' : Trace)
    → After (pushed t l) xs t'
    → After t xs (popped t')
popped-After t l xs t' h = record {
  tracing = record { on = h.tracing.on; memory = h.tracing.memory; position = h.tracing.position };
  same_depth = omega (arith, h.same_depth);
  below = λ i d. h.below i (omega arith) ∙ ground arith;
  printed = h.printed;
  last = h.last;
}

After-refl : (t : Trace) → IsTracing t → After t [] t
unfolding entries last_of
After-refl t h = record {
  tracing = h;
  same_depth = refl;
  below = λ i l. refl;
  printed = sym (append-nil t.output);
  last = refl;
}

pushed-IsTracing : (t : Trace) (l : Location) → IsTracing t → IsTracing (pushed t l)
pushed-IsTracing t l h = record { on = h.on; memory = h.memory; position = h.position }

-- What follows an end, from what came before it.
After-next :
    (t t1 t2 : Trace) (xs : List Logged) (c : Code)
    → After t xs t1
    → After t1 (logged (top t1) c) t2
    → After t (xs ++ logged (top t) c) t2
After-next t t1 t2 xs c h k =
    After-append t t1 t2 xs (logged (top t) c) h
      (subst (λ (o : Option Location). After t1 (logged o c) t2) (top-After t xs t1 h) k)

-- While accesses to memory are traced with their locations, accesses within locations that are nested
-- no deeper than the stack has room for are printed in their order, each with the innermost of its
-- locations at which the call comes before END_LOCATION, and with whether it follows the access before
-- it; and the stack is then as it was. C leaves the order at each place open.
pub run_code-After :
    (c : Code) (t : Trace)
    → IsTracing t
    → t.depth + nesting c ≤ 128
    → EndsWith (After t (logged (top t) c)) (run_code c t)
unfolding run_code nesting logged
run_code-After stop t h d = (t, refl, After-refl t h)
run_code-After (access a rest) t h d =
    let t1 = trace_memory t a.cycle a.type a.size a.cause a.address a.value in
    let first = trace_memory-After t a h in
    let later = run_code-After rest t1 first.tracing (omega (arith, first.same_depth)) in
    (later.0, later.1, After-next t t1 later.0 ((top t, a) ∷ []) rest first later.2)
run_code-After (located true l body rest) t h d =
    let inner = run_code-After body (pushed t l) (pushed-IsTracing t l h) (omega arith) in
    let t2 = popped inner.0 in
    let first : After t (logged (some l) body) t2 = popped-After t l _ inner.0 (
      subst (λ (o : Option Location). After (pushed t l) (logged o body) inner.0) (top-pushed t l)
        inner.2) in
    let later = run_code-After rest t2 first.tracing (omega (arith, first.same_depth)) in
    (
      later.0,
      ap
            (λ (o : Outcome Trace).
              o >>= λ t1. run_code body t1 >>= λ t2. trace_end_location t2 >>= run_code rest)
            (started t l h (omega arith))
          ∙ ap (λ (o : Outcome Trace). o >>= λ t2. trace_end_location t2 >>= run_code rest) inner.1
          ∙ ap (λ (o : Outcome Trace). o >>= run_code rest)
              (ended inner.0 (inner.2).tracing (omega (arith, (inner.2).same_depth)))
          ∙ later.1,
      After-next t t2 later.0 (logged (some l) body) rest first later.2,
    )
run_code-After (located false l body rest) t h d =
    let t1 = pushed t l in
    let t2 = popped t1 in
    let traced = pushed-IsTracing t l h in
    let empty : After t [] t2 = popped-After t l [] t1 (After-refl t1 traced) in
    let inner = run_code-After body t2 empty.tracing (omega (arith, empty.same_depth)) in
    let first : After t (logged (top t) body) inner.0 =
      After-next t t2 inner.0 [] body empty inner.2 in
    let later = run_code-After rest inner.0 first.tracing (omega (arith, first.same_depth)) in
    (
      later.0,
      ap
            (λ (o : Outcome Trace).
              o >>= λ t1. trace_end_location t1 >>= λ t2. run_code body t2 >>= run_code rest)
            (started t l h (omega arith))
          ∙ ap (λ (o : Outcome Trace). o >>= λ t2. run_code body t2 >>= run_code rest)
              (ended t1 traced (omega arith))
          ∙ ap (λ (o : Outcome Trace). o >>= run_code rest) inner.1
          ∙ later.1,
      After-next t inner.0 later.0 (logged (top t) body) rest first later.2,
    )
