-- ===== src/Debug.antt =====
-- debug.c: the sorted table of the source files whose messages are printed.
pub mod Order
pub mod Table
pub mod Find
pub mod Place
pub mod Insert
use Prim.Native.Nat.{compare, Ordering}
use projet_prog.Base.{
  ℕ, zero, suc, ◌+◌, ◌-◌, ◌/◌, Bool, true, false, if◌then◌else◌, ◌==◌, ltb, leb, List, [], ◌∷◌,
  Outcome, ok, undefined, unfinished, ◌>>=◌,
}

-- The sign of `strcmp` on the bytes of two strings.
unfoldable pub strcmp : List ℕ → List ℕ → Ordering
strcmp [] [] = Ordering.eq
strcmp [] (y ∷ ys) = Ordering.lt
strcmp (x ∷ xs) [] = Ordering.gt
strcmp (x ∷ xs) (y ∷ ys) =
    let rest = strcmp xs ys in
    elim (compare x y) [
      | Ordering.lt ↦ Ordering.lt
      | Ordering.eq ↦ rest
      | Ordering.gt ↦ Ordering.gt
    ]

abbrev pub max_files_number : ℕ
max_files_number = 64

abbrev pub Files : Type 0
Files = ℕ → List ℕ

-- The two globals.
pub record Debugged : Type 0 where
  pub debugged_files : Files
  pub nb_debugged_files : ℕ

unfoldable pub store_file : Files → ℕ → List ℕ → Outcome Files
store_file files j name =
    if ltb j max_files_number then ok (λ k. if j == k then name else files k) else undefined

-- The first loop of `add_debug_to` at `i`, with `n` files left.
unfoldable pub place_of : Files → List ℕ → ℕ → ℕ → ℕ
place_of files name zero i = i
place_of files name (suc n) i =
    let rest = place_of files name n (i + 1) in
    if ltb i max_files_number
    then elim (strcmp (files i) name) [ Ordering.lt ↦ rest | _ ↦ i ]
    else i

-- The second loop, with `n` rounds left: `j` is `i + n`.
unfoldable pub shift_files : ℕ → ℕ → Files → Outcome Files
shift_files i zero files = ok files
shift_files i (suc n) files =
    store_file files (i + suc n) (files (i + n)) >>= λ shifted. shift_files i n shifted

unfoldable pub add_debug_to : Debugged → List ℕ → Outcome Debugged
add_debug_to d name =
    let i = place_of d.debugged_files name d.nb_debugged_files 0 in
    if leb max_files_number i
    then ok d
    else (shift_files i (d.nb_debugged_files - i) d.debugged_files >>= λ shifted.
        store_file shifted i name >>= λ files.
        ok (record { debugged_files = files; nb_debugged_files = d.nb_debugged_files + 1 }))

unfoldable pub compare_at : Files → ℕ → List ℕ → Outcome Ordering
compare_at files i name = if ltb i max_files_number then ok (strcmp (files i) name) else undefined

-- The search of `__is_debugged` with some rounds left. `past` is `to + 1`, as `to` can be -1.
unfoldable pub search_file : ℕ → Files → List ℕ → ℕ → ℕ → Outcome Bool
search_file zero files name from past = unfinished
search_file (suc rounds) files name from past =
    let middle = (from + (past - 1)) / 2 in
    if ltb (from + 1) past
    then (compare_at files middle name >>= λ result. elim result [
      | Ordering.lt ↦ search_file rounds files name (middle + 1) past
      | Ordering.gt ↦ search_file rounds files name from middle
      | Ordering.eq ↦ ok true
    ])
    else if from + 1 == past
    then (compare_at files from name >>= λ result. elim result [
      | Ordering.eq ↦ ok true
      | _ ↦ ok false
    ])
    else ok false

-- Each round but the last takes at least one file off the range.
unfoldable pub is_debugged : Debugged → List ℕ → Outcome Bool
is_debugged d name =
    search_file (d.nb_debugged_files + 1) d.debugged_files name 0 d.nb_debugged_files
