-- ===== src/Text.antt =====
-- Strings of bytes for gdb_protocol.c, and what it uses of `sprintf` and `sscanf`.
use Prim.Native.Char.{code}
use Prim.Native.String.{String}
use projet_prog.Word.{sub32}
use projet_prog.Base.{
  ◌≤◌, ◌^◌, Bool, true, false, ◌==◌, ℕ, zero, suc, ◌+◌, ◌-◌, ◌*◌, ◌/◌, ◌%◌, ◌<◌, ◌≡◌, refl, ap,
  arith, ◌&&◌, if◌then◌else◌, leb, ltb, List, [], ◌∷◌, ◌++◌, Option, none, some,
}

-- The characters of a text in ASCII.
abbrev pub codes : String → List ℕ
codes String.[] = []
codes (String.◌∷◌ c s) = code c ∷ codes s

unfoldable pub length {ℓ} : {A : Type ℓ} → List A → ℕ
length [] = 0
length (x ∷ xs) = suc (length xs)

unfoldable pub take {ℓ} : {A : Type ℓ} → ℕ → List A → List A
take zero xs = []
take (suc n) [] = []
take (suc n) (x ∷ xs) = x ∷ take n xs

unfoldable pub drop {ℓ} : {A : Type ℓ} → ℕ → List A → List A
drop zero xs = xs
drop (suc n) [] = []
drop (suc n) (x ∷ xs) = drop n xs

unfoldable pub replicate {ℓ} : {A : Type ℓ} → ℕ → A → List A
replicate zero x = []
replicate (suc n) x = x ∷ replicate n x

unfoldable pub sum : List ℕ → ℕ
sum [] = 0
sum (x ∷ xs) = x + sum xs

-- A digit of "%x" in lower case, and "%02x" of a byte.
unfoldable pub hex_digit : ℕ → ℕ
hex_digit d = if ltb d 10 then d + 48 else d + 87

unfoldable pub print_byte : ℕ → List ℕ
print_byte v = hex_digit (v / 16) ∷ hex_digit (v % 16) ∷ []

unfoldable pub digit_value : ℕ → Option ℕ
digit_value c =
    if leb 48 c && leb c 57
    then some (c - 48)
    else if leb 97 c && leb c 102
    then some (c - 87)
    else if leb 65 c && leb c 70
    then some (c - 55)
    else none

-- `sscanf` with "%x" on digits with nothing before them: the number up to the first other character,
-- and the old content of the variable where the first character is no digit.
unfoldable pub scan_rest : ℕ → List ℕ → ℕ
scan_rest value [] = value
scan_rest value (c ∷ cs) = elim (digit_value c) [
  | none ↦ value
  | some d ↦ scan_rest (value * 16 + d) cs
]

unfoldable pub scan_hex : List ℕ → ℕ → ℕ
scan_hex [] old = old
scan_hex (c ∷ cs) old = elim (digit_value c) [ none ↦ old | some d ↦ scan_rest d cs ]

-- What follows the digits.
unfoldable pub skip_hex : List ℕ → List ℕ
skip_hex [] = []
skip_hex (c ∷ cs) = elim (digit_value c) [ none ↦ c ∷ cs | some d ↦ skip_hex cs ]

-- A string ends before its first 0.
unfoldable pub c_string : List ℕ → List ℕ
c_string [] = []
c_string (c ∷ cs) = let rest = c_string cs in if c == 0 then [] else c ∷ rest

-- What follows the first `c` in the string: `index(text, c) + 1`.
unfoldable pub after : ℕ → List ℕ → Option (List ℕ)
after c [] = none
after c (x ∷ xs) =
    let rest = after c xs in if x == c then some xs else if x == 0 then none else rest

-- `atoi`, as the bit pattern of its `int`, on digits with at most a minus before them.
unfoldable pub decimal : ℕ → List ℕ → ℕ
decimal value [] = value
decimal value (c ∷ cs) = if leb 48 c && leb c 57 then decimal (value * 10 + (c - 48)) cs else value

unfoldable pub atoi : List ℕ → ℕ
atoi [] = 0
atoi (c ∷ cs) = if c == b'-' then sub32 0 (decimal 0 cs % 2 ^ 32) else decimal 0 (c ∷ cs) % 2 ^ 32

-- `strcmp(s, t) == 0`
unfoldable pub same_text : List ℕ → List ℕ → Bool
same_text [] [] = true
same_text [] (y ∷ ys) = false
same_text (x ∷ xs) [] = false
same_text (x ∷ xs) (y ∷ ys) = x == y && same_text xs ys

pub digit_value-hex_digit : (d : ℕ) → d < 16 → digit_value (hex_digit d) ≡ some d
unfolding digit_value hex_digit
digit_value-hex_digit d h = ground arith

-- A printed byte reads back, within a field of two characters and at the end of a string.
pub scan_hex-print_byte : (v old : ℕ) → v < 256 → scan_hex (print_byte v) old ≡ v
unfolding scan_hex scan_rest print_byte
scan_hex-print_byte v old h =
    ground (arith, digit_value-hex_digit (v / 16), digit_value-hex_digit (v % 16))

pub take-length : (xs ys : List ℕ) → take (length xs) (xs ++ ys) ≡ xs
unfolding take length
take-length [] ys = refl
take-length (x ∷ xs) ys = ap (λ t. x ∷ t) (take-length xs ys)

pub drop-length : (xs ys : List ℕ) → drop (length xs) (xs ++ ys) ≡ ys
unfolding drop length
drop-length [] ys = refl
drop-length (x ∷ xs) ys = drop-length xs ys

pub length-append : (xs ys : List ℕ) → length (xs ++ ys) ≡ length xs + length ys
unfolding length
length-append [] ys = omega arith
length-append (x ∷ xs) ys = omega (arith, length-append xs ys)

pub drop-append :
    (xs ys : List ℕ) (m : ℕ) {j : ℕ} → j ≡ length xs + m → drop j (xs ++ ys) ≡ drop m ys
unfolding drop length
drop-append [] ys m {j} h = let e : j ≡ m = omega arith in rw e
drop-append (x ∷ xs) ys m {j} h =
    let e : j ≡ suc (length xs + m) = omega arith in rw e (drop-append xs ys m refl)

pub length-replicate : (n x : ℕ) → length (replicate n x) ≡ n
unfolding replicate length
length-replicate zero x = refl
length-replicate (suc n) x = ap (λ (t : ℕ). suc t) (length-replicate n x)

pub drop_front : (n : ℕ) (xs ys : List ℕ) → n ≤ length xs → drop n (xs ++ ys) ≡ drop n xs ++ ys
unfolding drop length
drop_front zero xs ys h = refl
drop_front (suc n) [] ys h = absurd (omega arith)
drop_front (suc n) (x ∷ xs) ys h = drop_front n xs ys (omega arith)
