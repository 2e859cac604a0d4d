-- ===== src/Gdb/RoundTrip.antt =====
-- What the server prints reads back.
use projet_prog.Base.{
  ℕ, suc, ◌+◌, ◌-◌, ◌*◌, ◌/◌, ◌%◌, ◌^◌, ◌<◌, ◌≡◌, refl, ap, ◌∙◌, arith, Bool, true, false, List, [],
  ◌∷◌, ◌++◌, if◌then◌else◌,
}
use projet_prog.Word.{Host, IsWord}
use projet_prog.Memory.{update}
use projet_prog.Text.{
  length, take, drop, sum, print_byte, scan_hex-print_byte, take-length, drop-length, length-append,
}
use projet_prog.Gdb.{
  framed, payload, checksum_ok, integer, byte_of, byte_index, read_bytes, read_uint32, write_bytes,
  write_uint32,
}

take-print_byte : (v : ℕ) (rest : List ℕ) → take 2 (print_byte v ++ rest) ≡ print_byte v
unfolding take print_byte
take-print_byte v rest = refl

drop-print_byte : (v : ℕ) (rest : List ℕ) → drop 2 (print_byte v ++ rest) ≡ rest
unfolding drop print_byte
drop-print_byte v rest = refl

-- The byte of a word that is printed in round `k`.
abbrev printed : Bool → ℕ → ℕ → ℕ
printed big value k = if big then value / 2 ^ (8 * (3 - k)) % 2 ^ 8 else value / 2 ^ (8 * k) % 2 ^ 8

joined :
    (big : Bool) (value : ℕ)
    → IsWord value
    → (if big
        then printed big value 0 * 2 ^ 24
          + printed big value 1 * 2 ^ 16
          + printed big value 2 * 2 ^ 8
          + printed big value 3
        else printed big value 3 * 2 ^ 24
          + printed big value 2 * 2 ^ 16
          + printed big value 1 * 2 ^ 8
          + printed big value 0)
      ≡ value
joined true value w = omega arith
joined false value w = omega arith

module _ (host : Host) (big : Bool) where
  byte_of-lt : (value i : ℕ) → byte_of host value i < 256
  byte_of-lt value i = ground arith

  read_bytes-zero :
      (k : ℕ) (data' : List ℕ) (old : ℕ) (bytes : ℕ → ℕ)
      → read_bytes host big 0 k data' old bytes ≡ bytes
  unfolding read_bytes
  read_bytes-zero k data' old bytes = refl

  read_bytes-print_byte :
      (n k v old : ℕ) (rest : List ℕ) (bytes : ℕ → ℕ)
      → v < 256
      → read_bytes host big (suc n) k (print_byte v ++ rest) old bytes
        ≡ read_bytes host big n (k + 1) rest v (update bytes (byte_index host big k) v)
  unfolding read_bytes
  read_bytes-print_byte n k v old rest bytes h =
      let e : v % 2 ^ 8 ≡ v = omega arith in
      rw (take-print_byte v rest, drop-print_byte v rest, scan_hex-print_byte v old h, e)

  read_four :
      (a b c d old : ℕ) (rest : List ℕ)
      → a < 256
      → b < 256
      → c < 256
      → d < 256
      → read_uint32 host big old
          (print_byte a ++ (print_byte b ++ (print_byte c ++ (print_byte d ++ rest))))
        ≡ (if big
            then a * 2 ^ 24 + b * 2 ^ 16 + c * 2 ^ 8 + d
            else d * 2 ^ 24 + c * 2 ^ 16 + b * 2 ^ 8 + a)
  unfolding read_uint32
  read_four a b c d old rest p q r t =
      ap (integer host) (
        read_bytes-print_byte 3 0 a old (print_byte b ++ (print_byte c ++ (print_byte d ++ rest)))
          (λ _. 0) p
        ∙ read_bytes-print_byte 2 1 b a (print_byte c ++ (print_byte d ++ rest)) _ q
        ∙ read_bytes-print_byte 1 2 c b (print_byte d ++ rest) _ r
        ∙ read_bytes-print_byte 0 3 d c rest _ t
        ∙ read_bytes-zero 4 rest d _)
      ∙ ground arith

  byte_of-byte_index :
      (value k : ℕ) → k < 4 → byte_of host value (byte_index host big k) ≡ printed big value k
  byte_of-byte_index value k h =
      let e : 3 - (3 - k) ≡ k = omega arith in
      ground (arith, ap (λ (t : ℕ). value / 2 ^ (8 * t) % 2 ^ 8) e)

  -- A word that the server prints reads back, whatever comes after it and whatever the byte orders
  -- of the machine and of the simulator are.
  pub read_uint32-write_uint32 :
      (old value : ℕ) (rest : List ℕ)
      → IsWord value
      → read_uint32 host big old (write_uint32 host big value ++ rest) ≡ value
  unfolding write_uint32 write_bytes print_byte
  read_uint32-write_uint32 old value rest w =
      rw
        (
          byte_of-byte_index value 0 (omega arith),
          byte_of-byte_index value 1 (omega arith),
          byte_of-byte_index value 2 (omega arith),
          byte_of-byte_index value 3 (omega arith),
        )
        (read_four (printed big value 0) (printed big value 1) (printed big value 2)
            (printed big value 3) old rest (ground arith) (ground arith) (ground arith)
            (ground arith)
          ∙ joined big value w)

append-cons : (xs : List ℕ) (y : ℕ) (ys : List ℕ) → xs ++ (y ∷ ys) ≡ (xs ++ (y ∷ [])) ++ ys
append-cons [] y ys = refl
append-cons (x ∷ xs) y ys = ap (λ t. x ∷ t) (append-cons xs y ys)

length-framed : (data' : List ℕ) → length (framed data') ≡ length data' + 4
unfolding framed length print_byte
length-framed data' = omega (arith, length-append data' (35 ∷ print_byte (sum data' % 2 ^ 8)))

payload-framed : (data' : List ℕ) → payload (framed data') ≡ data'
unfolding payload framed drop
payload-framed data' =
    let e : length (framed data') - 4 ≡ length data' = omega (arith, length-framed data') in
    rw e (take-length data' (35 ∷ print_byte (sum data' % 2 ^ 8)))

digits-framed :
    (data' : List ℕ)
    → drop (length (framed data') - 2) (framed data') ≡ print_byte (sum data' % 2 ^ 8)
unfolding framed length
digits-framed data' =
    let start = 36 ∷ (data' ++ (35 ∷ [])) in
    let e : length (framed data') - 2 ≡ length start =
      omega (arith, length-framed data', length-append data' (35 ∷ [])) in
    rw e (
      ap (λ t. drop (length start) (36 ∷ t)) (append-cons data' 35 (print_byte (sum data' % 2 ^ 8)))
      ∙ drop-length start (print_byte (sum data' % 2 ^ 8)))

-- The packet around any data passes the check of a received packet and holds that data.
pub checksum_ok-framed :
    (data' : List ℕ) → (checksum_ok (framed data') ≡ true) × (payload (framed data') ≡ data')
unfolding checksum_ok
checksum_ok-framed data' = (
  rw
      (
        payload-framed data',
        digits-framed data',
        scan_hex-print_byte (sum data' % 2 ^ 8) 0 (omega arith),
      )
      (ground arith),
  payload-framed data',
)
