-- ===== src/Scanner.antt =====
-- scanner.l: the rules that cut what GDB sends into packets, and the characters that are no packet.
pub mod Stream
pub mod Ends
pub mod Safety
use projet_prog.Base.{
  ℕ, zero, suc, ◌+◌, ◌-◌, Bool, true, false, ◌&&◌, if◌then◌else◌, ◌==◌, ltb, truthy, List, [], ◌∷◌,
  ◌++◌, Option, none, some, Outcome, ok, undefined, unfinished, ◌>>=◌,
}
use projet_prog.Core.{Core}
use projet_prog.Text.{length, digit_value}
use projet_prog.Gdb.{
  Gdb, gdb_require_retransmission, gdb_transmit_packet, gdb_packet_analysis, gdb_init_data,
}

abbrev pub max_error_size : ℕ
max_error_size = 1024

-- `struct parser_data`; `buffer` holds its first `len` characters.
pub record ParserData : Type 0 where
  pub gdb : Gdb
  pub buffer : List ℕ

-- The 0 behind the characters is stored in the array too.
unfoldable pub handle_error : ParserData → Outcome ParserData
handle_error data' =
    if length data'.buffer == 0
    then ok data'
    else if ltb (length data'.buffer) max_error_size
    then ok (record { gdb = gdb_require_retransmission data'.gdb; buffer = [] })
    else undefined

unfoldable pub store_character : ParserData → ℕ → Outcome ParserData
store_character data' c =
    if ltb (length data'.buffer) max_error_size
    then ok (record data' { buffer = data'.buffer ++ (c ∷ []) })
    else undefined

unfoldable pub add_character_to_error : ParserData → ℕ → Outcome ParserData
add_character_to_error data' c = do
  d ← if ltb (max_error_size - 2) (length data'.buffer) then handle_error data' else ok data'
  store_character d c

-- HEX
abbrev pub is_hex : ℕ → Bool
is_hex c = elim (digit_value c) [ none ↦ false | some d ↦ true ]

-- `{HEX}{HEX}` after the #, and what follows.
unfoldable pub match_digits : List ℕ → Option (List ℕ × List ℕ)
match_digits [] = none
match_digits (a ∷ []) = none
match_digits (a ∷ b ∷ cs) = if is_hex a && is_hex b then some (a ∷ b ∷ [], cs) else none

abbrev pub with_first : ℕ → Option (List ℕ × List ℕ) → Option (List ℕ × List ℕ)
with_first c none = none
with_first c (some (text, rest)) = some (c ∷ text, rest)

-- `[^$#]*"#"{HEX}{HEX}` after the $: what it matches, and what follows.
unfoldable pub match_packet : List ℕ → Option (List ℕ × List ℕ)
match_packet [] = none
match_packet (c ∷ cs) =
    let rest = match_packet cs in
    if c == b'#'
    then with_first c (match_digits cs)
    else if c == b'$'
    then none
    else with_first c rest

-- One rule for the character `c` and what follows: the parser's data after it, and the rest. The
-- packet's rule is the longer one where it matches. A line's end has no rule: it is echoed.
module _ (handler : ℕ → Option (Gdb → List ℕ → Outcome Gdb)) where
  unfoldable pub packet_rule : ParserData → List ℕ → Outcome ParserData
  packet_rule data' text = do
    d ← handle_error data'
    g ← gdb_packet_analysis handler d.gdb text
    ok (record d { gdb = g })

  unfoldable pub dollar_rule :
      ParserData → List ℕ → Option (List ℕ × List ℕ) → Outcome (ParserData × List ℕ)
  dollar_rule data' cs (some (text, rest)) = packet_rule data' (b'$' ∷ text) >>= λ d. ok (d, rest)
  dollar_rule data' cs none = add_character_to_error data' b'$' >>= λ d. ok (d, cs)

  unfoldable pub rule : ParserData → ℕ → List ℕ → Outcome (ParserData × List ℕ)
  rule data' c cs =
      if c == b'+'
      then (handle_error data' >>= λ d. ok (d, cs))
      else if c == b'-'
      then (handle_error data' >>= λ d. ok (record d { gdb = gdb_transmit_packet d.gdb }, cs))
      else if c == b'$'
      then dollar_rule data' cs (match_packet cs)
      else if c == 10
      then ok (data', cs)
      else add_character_to_error data' c >>= λ d. ok (d, cs)

-- `yylex`, with the rounds left. The table of handlers depends on the round, as the variables that
-- the handlers do not set can hold something else each time.
unfoldable pub yylex :
    (ℕ → ℕ → Option (Gdb → List ℕ → Outcome Gdb)) → ℕ → ParserData → List ℕ → Outcome ParserData
yylex handler zero data' input = unfinished
yylex handler (suc rounds) data' [] = handle_error data'
yylex handler (suc rounds) data' (c ∷ cs) = do
  r ← rule (handler rounds) data' c cs
  yylex handler rounds r.0 r.1

-- The server on a connection that sends `input` and then closes.
unfoldable pub gdb_scanner :
    (ℕ → ℕ → Option (Gdb → List ℕ → Outcome Gdb)) → Core → List ℕ → Outcome ParserData
gdb_scanner handler arm input =
    yylex handler (length input + 1) (record { gdb = gdb_init_data arm; buffer = [] }) input
