-- ===== src/Scanner/Safety.antt =====
-- The server on a whole stream keeps the processor valid.
use projet_prog.Base.{
  ℕ, zero, suc, ◌+◌, Bool, true, false, if◌then◌else◌, ltb, List, [], ◌∷◌, Option, none, some,
  Outcome, ok, ◌>>=◌, Ensures, Ensures->>=, arith,
}
use projet_prog.Word.{Host}
use projet_prog.Core.{Core}
use projet_prog.Core.Valid.{IsValid}
use projet_prog.LoadStore.{Unset}
use projet_prog.LoadStore.Valid.{UnsetWords}
use projet_prog.Text.{length}
use projet_prog.Gdb.{Gdb, gdb_packet_analysis, gdb_transmit_packet}
use projet_prog.Gdb.Requests.{Locals, gdb_init}
use projet_prog.Gdb.Safety.{gdb_packet_analysis-IsValid}
use projet_prog.Scanner.{
  ParserData, handle_error, store_character, add_character_to_error, match_packet, packet_rule,
  dollar_rule, rule, yylex, gdb_scanner,
}

module _ (size : ℕ) (order : Bool) where
  abbrev Valid : ParserData → Type 0
  Valid d = IsValid size order d.gdb.arm

  abbrev ValidRest : ParserData × List ℕ → Type 0
  ValidRest r = Valid r.0

  handle_error-Valid : (d : ParserData) → Valid d → Ensures Valid (handle_error d)
  unfolding handle_error
  handle_error-Valid d h = ground (arith, h)

  store_character-Valid : (d : ParserData) (c : ℕ) → Valid d → Ensures Valid (store_character d c)
  unfolding store_character
  store_character-Valid d c h = ground (arith, h)

  add_character_to_error-Valid :
      (d : ParserData) (c : ℕ) → Valid d → Ensures Valid (add_character_to_error d c)
  unfolding add_character_to_error
  add_character_to_error-Valid d c h =
      Ensures->>= Valid Valid (if ltb 1022 (length d.buffer) then handle_error d else ok d)
        (λ d'. store_character d' c) (start (ltb 1022 (length d.buffer)))
        (λ d' k. store_character-Valid d' c k)
    where
      start : (b : Bool) → Ensures Valid (if b then handle_error d else ok d)
      start true = handle_error-Valid d h
      start false = h

  -- A rule after its call, with what is left of the input.
  with_rest :
      (o : Outcome ParserData) (f : ParserData → ParserData × List ℕ)
      → ((d : ParserData) → Valid d → Valid (f d).0)
      → Ensures Valid o
      → Ensures ValidRest (o >>= λ d. ok (f d))
  with_rest o f k h = Ensures->>= Valid ValidRest o (λ d. ok (f d)) h k

  module _ (handler : ℕ → Option (Gdb → List ℕ → Outcome Gdb))
      (serves : (gdb : Gdb) (text : List ℕ)
        → IsValid size order gdb.arm
        → Ensures
            (λ (g : Gdb). IsValid size order g.arm)
            (gdb_packet_analysis handler gdb text)) where
    packet_rule-Valid :
        (d : ParserData) (text : List ℕ) → Valid d → Ensures Valid (packet_rule handler d text)
    unfolding packet_rule
    packet_rule-Valid d text h =
        Ensures->>= Valid Valid (handle_error d)
          (λ d'. gdb_packet_analysis handler d'.gdb text >>= λ g. ok (record d' { gdb = g }))
          (handle_error-Valid d h)
          (λ d' k.
            Ensures->>= (λ (g : Gdb). IsValid size order g.arm) Valid
              (gdb_packet_analysis handler d'.gdb text) (λ g. ok (record d' { gdb = g }))
              (serves d'.gdb text k) (λ g k'. k'))

    dollar_rule-Valid :
        (d : ParserData) (cs : List ℕ) (o : Option (List ℕ × List ℕ))
        → Valid d
        → Ensures ValidRest (dollar_rule handler d cs o)
    unfolding dollar_rule
    dollar_rule-Valid d cs (some (text, rest)) h =
        with_rest (packet_rule handler d (b'$' ∷ text)) (λ d'. (d', rest)) (λ d' k. k)
          (packet_rule-Valid d (b'$' ∷ text) h)
    dollar_rule-Valid d cs none h =
        with_rest (add_character_to_error d b'$') (λ d'. (d', cs)) (λ d' k. k)
          (add_character_to_error-Valid d b'$' h)

    rule-Valid :
        (d : ParserData) (c : ℕ) (cs : List ℕ) → Valid d → Ensures ValidRest (rule handler d c cs)
    unfolding rule gdb_transmit_packet
    rule-Valid d c cs h = ground (
      arith,
      with_rest (handle_error d) (λ d'. (d', cs)) (λ d' k. k) (handle_error-Valid d h),
      with_rest (handle_error d) (λ d'. (record d' { gdb = gdb_transmit_packet d'.gdb }, cs))
          (λ d' k. k) (handle_error-Valid d h),
      dollar_rule-Valid d cs (match_packet cs) h,
      with_rest (add_character_to_error d c) (λ d'. (d', cs)) (λ d' k. k)
          (add_character_to_error-Valid d c h),
      h,
    )

-- The table of handlers in each round.
abbrev pub table :
    Host
    → Bool
    → (ℕ → ℕ → Unset)
    → (ℕ → ℕ)
    → (ℕ → Locals)
    → ℕ
    → ℕ
    → Option (Gdb → List ℕ → Outcome Gdb)
table host big unset rounds locals k = gdb_init host big (unset k) (rounds k) (locals k)

module _ (host : Host) (big : Bool) (unset : ℕ → ℕ → Unset) (u : (k n : ℕ) → UnsetWords (unset k n))
    (rounds : ℕ → ℕ) (locals : ℕ → Locals) where
  yylex-Valid :
      (size : ℕ) (order : Bool) (n : ℕ) (d : ParserData) (input : List ℕ)
      → Valid size order d
      → Ensures (Valid size order) (yylex (table host big unset rounds locals) n d input)
  unfolding yylex
  yylex-Valid size order zero d input h = tt
  yylex-Valid size order (suc n) d [] h = handle_error-Valid size order d h
  yylex-Valid size order (suc n) d (c ∷ cs) h =
      Ensures->>= (ValidRest size order) (Valid size order)
        (rule (table host big unset rounds locals n) d c cs)
        (λ r. yylex (table host big unset rounds locals) n r.0 r.1)
        (rule-Valid size order (table host big unset rounds locals n)
          (λ gdb text k.
            gdb_packet_analysis-IsValid size order host (unset n) (u n) big (rounds n) (locals n)
              gdb text k)
          d c cs h)
        (λ r k. yylex-Valid size order n r.0 r.1 k)

  -- Whatever comes over a connection, if the server comes to its end the processor is valid, as it
  -- was before, and its memory has the same size and byte order.
  pub gdb_scanner-IsValid :
      (size : ℕ) (order : Bool) (arm : Core) (input : List ℕ)
      → IsValid size order arm
      → Ensures
          (λ (d : ParserData). IsValid size order d.gdb.arm)
          (gdb_scanner (table host big unset rounds locals) arm input)
  unfolding gdb_scanner
  gdb_scanner-IsValid size order arm input h = yylex-Valid size order (length input + 1) _ input h
