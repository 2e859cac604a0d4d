-- ===== src/Scanner/Ends.antt =====
-- The scanner comes to the end of any input, and its error buffer never overflows.
use mathlib.Core.List.{append_assoc}
use projet_prog.Base.{
  sym, ◌∙◌, Bool, true, false, ◌&&◌, if◌then◌else◌, ==_iff, ℕ, zero, suc, ◌≤◌, ◌<◌, ◌≡◌, arith,
  ◌==◌, ltb, Bool-cases, inl, inr, List, [], ◌∷◌, ◌++◌, Option, none, some, refl, ap, ok, undefined,
  exited, unfinished, Failure, leaves_block, exits, goes_on, failure, EndsOr, EndsOr->>=, EndsWith,
  EndsWith->>=, lt→ltb, Outcome,
}
use projet_prog.Text.{length, length-append}
use projet_prog.Gdb.{gdb_require_retransmission, gdb_transmit_packet, Gdb, gdb_packet_analysis}
use projet_prog.Scanner.{
  is_hex, ParserData, handle_error, store_character, add_character_to_error, match_digits,
  match_packet, with_first, packet_rule, dollar_rule, rule, yylex,
}

abbrev Handlers : Type 0
Handlers = ℕ → Option (Gdb → List ℕ → Outcome Gdb)

-- The error buffer has room for the 0 that closes it.
abbrev pub HasRoom : ParserData → Type 0
HasRoom d = length d.buffer < 1024

handle_error-EndsWith :
    (d : ParserData)
    → HasRoom d
    → EndsWith (λ (d' : ParserData). length d'.buffer ≡ 0) (handle_error d)
unfolding handle_error length
handle_error-EndsWith d h = elim (Bool-cases (length d.buffer == 0)) [
  | inl e ↦ rw e (d, refl, ground arith)
  | inr e ↦
      rw (e, lt→ltb (length d.buffer) 1024 h)
        (record { gdb = gdb_require_retransmission d.gdb; buffer = [] }, refl, refl)
]

store_character-EndsWith :
    (d : ParserData) (c : ℕ) → length d.buffer < 1023 → EndsWith HasRoom (store_character d c)
unfolding store_character length
store_character-EndsWith d c h = rw (lt→ltb (length d.buffer) 1024 (omega arith)) (
  record d { buffer = d.buffer ++ (c ∷ []) },
  refl,
  omega (arith, length-append d.buffer (c ∷ [])),
)

add_character_to_error-EndsWith :
    (d : ParserData) (c : ℕ) → HasRoom d → EndsWith HasRoom (add_character_to_error d c)
unfolding add_character_to_error
add_character_to_error-EndsWith d c h = elim (Bool-cases (ltb 1022 (length d.buffer))) [
  | inl e ↦ rw e (
      EndsWith->>= (handle_error-EndsWith d h)
        (λ d' k. store_character-EndsWith d' c (omega arith)))
  | inr e ↦ rw e (store_character-EndsWith d c (ground arith))
]

-- What follows a match is shorter than `n` characters.
abbrev Shorter : ℕ → Option (List ℕ × List ℕ) → Type 0
Shorter n none = Unit
Shorter n (some (text, rest)) = length rest < n

with_first-Shorter :
    (n c : ℕ) (o : Option (List ℕ × List ℕ)) → Shorter n o → Shorter (suc n) (with_first c o)
with_first-Shorter n c none h = tt
with_first-Shorter n c (some (text, rest)) h = omega arith

match_digits-Shorter : (cs : List ℕ) → Shorter (length cs) (match_digits cs)
unfolding match_digits length
match_digits-Shorter [] = tt
match_digits-Shorter (a ∷ []) = tt
match_digits-Shorter (a ∷ b ∷ cs) = ground arith

match_packet-Shorter : (cs : List ℕ) → Shorter (length cs) (match_packet cs)
unfolding match_packet length
match_packet-Shorter [] = tt
match_packet-Shorter (c ∷ cs) = ground (
  arith,
  with_first-Shorter (length cs) c (match_digits cs) (match_digits-Shorter cs),
  with_first-Shorter (length cs) c (match_packet cs) (match_packet-Shorter cs),
)

-- What a match takes and what follows it are the characters.
abbrev Matched : List ℕ → Option (List ℕ × List ℕ) → Type 0
Matched cs none = Unit
Matched cs (some (text, rest)) = cs ≡ text ++ rest

with_first-Matched :
    (c : ℕ) (cs : List ℕ) (o : Option (List ℕ × List ℕ))
    → Matched cs o
    → Matched (c ∷ cs) (with_first c o)
with_first-Matched c cs none h = tt
with_first-Matched c cs (some (text, rest)) h = ap (λ (t : List ℕ). c ∷ t) h

match_digits-Matched : (cs : List ℕ) → Matched cs (match_digits cs)
unfolding match_digits
match_digits-Matched [] = tt
match_digits-Matched (a ∷ []) = tt
match_digits-Matched (a ∷ b ∷ cs) = go (is_hex a && is_hex b)
  where
    go : (t : Bool) → Matched (a ∷ b ∷ cs) (if t then some (a ∷ b ∷ [], cs) else none)
    go true = refl
    go false = tt

match_packet-Matched : (cs : List ℕ) → Matched cs (match_packet cs)
unfolding match_packet
match_packet-Matched [] = tt
match_packet-Matched (c ∷ cs) = go (match_packet-Matched cs) (c == b'#') (c == b'$')
  where
    go :
        Matched cs (match_packet cs)
        → (t t' : Bool)
        → Matched (c ∷ cs) (
            if t
            then with_first c (match_digits cs)
            else if t'
            then none
            else with_first c (match_packet cs))
    go m true t' = with_first-Matched c cs (match_digits cs) (match_digits-Matched cs)
    go m false true = tt
    go m false false = with_first-Matched c cs (match_packet cs) m

-- The packet stands in the text.
abbrev pub Within : List ℕ → List ℕ → Type 0
Within packet text = (before : List ℕ) × (rest : List ℕ) × (text ≡ before ++ (packet ++ rest))

-- How the analysis of a packet in the text, by one of the tables, ends without a value.
abbrev pub FailsOn : (ℕ → Handlers) → List ℕ → Failure → Type 0
FailsOn handler text x =
    (k : ℕ) × (gdb : Gdb) × (packet : List ℕ) × Within packet text
    × (failure (gdb_packet_analysis (handler k) gdb packet) ≡ some x)

module _ (handler : ℕ → Handlers) (n : ℕ) (whole : List ℕ) where
  analysis-EndsOr :
      (gdb : Gdb) (packet : List ℕ)
      → Within packet whole
      → EndsOr
          (FailsOn handler whole)
          (λ (g : Gdb). Unit)
          (gdb_packet_analysis (handler n) gdb packet)
  analysis-EndsOr gdb packet inside = go (gdb_packet_analysis (handler n) gdb packet) refl
    where
      go :
          (o : Outcome Gdb)
          → gdb_packet_analysis (handler n) gdb packet ≡ o
          → EndsOr (FailsOn handler whole) (λ (g : Gdb). Unit) o
      go (ok g) e = inl (g, refl, tt)
      go undefined e = inr (leaves_block, refl, (n, gdb, packet, inside, ap failure e))
      go exited e = inr (exits, refl, (n, gdb, packet, inside, ap failure e))
      go unfinished e = inr (goes_on, refl, (n, gdb, packet, inside, ap failure e))

  -- After one rule: room for errors, and no more left than the characters `cs`, of which it is the end.
  abbrev GoesOn : List ℕ → ParserData × List ℕ → Type 0
  GoesOn cs r = HasRoom r.0 × (length r.1 ≤ length cs) × (taken : List ℕ) × (cs ≡ taken ++ r.1)

  packet_rule-EndsOr :
      (d : ParserData) (text : List ℕ)
      → HasRoom d
      → Within text whole
      → EndsOr (FailsOn handler whole) HasRoom (packet_rule (handler n) d text)
  unfolding packet_rule
  packet_rule-EndsOr d text h inside = EndsOr->>= (inl (handle_error-EndsWith d h)) (λ d' k.
      EndsOr->>= (analysis-EndsOr d'.gdb text inside)
        (λ g _. inl (record d' { gdb = g }, refl, omega arith)))

  dollar_rule-EndsOr :
      (before : List ℕ) (d : ParserData) (cs : List ℕ) (o : Option (List ℕ × List ℕ))
      → whole ≡ before ++ (b'$' ∷ cs)
      → HasRoom d
      → Shorter (length cs) o
      → Matched cs o
      → EndsOr (FailsOn handler whole) (GoesOn cs) (dollar_rule (handler n) d cs o)
  unfolding dollar_rule
  dollar_rule-EndsOr before d cs (some (text, rest)) w h s m =
      EndsOr->>=
        (packet_rule-EndsOr d (b'$' ∷ text) h
          (before, rest, w ∙ ap (λ (t : List ℕ). before ++ (b'$' ∷ t)) m))
        (λ d' k. inl ((d', rest), refl, (k, omega arith, text, m)))
  dollar_rule-EndsOr before d cs none w h s m =
      EndsOr->>= (inl (add_character_to_error-EndsWith d b'$' h))
        (λ d' k. inl ((d', cs), refl, (k, omega arith, [], refl)))

  rule-EndsOr :
      (before : List ℕ) (d : ParserData) (c : ℕ) (cs : List ℕ)
      → whole ≡ before ++ (c ∷ cs)
      → HasRoom d
      → EndsOr (FailsOn handler whole) (GoesOn cs) (rule (handler n) d c cs)
  unfolding rule
  rule-EndsOr before d c cs w h = elim (Bool-cases (c == b'+')) [
    | inl e ↦ rw e (
        EndsOr->>= (inl (handle_error-EndsWith d h))
          (λ d' k. inl ((d', cs), refl, (omega arith, omega arith, [], refl))))
    | inr e1 ↦ elim (Bool-cases (c == b'-')) [
      | inl e ↦
          rw (e1, e)
            (EndsOr->>= (inl (handle_error-EndsWith d h)) (λ d' k. inl (
              (record d' { gdb = gdb_transmit_packet d'.gdb }, cs),
              refl,
              (omega arith, omega arith, [], refl),
            )))
      | inr e2 ↦ elim (Bool-cases (c == b'$')) [
        | inl e ↦
            rw (e1, e2, e)
              (dollar_rule-EndsOr before d cs (match_packet cs)
                (w ∙ ap (λ (t : ℕ). before ++ (t ∷ cs)) ((==_iff c b'$').0 e)) h
                (match_packet-Shorter cs) (match_packet-Matched cs))
        | inr e3 ↦ elim (Bool-cases (c == 10)) [
          | inl e ↦ rw (e1, e2, e3, e) (inl ((d, cs), refl, (h, omega arith, [], refl)))
          | inr e4 ↦
              rw (e1, e2, e3, e4)
                (EndsOr->>= (inl (add_character_to_error-EndsWith d c h))
                  (λ d' k. inl ((d', cs), refl, (k, omega arith, [], refl))))
        ]
      ]
    ]
  ]

yylex_within :
    (handler : ℕ → Handlers) (whole before : List ℕ) (rounds : ℕ) (d : ParserData) (input : List ℕ)
    → whole ≡ before ++ input
    → HasRoom d
    → length input < rounds
    → EndsOr
        (FailsOn handler whole)
        (λ (d' : ParserData). length d'.buffer ≡ 0)
        (yylex handler rounds d input)
unfolding yylex
yylex_within handler whole before zero d input w h l = absurd (omega arith)
yylex_within handler whole before (suc rounds) d [] w h l = inl (handle_error-EndsWith d h)
yylex_within handler whole before (suc rounds) d (c ∷ cs) w h l =
    let shorter : length cs < rounds = unfold length in omega arith in
    EndsOr->>= (rule-EndsOr handler rounds whole before d c cs w h) (λ r k.
      yylex_within handler whole (before ++ (c ∷ k.2)) rounds r.0 r.1
        (w ∙ ap (λ (t : List ℕ). before ++ (c ∷ t)) k.3 ∙ sym (append_assoc before (c ∷ k.2) r.1))
        k.0 (omega arith))

-- Whatever the tables of handlers are, the scanner comes to the end of any input, in as many rounds as
-- the input has characters and one more, with no error pending, unless it ends without a value the way
-- the analysis of a packet in that input does: it does not run on for ever and its error buffer never
-- overflows.
pub yylex-EndsOr :
    (handler : ℕ → ℕ → Option (Gdb → List ℕ → Outcome Gdb)) (rounds : ℕ) (d : ParserData)
    (input : List ℕ)
    → HasRoom d
    → length input < rounds
    → EndsOr
        (FailsOn handler input)
        (λ (d' : ParserData). length d'.buffer ≡ 0)
        (yylex handler rounds d input)
yylex-EndsOr handler rounds d input h l = yylex_within handler input [] rounds d input refl h l
