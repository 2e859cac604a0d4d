-- ===== src/Scanner/Stream.antt =====
-- What the scanner does with a stream of characters.
use projet_prog.Base.{
  ℕ, suc, ◌/◌, ◌%◌, ◌^◌, ◌<◌, ◌≡◌, ◌≢◌, refl, ap, ◌∙◌, arith, ==_ne, List, [], ◌∷◌, ◌++◌, Option,
  some, Outcome, ok, undefined, exited, unfinished, ◌>>=◌,
}
use projet_prog.Text.{sum, print_byte, digit_value-hex_digit}
use projet_prog.Gdb.{Gdb, framed, gdb_send_ack, run_request, gdb_packet_analysis}
use projet_prog.Gdb.RoundTrip.{checksum_ok-framed}
use projet_prog.Scanner.{
  ParserData, handle_error, match_digits, match_packet, packet_rule, dollar_rule, rule, yylex,
}

abbrev Handlers : Type 0
Handlers = ℕ → Option (Gdb → List ℕ → Outcome Gdb)

-- Without the characters that begin and end a packet.
abbrev pub IsPlain : List ℕ → Type 0
IsPlain [] = Unit
IsPlain (c ∷ cs) = ((c ≢ b'$') × (c ≢ b'#')) × IsPlain cs

match_digits-print_byte :
    (v : ℕ) (rest : List ℕ)
    → v < 2 ^ 8
    → match_digits (print_byte v ++ rest) ≡ some (print_byte v, rest)
unfolding match_digits print_byte
match_digits-print_byte v rest h = ground (
  arith,
  digit_value-hex_digit (v / 16) (omega arith),
  digit_value-hex_digit (v % 16) (omega arith),
)

match_packet-framed :
    (data' rest : List ℕ) (v : ℕ)
    → v < 2 ^ 8
    → IsPlain data'
    → match_packet ((data' ++ (b'#' ∷ print_byte v)) ++ rest)
      ≡ some (data' ++ (b'#' ∷ print_byte v), rest)
unfolding match_packet
match_packet-framed [] rest v h p = rw (match_digits-print_byte v rest h)
match_packet-framed (c ∷ cs) rest v h p =
    rw (==_ne c b'#' p.0.1, ==_ne c b'$' p.0.0, match_packet-framed cs rest v h p.1)

gdb_packet_analysis-framed :
    (handler : Handlers) (gdb : Gdb) (data' : List ℕ)
    → gdb_packet_analysis handler gdb (framed data') ≡ run_request handler (gdb_send_ack gdb) data'
unfolding gdb_packet_analysis
gdb_packet_analysis-framed handler gdb data' = let c = checksum_ok-framed data' in rw (c.0, c.1)

-- The rule's sequence of calls, and the scan of the rest, on the end of the request.
request_then :
    (r : Outcome Gdb) (d : ParserData) (rest : List ℕ)
    (scan : ParserData × List ℕ → Outcome ParserData)
    → (((r >>= λ g. ok (record d { gdb = g })) >>= λ d. ok (d, rest)) >>= scan)
      ≡ (r >>= λ g. scan (record d { gdb = g }, rest))
request_then (ok g) d rest scan = refl
request_then undefined d rest scan = refl
request_then exited d rest scan = refl
request_then unfinished d rest scan = refl

packet_then :
    (handler : Handlers) (o : Outcome ParserData) (data' rest : List ℕ)
    (scan : ParserData × List ℕ → Outcome ParserData)
    → (((o >>= λ d.
            gdb_packet_analysis handler d.gdb (framed data') >>= λ g. ok (record d { gdb = g }))
          >>= λ d. ok (d, rest))
        >>= scan)
      ≡ (o >>= λ d.
          run_request handler (gdb_send_ack d.gdb) data' >>= λ g. scan (record d { gdb = g }, rest))
packet_then handler (ok d) data' rest scan =
    rw (gdb_packet_analysis-framed handler d.gdb data')
      (request_then (run_request handler (gdb_send_ack d.gdb) data') d rest scan)
packet_then handler undefined data' rest scan = refl
packet_then handler exited data' rest scan = refl
packet_then handler unfinished data' rest scan = refl

-- A request that is framed the way the server frames its answers is taken out of the stream and run,
-- after what stood before it is dealt with, and then the rest of the stream.
pub yylex-framed :
    (handler : ℕ → ℕ → Option (Gdb → List ℕ → Outcome Gdb)) (rounds : ℕ) (p : ParserData)
    (data' rest : List ℕ)
    → IsPlain data'
    → yylex handler (suc rounds) p (framed data' ++ rest) ≡ (
        handle_error p >>= λ d. run_request (handler rounds) (gdb_send_ack d.gdb) data' >>= λ g.
        yylex handler rounds (record d { gdb = g }) rest)
unfolding yylex rule dollar_rule packet_rule framed
yylex-framed handler rounds p data' rest h =
    first ∙ packet_then (handler rounds) (handle_error p) data' rest scan
  where
    scan : ParserData × List ℕ → Outcome ParserData
    scan r = yylex handler rounds r.0 r.1

    text : List ℕ
    text = data' ++ (b'#' ∷ print_byte (sum data' % 2 ^ 8))

    first :
        yylex handler (suc rounds) p (framed data' ++ rest)
        ≡ ((packet_rule (handler rounds) p (framed data') >>= λ d. ok (d, rest)) >>= scan)
    first =
        ap
          (λ (o : Option (List ℕ × List ℕ)).
            dollar_rule (handler rounds) p (text ++ rest) o >>= scan)
          (match_packet-framed data' rest (sum data' % 2 ^ 8) (omega arith) h)
