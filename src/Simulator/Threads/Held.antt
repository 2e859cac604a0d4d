-- ===== src/Simulator/Threads/Held.antt =====
-- What the server is between two of its moves, and what the moves that end a request make of it.
use projet_prog.Base.{
  ℕ, ◌≡◌, refl, sym, ap, ◌∙◌, Bool, true, false, List, [], ◌∷◌, Option, none, some, Outcome, ok,
}
use projet_prog.Word.{Host}
use projet_prog.Core.{Core}
use projet_prog.LoadStore.Valid.{UnsetWords}
use projet_prog.Text.{length}
use projet_prog.Gdb.{
  Gdb, framed, gdb_send_ack, gdb_send_data, gdb_send_buffer, gdb_transmit_packet,
  gdb_require_retransmission, payload, checksum_ok, run_request, gdb_packet_analysis,
}
use projet_prog.Gdb.Requests.{gdb_init}
use projet_prog.Gdb.Safety.{Serves, packet}
use projet_prog.Simulator.Threads.{
  Request, find_handler, applied, GdbThread, waiting, requested, serving, served, handler_of,
}

-- A request by what the table has for it.
abbrev run_found : Gdb → Option (Gdb → Outcome Gdb) → Outcome Gdb
run_found gdb none = gdb_send_data gdb []
run_found gdb (some h) = h gdb

run_request-find_handler :
    (handler : ℕ → Option (Gdb → List ℕ → Outcome Gdb)) (gdb : Gdb) (text : List ℕ)
    → run_request handler gdb text ≡ run_found gdb (find_handler handler text)
unfolding run_request find_handler
run_request-find_handler handler gdb [] = refl
run_request-find_handler handler gdb (index ∷ data') = go (handler index)
  where
    go :
        (o : Option (Gdb → List ℕ → Outcome Gdb))
        → (elim o [ none ↦ gdb_send_data gdb [] | some h ↦ h gdb data' ])
          ≡ run_found gdb (applied data' o)
    go none = refl
    go (some h) = refl

module _ (host : Host) (big : Bool) (first : Gdb) where
  -- The server's analysis of a packet whose sum is right.
  analysis-found :
      (r : Request) (gdb : Gdb)
      → checksum_ok r.text ≡ true
      → gdb_packet_analysis (gdb_init host big r.unset r.rounds r.locals) gdb r.text
        ≡ run_found (gdb_send_ack gdb) (handler_of host big r)
  unfolding gdb_packet_analysis
  analysis-found r gdb c = rw c (run_request-find_handler _ (gdb_send_ack gdb) (payload r.text))

  -- The server on a processor.
  abbrev pub Served : Gdb → Core → Type 0
  Served gdb p = Serves host big first (record gdb { arm = p })

  -- A request that is acknowledged, and that the server without that has yet to take.
  abbrev pub Acknowledged : Request → Gdb → Core → Type 0
  Acknowledged r gdb p =
      (g : Gdb) × (gdb ≡ gdb_send_ack g)
      × Served g p
      × ((n : ℕ) → UnsetWords (r.unset n))
      × (checksum_ok r.text ≡ true)

  abbrev pub Held : Gdb → GdbThread → Core → Type 0
  Held gdb waiting p = Served gdb p
  Held gdb (requested r) p = Acknowledged r gdb p
  Held gdb (serving r q) p = (q ≡ p) × Acknowledged r gdb p
  Held gdb served p = Served gdb p

  pub unsupported-Served :
      (r : Request) (gdb gdb' : Gdb) (p : Core)
      → ((n : ℕ) → UnsetWords (r.unset n))
      → checksum_ok r.text ≡ true
      → handler_of host big r ≡ none
      → gdb_send_data (gdb_send_ack gdb) [] ≡ ok gdb'
      → Served gdb p
      → Served gdb' p
  unfolding gdb_send_buffer gdb_transmit_packet length
  unsupported-Served r gdb gdb' p u c n e s = packet r.unset r.rounds r.locals r.text s u (
      analysis-found r (record gdb { arm = p }) c
      ∙ ap (run_found _) n
      ∙ (let same : gdb_transmit_packet (record (gdb_send_ack gdb) { packet = framed [] }) ≡ gdb' =
            cc in
          ap (λ (g : Gdb). ok (record g { arm = p })) same))

  pub wrong_sum-Served :
      (r : Request) (gdb : Gdb) (p : Core)
      → ((n : ℕ) → UnsetWords (r.unset n))
      → checksum_ok r.text ≡ false
      → Served gdb p
      → Served (gdb_require_retransmission gdb) p
  unfolding gdb_packet_analysis
  wrong_sum-Served r gdb p u c s = packet r.unset r.rounds r.locals r.text s u (rw c refl)

  pub handle-Served :
      (r : Request) (gdb gdb' : Gdb) (p : Core) {h : Gdb → Outcome Gdb}
      → handler_of host big r ≡ some h
      → h (record gdb { arm = p }) ≡ ok gdb'
      → Acknowledged r gdb p
      → Serves host big first gdb'
  handle-Served r gdb gdb' p {h} n e (g, a, s, u, c) = packet r.unset r.rounds r.locals r.text s u (
      analysis-found r (record g { arm = p }) c
      ∙ ap (run_found _) n
      ∙ ap h (ap (λ (x : Gdb). record x { arm = p }) (sym a))
      ∙ e)
