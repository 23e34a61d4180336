-- ===== src/ApiGateway/Copies.antt =====
-- What the WebSocket proxy of cmd/api-gateway/main.go copies, whichever goroutine runs first.
use mathlib.Core.List.{append-nil, append_assoc}
use online_game.Prelude.{
  ◌≡◌, refl, sym, ◌∙◌, ap, ◌⊎◌, inl, inr, true, false, List, [], ◌∷◌, ◌++◌, arith,
}
use online_game.ApiGateway.Sockets.{
  Read, message, broken, End, client, backend, Direction, Pair, proxy_ws_dir, copy_round,
  proxy_step, proxy_run, is_done,
}

module _ {M : Type 0} where
  -- What one direction meets in a history of both.
  abbrev of_client : List (End × Read M) → List (Read M)
  of_client [] = []
  of_client ((client, r) ∷ es) = r ∷ of_client es
  of_client ((backend, r) ∷ es) = of_client es

  abbrev of_backend : List (End × Read M) → List (Read M)
  of_backend [] = []
  of_backend ((client, r) ∷ es) = of_backend es
  of_backend ((backend, r) ∷ es) = r ∷ of_backend es

  -- The messages that a direction reads.
  abbrev pub messages : List (Read M) → List M
  messages [] = []
  messages (message m accepted ∷ reads) = m ∷ messages reads
  messages (broken ∷ reads) = messages reads

  abbrev pub rounds : List (Read M) → Direction M → Direction M
  unfolding copy_round
  rounds [] d = d
  rounds (r ∷ reads) d = rounds reads (copy_round r d)

  abbrev new_direction : Direction M
  new_direction = record { written = []; ended = false }

  abbrev pub new_pair : Pair M
  new_pair = record { from_client = new_direction; from_backend = new_direction }

  -- The directions do not disturb each other.
  proxy_run-rounds :
      (es : List (End × Read M)) (p : Pair M)
      → proxy_run es p ≡ record {
        from_client = rounds (of_client es) p.from_client;
        from_backend = rounds (of_backend es) p.from_backend;
      }
  unfolding proxy_run proxy_step
  proxy_run-rounds [] p = refl
  proxy_run-rounds ((client, r) ∷ es) p = proxy_run-rounds es _
  proxy_run-rounds ((backend, r) ∷ es) p = proxy_run-rounds es _

  rounds-ended :
      (reads : List (Read M)) (w : List M)
      → rounds reads (record { written = w; ended = true }) ≡ record { written = w; ended = true }
  unfolding copy_round
  rounds-ended [] w = refl
  rounds-ended (message m true ∷ reads) w = rounds-ended reads w
  rounds-ended (message m false ∷ reads) w = rounds-ended reads w
  rounds-ended (broken ∷ reads) w = rounds-ended reads w

  -- A direction whose goroutine has ended has written what `proxyWSDir` does; one that has not, has
  -- also written all that it has read.
  abbrev Copied : List (Read M) → List M → Direction M → Type 0
  Copied reads w d =
      (d.written ≡ w ++ proxy_ws_dir reads) × ((d.ended ≡ true) ⊎ (d.written ≡ w ++ messages reads))

  stopped :
      (reads : List (Read M)) (w all : List M)
      → ((rounds reads (record { written = w; ended = true })).written ≡ w ++ [])
        × (((rounds reads (record { written = w; ended = true })).ended ≡ true)
            ⊎ ((rounds reads (record { written = w; ended = true })).written ≡ all))
  stopped reads w all = (
    ap (λ d. d.written) (rounds-ended reads w) ∙ sym (append-nil w),
    inl (ap (λ d. d.ended) (rounds-ended reads w)),
  )

  rounds-Copied :
      (reads : List (Read M)) (w : List M)
      → Copied reads w (rounds reads (record { written = w; ended = false }))
  unfolding copy_round proxy_ws_dir
  rounds-Copied [] w = (sym (append-nil w), inr (sym (append-nil w)))
  rounds-Copied (message m true ∷ reads) w =
      let (written, all) = rounds-Copied reads (w ++ m ∷ []) in
      (
        written ∙ append_assoc w (m ∷ []) (proxy_ws_dir reads),
        elim all [
          | inl over ↦ inl over
          | inr same ↦ inr (same ∙ append_assoc w (m ∷ []) (messages reads))
        ],
      )
  rounds-Copied (message m false ∷ reads) w = stopped reads w _
  rounds-Copied (broken ∷ reads) w = stopped reads w _

  -- In any interleaving of the two goroutines, what each direction has written is what `proxyWSDir`
  -- writes of what that direction has met, whatever the other does; and the handler still waits only
  -- if each direction has written all that it has read, in order.
  pub proxy_run_lem :
      (es : List (End × Read M))
      → let p = proxy_run es new_pair in
        (p.from_client.written ≡ proxy_ws_dir (of_client es))
        × (p.from_backend.written ≡ proxy_ws_dir (of_backend es))
        × ((is_done p ≡ true)
            ⊎ ((p.from_client.written ≡ messages (of_client es))
                × (p.from_backend.written ≡ messages (of_backend es))))
  unfolding is_done
  proxy_run_lem es =
      let (sent, all_sent) = rounds-Copied (of_client es) [] in
      let (told, all_told) = rounds-Copied (of_backend es) [] in
      rw proxy_run-rounds (
        sent,
        told,
        elim all_sent [
          | inl over ↦ inl (ground (arith, over))
          | inr all ↦ elim all_told [
            | inl over ↦ inl (ground (arith, over))
            | inr both ↦ inr (all, both)
          ]
        ],
      )
