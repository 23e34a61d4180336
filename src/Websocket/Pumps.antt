-- ===== src/Websocket/Pumps.antt =====
-- pkg/websocket/conn.go: the goroutines that read from and write to the socket of a connection. What
-- the socket does is a list: of what the reads give, and of the moves of the writer with whether its
-- writes succeed. Deadlines are part of that.
use mathlib.Core.List.{append-nil, append_assoc}
use online_game.Prelude.{
  ◌≡◌, refl, ◌⊎◌, inl, inr, Bool, true, Option, none, some, List, [], ◌∷◌, ◌++◌, length, ltb, arith,
  if◌then◌else◌, Option-cases,
}
use online_game.Websocket.Gateway.{WsMessage, Conn, send_json}

-- What `ReadMessage` gives; any error ends the pump.
pub data Read (B : Type 0) : Type 0 where
  message : B → Read B
  failed : Read B

module _ {B S : Type 0} (unmarshal : B → Option WsMessage) (on_message : WsMessage → S → S)
    (unregister : S → S) where
  abbrev handled : Option WsMessage → S → S
  handled none s = s
  handled (some m) s = on_message m s

  -- `ReadPump`, with what is left unread. `none`: the pump still waits when the list ends. Bytes that
  -- are no message are skipped.
  unfoldable pub read_pump : List (Read B) → S → Option (S × List (Read B))
  read_pump [] s = none
  read_pump (failed ∷ reads) s = some (unregister s, reads)
  read_pump (message bytes ∷ reads) s = read_pump reads (handled (unmarshal bytes) s)

  -- The messages among some bytes, handled in order.
  unfoldable pub handle_messages : List B → S → S
  handle_messages [] s = s
  handle_messages (bytes ∷ more) s = handle_messages more (handled (unmarshal bytes) s)

  abbrev pub messages : List B → List (Read B)
  messages [] = []
  messages (bytes ∷ more) = message bytes ∷ messages more

  -- The pump handles every message that comes before the first error of the socket, in order, then
  -- unregisters the connection once, and reads no more. Without an error it does not end.
  read_pump_lem :
      (before : List B) (after : List (Read B)) (s : S)
      → (read_pump (messages before ++ failed ∷ after) s
          ≡ some (unregister (handle_messages before s), after))
        × (read_pump (messages before) s ≡ none)
  unfolding read_pump handle_messages
  read_pump_lem [] after s = (refl, refl)
  read_pump_lem (bytes ∷ before) after s = read_pump_lem before after (handled (unmarshal bytes) s)

-- What is written: a payload, a ping, or the close message.
pub data Frame (B : Type 0) : Type 0 where
  text_frame : B → Frame B
  ping close : Frame B

-- The pump of a connection: what it has written, the payload whose write failed, and whether it has
-- returned. `send_closed` is whether the channel is closed.
pub record Writer (B : Type 0) : Type 0 where
  pub conn : Conn B
  pub send_closed : Bool
  pub written : List (Frame B)
  pub lost : List B
  pub ended : Bool

-- The gateway sends a payload, or the pump takes from the channel or hears its ticker and its write
-- succeeds or not.
pub data WriteEvent (B : Type 0) : Type 0 where
  offers : B → WriteEvent B
  takes ticks : Bool → WriteEvent B

List-cases : {A : Type 0} (xs : List A) → (xs ≡ []) ⊎ ((x : A) × (ys : List A) × (xs ≡ x ∷ ys))
List-cases [] = inl refl
List-cases (x ∷ xs) = inr (x, xs, refl)

snoc : {A : Type 0} (xs : List A) (x : A) (ys : List A) → (xs ++ x ∷ []) ++ ys ≡ xs ++ x ∷ ys
snoc xs x ys = append_assoc xs (x ∷ []) ys

module _ {B : Type 0} where
  abbrev wrote : Frame B → Bool → List B → Writer B → Writer B
  wrote frame ok lost w =
      if ok
      then record w { written = w.written ++ frame ∷ [] }
      else record w { lost = lost; ended = true }

  -- A closed and empty channel gives the close message, and the pump returns whatever becomes of it.
  abbrev take_from : List B → Bool → Writer B → Option (Writer B)
  take_from [] ok w =
      if w.send_closed then some (record (wrote close ok [] w) { ended = true }) else none
  take_from (payload ∷ more) ok w = some (
      wrote (text_frame payload) ok (payload ∷ [])
        (record w { conn = record w.conn { send = more } }))

  -- `none` where the pump cannot move so.
  unfoldable pub write_step : WriteEvent B → Writer B → Option (Writer B)
  unfolding send_json
  write_step (offers payload) w = some (record w { conn = send_json payload w.conn })
  write_step (takes ok) w = if w.ended then none else take_from w.conn.send ok w
  write_step (ticks ok) w = if w.ended then none else some (wrote ping ok [] w)

  unfoldable pub write_run : List (WriteEvent B) → Writer B → Option (Writer B)
  unfolding write_step
  write_run [] w = some w
  write_run (e ∷ es) w = elim (write_step e w) [ none ↦ none | some w' ↦ write_run es w' ]

  -- The payloads among the frames.
  abbrev pub payloads : List (Frame B) → List B
  payloads [] = []
  payloads (text_frame payload ∷ frames) = payload ∷ payloads frames
  payloads (ping ∷ frames) = payloads frames
  payloads (close ∷ frames) = payloads frames

  -- Everything handed over so far: written, lost or still in the channel.
  abbrev pub flow : Writer B → List B
  flow w = payloads w.written ++ w.lost ++ w.conn.send

  -- The payloads that the channel takes in a run.
  abbrev taken : WriteEvent B → Writer B → List B
  taken (offers payload) w =
      if w.conn.closed
      then []
      else if ltb (length w.conn.send) w.conn.send_cap
      then payload ∷ []
      else []
  taken (takes ok) w = []
  taken (ticks ok) w = []

  unfoldable pub accepted : List (WriteEvent B) → Writer B → List B
  unfolding write_step
  accepted [] w = []
  accepted (e ∷ es) w =
      taken e w ++ (elim (write_step e w) [ none ↦ [] | some w' ↦ accepted es w' ])

  -- Only a pump that has returned has lost a payload.
  abbrev pub Sound : Writer B → Type 0
  Sound w = (w.ended ≡ true) ⊎ (w.lost ≡ [])

  payloads-append : (xs ys : List (Frame B)) → payloads (xs ++ ys) ≡ payloads xs ++ payloads ys
  payloads-append [] ys = ground arith
  payloads-append (text_frame payload ∷ xs) ys =
      let rest = payloads-append xs ys in ground (arith, rest)
  payloads-append (ping ∷ xs) ys = payloads-append xs ys
  payloads-append (close ∷ xs) ys = payloads-append xs ys

  write_step-flow :
      (e : WriteEvent B) (w w' : Writer B)
      → write_step e w ≡ some w'
      → Sound w
      → Sound w' × (flow w' ≡ flow w ++ taken e w)
  unfolding write_step send_json
  write_step-flow (offers payload) w w' h sound = ground (
    arith,
    append-nil (flow w),
    append_assoc (payloads w.written ++ w.lost) w.conn.send (payload ∷ []),
  )
  write_step-flow (takes ok) w w' h sound = elim (List-cases w.conn.send) [
    | inl empty ↦ ground (
      arith,
      append-nil (flow w),
      append-nil (payloads w.written),
      payloads-append w.written (close ∷ []),
    )
    | inr (payload, more, waiting) ↦ ground (
      arith,
      append-nil (flow w),
      append-nil (payloads w.written),
      append-nil (payloads w.written ++ payload ∷ []),
      payloads-append w.written (text_frame payload ∷ []),
      append_assoc (payloads w.written) (payload ∷ []) more,
    )
  ]
  write_step-flow (ticks ok) w w' h sound = ground (
    arith,
    append-nil (flow w),
    append-nil (payloads w.written),
    payloads-append w.written (ping ∷ []),
  )

  -- In every run, what was written, what was lost and what is still in the channel are together the
  -- payloads that the channel has taken, in that order; and only a pump that has returned has lost one.
  pub write_run_in_order :
      (es : List (WriteEvent B)) (w w' : Writer B)
      → write_run es w ≡ some w'
      → Sound w
      → Sound w' × (flow w' ≡ flow w ++ accepted es w)
  unfolding write_run accepted
  write_run_in_order [] w w' h sound = ground (arith, append-nil (flow w))
  write_run_in_order (e ∷ es) w w' h sound = elim (Option-cases (write_step e w)) [
    | inl stuck ↦ ground (arith, stuck)
    | inr (next, moved) ↦
        let (kept, same) = write_step-flow e w next moved sound in
        let (last, rest) = write_run_in_order es next w' (ground (arith, moved)) kept in
        (
          last,
          ground (arith, moved, same, rest, append_assoc (flow w) (taken e w) (accepted es next)),
        )
  ]
