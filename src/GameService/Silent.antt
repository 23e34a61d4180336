-- ===== src/GameService/Silent.antt =====
-- What never reaches a player: the chat of internal/game/service.go, and the hooks of a room's
-- engine, which `createGameActor` makes without a script.
use online_game.Prelude.{
  ℕ, String, ◌≡◌, refl, ◌∙◌, ap, Bool, true, ◌&&◌, Option, none, some, List, [], ◌∷◌, arith,
}
use online_game.Prelude.Dict.{lookup}
use online_game.Prelude.Equality.{string_eq}
use online_game.Prelude.Int.{ℤ, pos}
use online_game.Prelude.Value.{Value, nil, object, as_string, value_at}
use online_game.Actor.Message.{Message, Payload}
use online_game.Actor.Mailbox.{state_of}
use online_game.Actor.Game.{GameActor, new_room}
use online_game.Actor.Game.Quiet.{
  RoomHook, hook_name, keeps_engine, bare, Armed, Quiet, handle_message-Follows,
}
use online_game.Engine.{GojaEngine, RoomAdapter}
use online_game.Engine.Goja.{
  trigger_hook, run_hook, new_goja_engine, init, set_timer_callback, engine_interface,
}
use online_game.Websocket.Gateway.{WsMessage, Gateway, broadcast_to_room}
use online_game.Websocket.Gateway.Registry.{IsValid}
use online_game.GameService.{Game, Libraries, Service}
use online_game.GameService.Rooms.{room_engine, room_cfg}
use online_game.GameService.Sockets.{chat_data, route_ws_message, room_adapter}
use online_game.GameService.World.{Runner, room_handler}

broadcast_unknown :
    {B : Type 0} (marshal : WsMessage → B) (now : ℕ) (room_id event : String) (details : Value)
    (g : Gateway B)
    → lookup room_id g.rooms ≡ none
    → broadcast_to_room marshal now room_id event details g ≡ g
unfolding broadcast_to_room
broadcast_unknown marshal now room_id event details g unknown = ground (arith, unknown)

module _ {D C V B : Type 0} (libs : Libraries D C V) where
  -- A chat message over the WebSocket changes nothing and reaches no one: it is sent to the room
  -- without a name, and no connection is ever in that room.
  pub chat_unheard :
      (marshal : WsMessage → B) (now now_ms : ℕ) (actor_id player_id : String) (msg : WsMessage)
      (s : Service D C V B)
      → IsValid s.ws_gateway
      → msg.kind ≡ "chat"
      → route_ws_message libs marshal now now_ms actor_id player_id msg s ≡ s
  unfolding route_ws_message
  chat_unheard marshal now now_ms actor_id player_id msg s valid chat = rw chat (
      rw
        (broadcast_unknown marshal now_ms "" "chat"
          (chat_data libs marshal player_id (as_string (value_at "message" msg.payload)))
          s.ws_gateway valid.nameless)
        refl)

-- An engine with its first machine, on which no script has had any effect.
abbrev Untouched : {V : Type 0} → V → GojaEngine V → Type 0
Untouched v e = (e.vm ≡ some v) × (e.state ≡ object []) × (e.stats.error_count ≡ 0)

module _ {D C V : Type 0} (libs : Libraries D C V) (room : RoomAdapter) (text : ℤ → String)
    (v : V) where
  silent_hook :
      (elapsed : ℕ) (name : String) (args : List Payload) (e : GojaEngine V)
      → libs.runtime.hook name v ≡ none
      → Untouched v e
      → let r = trigger_hook libs.runtime room libs.number text elapsed name args e in
        Untouched v r.0 × (r.1 ≡ []) × (r.2 ≡ record { value = nil; error = none })
  unfolding trigger_hook run_hook
  silent_hook elapsed name args e no_hook (on, empty, clean) =
      rw (on, no_hook) ((refl, empty, omega (arith, clean)), refl, refl)

  silent-Quiet :
      (elapsed : String → List Payload → GojaEngine V → ℕ) (order : GojaEngine V → List ℕ)
      → ((h : RoomHook) → libs.runtime.hook (hook_name h) v ≡ none)
      → Quiet (Untouched v) (engine_interface libs.runtime room libs.number text elapsed order)
  unfolding engine_interface
  silent-Quiet elapsed order no_hook = record {
    sent = λ h args e u.
        (silent_hook (elapsed (hook_name h) args e) (hook_name h) args e (no_hook h) u).1;
    error = λ h args e u.
        ap (λ q. q.error)
          (silent_hook (elapsed (hook_name h) args e) (hook_name h) args e (no_hook h) u).2;
    stays = λ h args e u.
        (silent_hook (elapsed (hook_name h) args e) (hook_name h) args e (no_hook h) u).0;
  }

module _ {D C V : Type 0} (libs : Libraries D C V) (text : ℤ → String) where
  -- What a room makes of messages, each with what the runtime decides and the database at that time.
  unfoldable pub hear :
      List (Runner V × D × Message) → GameActor (GojaEngine V) → GameActor (GojaEngine V)
  unfolding room_handler
  hear [] ga = ga
  hear ((r, db, m) ∷ ms) ga = hear ms (state_of (room_handler libs text r db m ga))

  abbrev pub no_shutdown : List (Runner V × D × Message) → Bool
  no_shutdown [] = true
  no_shutdown ((r, db, m) ∷ ms) = keeps_engine m.kind && no_shutdown ms

  engine-on :
      (v : V) (o : Option (GojaEngine V))
      → Armed (Untouched v) o
      → (e : GojaEngine V) × (o ≡ some e) × (e.state ≡ object []) × (e.stats.error_count ≡ 0)
  engine-on v none armed = absurd armed
  engine-on v (some e) (on, empty, clean) = (e, refl, empty, clean)

  hear-bare :
      (v : V) (ms : List (Runner V × D × Message)) (ga : GameActor (GojaEngine V))
      → ((h : RoomHook) → libs.runtime.hook (hook_name h) v ≡ none)
      → no_shutdown ms ≡ true
      → Armed (Untouched v) ga.engine
      → (bare (hear ms ga) ≡ hear ms (bare ga)) × Armed (Untouched v) (hear ms ga).engine
  unfolding hear room_handler
  hear-bare v [] ga no_hook lasting armed = (refl, armed)
  hear-bare v ((r, db, m) ∷ ms) ga no_hook lasting armed =
      let (same, still) =
        handle_message-Follows (Untouched v)
          (engine_interface libs.runtime (room_adapter libs db) libs.number text r.elapsed r.order)
          (silent-Quiet libs (room_adapter libs db) text v r.elapsed r.order no_hook) r.env m ga
          (ground (arith, lasting)) armed in
      let (all, last) = hear-bare v ms _ no_hook (ground (arith, lasting)) still in
      (all ∙ ap (hear ms) same, last)

  -- If a new machine defines none of the eight hooks that a room's actor calls, whatever else it
  -- defines, then a room that the service has made does, on any messages but a shutdown and whatever the
  -- runtime decides, exactly what a room without an engine does, and its engine is as untouched as at the
  -- start: no error is counted and the state of the script is empty.
  pub room_unscripted :
      (now : ℕ) (game : Game) (room_id : String) (max : ℤ) (ms : List (Runner V × D × Message))
      → ((h : RoomHook) → libs.runtime.hook (hook_name h) (libs.runtime.new_vm (pos 100)) ≡ none)
      → no_shutdown ms ≡ true
      → let fresh = new_room (room_cfg libs now game room_id max) now in
        (bare (hear ms fresh) ≡ hear ms (bare fresh))
        × ((e : GojaEngine V) × ((hear ms fresh).engine ≡ some e)
            × (e.state ≡ object [])
            × (e.stats.error_count ≡ 0))
  unfolding room_engine new_goja_engine init set_timer_callback new_room room_cfg
  room_unscripted now game room_id max ms no_hook lasting =
      let v = libs.runtime.new_vm (pos 100) in
      let (same, still) =
        hear-bare v ms (new_room (room_cfg libs now game room_id max) now) no_hook lasting
          (refl, refl, refl) in
      (same, engine-on v _ still)
