-- ===== src/Actor/Game/Membership.antt =====
-- pkg/actor/game_actor.go: players join, leave and get ready.
use online_game.Prelude.{
  ℕ, ◌%◌, String, true, false, Option, none, some, [], ◌∷◌, ◌&&◌, not, length, all, get_elem?,
  if◌then◌else◌, nat_beq,
}
use online_game.Prelude.Dict.{Dict, lookup, insert, delete, has_key, keys, values}
use online_game.Prelude.Equality.{◌==◌, string_eq}
use online_game.Prelude.Int.{ℤ, pos, leb_ℤ}
use online_game.Prelude.Text.{concat}
use online_game.Prelude.Value.{Value, int, str, object}
use online_game.Actor.Message.{
  PlayerJoinData, Payload, player_join_data, player_leave_data, value, Message,
}
use online_game.Actor.Mailbox.{Handled, ok, failed}
use online_game.Actor.Game.{
  PlayerState, broadcast_to_room, send_to, update_room_status, EngineInterface, GameActor,
  Environment, emit, trigger,
}

-- The payload of an "error" event.
abbrev pub error_data : ℕ → String → Value
error_data code message = object (("code", int (pos code)) ∷ ("message", str message) ∷ [])

-- The room message that tells of a new player.
abbrev pub join_data : String → PlayerJoinData → ℕ → ℤ → Value
join_data player_id info count max = object (
    ("playerId", str player_id)
    ∷ ("nickname", str info.nickname)
    ∷ ("avatar", str info.avatar)
    ∷ ("playerCount", int (pos count))
    ∷ ("maxPlayers", int max)
    ∷ [])

-- The reason of a leave message, "voluntary" for any other payload.
abbrev pub leave_reason : Payload → String
leave_reason (player_leave_data d) = d.reason
leave_reason p = "voluntary"

-- The state of a player who joins.
abbrev pub newcomer : Environment → Message → PlayerJoinData → PlayerState
newcomer env msg info = record {
  id = msg.player_id;
  nickname = info.nickname;
  avatar = info.avatar;
  is_ready = false;
  is_online = true;
  joined_at = env.now msg;
  metadata = info.metadata;
}

-- The key at which the iteration over a map begins; none for an empty map.
abbrev pub first_key : ℕ → Dict String PlayerState → Option String
first_key n m = get_elem? (keys m) (n % length m)

module _ {E : Type 0} (engine : EngineInterface E) (env : Environment) where
  unfoldable pub joined : Message → PlayerJoinData → GameActor E → GameActor E
  unfolding trigger
  joined msg info ga =
      let owner = if nat_beq (length ga.players) 0 then msg.player_id else ga.owner_id in
      let seated = record ga {
        owner_id = owner;
        players = insert msg.player_id (newcomer env msg info) ga.players;
      } in
      let told =
        trigger engine "onPlayerJoin"
          (value (str msg.player_id)
            ∷ value (object (("nickname", str info.nickname) ∷ ("avatar", str info.avatar) ∷ []))
            ∷ [])
          seated in
      emit
        (broadcast_to_room ga.room_id "player_join"
          (join_data msg.player_id info (length seated.players) ga.max_players))
        told.0

  unfoldable pub join_with : Payload → Message → GameActor E → Handled (GameActor E)
  unfolding joined
  join_with (player_join_data info) msg ga = ok (joined msg info ga)
  join_with p msg ga =
      failed ga (concat ("invalid PlayerJoinData for player " ∷ msg.player_id ∷ []))

  unfoldable pub handle_player_join : Message → GameActor E → Handled (GameActor E)
  handle_player_join msg ga =
      if ga.is_playing
      then ok (emit (send_to msg.player_id "error" (error_data 46402 "游戏进行中，无法加入")) ga)
      else if leb_ℤ ga.max_players (pos (length ga.players))
      then ok (emit (send_to msg.player_id "error" (error_data 46901 "房间已满")) ga)
      else if has_key msg.player_id ga.players
      then ok ga
      else join_with msg.payload msg ga

  -- The owner's leave hands the room to the player at whom the iteration begins.
  unfoldable pub transfer_owner : Message → GameActor E → GameActor E
  transfer_owner msg ga =
      if ga.owner_id == msg.player_id
      then elim (first_key (env.first msg ga.players) ga.players) [
        | none ↦ ga
        | some pid ↦
            emit
              (broadcast_to_room ga.room_id "owner_change" (object (("newOwnerId", str pid) ∷ [])))
              (record ga { owner_id = pid })
      ]
      else ga

  unfoldable pub close_if_empty : GameActor E → GameActor E
  close_if_empty ga =
      if nat_beq (length ga.players) 0 && not ga.is_playing
      then emit (update_room_status ga.room_id "closed") ga
      else ga

  unfoldable pub left : Message → PlayerState → GameActor E → GameActor E
  unfolding trigger
  left msg player ga =
      let reason = leave_reason msg.payload in
      let gone = record ga { players = delete msg.player_id ga.players } in
      let told =
        trigger engine "onPlayerLeave" (value (str msg.player_id) ∷ value (str reason) ∷ []) gone in
      close_if_empty (
        transfer_owner msg (
          emit
            (broadcast_to_room ga.room_id "player_leave" (
              object (
                ("playerId", str msg.player_id)
                ∷ ("nickname", str player.nickname)
                ∷ ("reason", str reason)
                ∷ [])))
            told.0))

  unfoldable pub handle_player_leave : Message → GameActor E → Handled (GameActor E)
  handle_player_leave msg ga = elim (lookup msg.player_id ga.players) [
    | none ↦ ok ga
    | some player ↦ ok (left msg player ga)
  ]

  unfoldable pub announce_all_ready : GameActor E → GameActor E
  announce_all_ready ga =
      if all (λ p. p.is_ready) (values ga.players)
      then emit
          (broadcast_to_room ga.room_id "all_ready"
            (object (("playerCount", int (pos (length ga.players))) ∷ [])))
          ga
      else ga

  unfoldable pub handle_player_ready : Message → GameActor E → Handled (GameActor E)
  handle_player_ready msg ga = elim (lookup msg.player_id ga.players) [
    | none ↦ ok ga
    | some player ↦ ok (
        announce_all_ready (
          emit
            (broadcast_to_room ga.room_id "player_ready"
              (object (("playerId", str msg.player_id) ∷ [])))
            (record ga {
              players = insert msg.player_id (record player { is_ready = true }) ga.players;
            })))
  ]
