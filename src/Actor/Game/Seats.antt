-- ===== src/Actor/Game/Seats.antt =====
-- Who sits in a room: what joining, leaving and getting ready do on every branch.
use online_game.Prelude.{
  ◌≤◌, String, ◌≡◌, ◌≢◌, ◌⊎◌, inl, inr, true, false, none, some, [], ◌∷◌, ◌++◌, arith,
  if◌then◌else◌, Option-cases, length,
}
use online_game.Prelude.Dict.{lookup, delete, has_key, lookup-insert, lookup-delete}
use online_game.Prelude.Equality.{◌==◌, string_eq}
use online_game.Prelude.Int.{pos, pos_part, leb_ℤ}
use online_game.Actor.Message.{Message, PlayerJoinData, player_join_data}
use online_game.Actor.Mailbox.{ok, state_of}
use online_game.Actor.Game.{
  PlayerState, send_to, update_room_status, EngineInterface, GameActor, Environment, emit, trigger,
}
use online_game.Actor.Game.Membership.{
  error_data, newcomer, joined, join_with, left, transfer_owner, close_if_empty, handle_player_join,
  handle_player_leave,
}
use online_game.Actor.Game.Invariant.{first_key_lem}

module _ {E : Type 0} (engine : EngineInterface E) (env : Environment) where
  joined_lem :
      (msg : Message) (info : PlayerJoinData) (ga : GameActor E) (j : String)
      → lookup j (joined engine env msg info ga).players
        ≡ (if msg.player_id == j then some (newcomer env msg info) else lookup j ga.players)
  unfolding joined trigger
  joined_lem msg info ga j =
      ground (arith, lookup-insert msg.player_id j (newcomer env msg info) ga.players)

  -- A join message with its data seats the player, not ready, exactly when no game is on, the room
  -- has a free seat and the player has none; every other seat stays as it was, and otherwise all do.
  pub handle_player_join_lem :
      (msg : Message) (info : PlayerJoinData) (ga : GameActor E) (j : String)
      → msg.payload ≡ player_join_data info
      → lookup j (state_of (handle_player_join engine env msg ga)).players ≡ (
          if ga.is_playing
          then lookup j ga.players
          else if leb_ℤ ga.max_players (pos (length ga.players))
          then lookup j ga.players
          else if has_key msg.player_id ga.players
          then lookup j ga.players
          else if msg.player_id == j
          then some (newcomer env msg info)
          else lookup j ga.players)
  unfolding handle_player_join join_with
  handle_player_join_lem msg info ga j e = ground (arith, e, joined_lem msg info ga j)

  -- A join that is refused, because a game is on or the room is full, sends the player the code of
  -- the reason and changes nothing else; and a room that is full refuses its own players too.
  pub join_refused :
      (msg : Message) (ga : GameActor E)
      → (ga.is_playing ≡ true) ⊎ (pos_part ga.max_players ≤ length ga.players)
      → handle_player_join engine env msg ga
        ≡ ok (
            emit
              (send_to msg.player_id "error"
                (if ga.is_playing then error_data 46402 "游戏进行中，无法加入" else error_data 46901 "房间已满"))
              ga)
  unfolding handle_player_join
  join_refused msg ga h = ground arith

  left_lem :
      (msg : Message) (p : PlayerState) (ga : GameActor E) (j : String)
      → lookup j (left engine env msg p ga).players
        ≡ (if msg.player_id == j then none else lookup j ga.players)
  unfolding left trigger transfer_owner close_if_empty
  left_lem msg p ga j = ground (arith, lookup-delete msg.player_id j ga.players)

  -- A leave message frees the player's seat and no other.
  handle_player_leave_lem :
      (msg : Message) (ga : GameActor E) (j : String)
      → lookup j (state_of (handle_player_leave engine env msg ga)).players
        ≡ (if msg.player_id == j then none else lookup j ga.players)
  unfolding handle_player_leave
  handle_player_leave_lem msg ga j = elim (Option-cases (lookup msg.player_id ga.players)) [
    | inl missing ↦ ground (arith, missing, string_eq.decides msg.player_id j)
    | inr (p, found) ↦ ground (arith, found, left_lem msg p ga j)
  ]

  left-owner :
      (msg : Message) (p : PlayerState) (ga : GameActor E)
      → let after = left engine env msg p ga in
        ((ga.owner_id ≢ msg.player_id) × (after.owner_id ≡ ga.owner_id))
        ⊎ (((ga.owner_id ≡ msg.player_id)
              × (length after.players ≡ 0)
              × (after.owner_id ≡ ga.owner_id))
            ⊎ ((ga.owner_id ≡ msg.player_id) × (has_key after.owner_id after.players ≡ true)))
  unfolding left trigger transfer_owner close_if_empty
  left-owner msg p ga =
      let gone = delete msg.player_id ga.players in
      ground (
        arith,
        first_key_lem (env.first msg gone) gone,
        string_eq.decides ga.owner_id msg.player_id,
      )

  -- When a player leaves, another player's ownership stays; an owner who leaves is followed by a
  -- player who still sits in the room, unless nobody does.
  pub handle_player_leave-owner :
      (msg : Message) (p : PlayerState) (ga : GameActor E)
      → lookup msg.player_id ga.players ≡ some p
      → let after = state_of (handle_player_leave engine env msg ga) in
        ((ga.owner_id ≢ msg.player_id) × (after.owner_id ≡ ga.owner_id))
        ⊎ (((ga.owner_id ≡ msg.player_id)
              × (length after.players ≡ 0)
              × (after.owner_id ≡ ga.owner_id))
            ⊎ ((ga.owner_id ≡ msg.player_id) × (has_key after.owner_id after.players ≡ true)))
  unfolding handle_player_leave
  handle_player_leave-owner msg p ga found = rw (found, handle_player_leave) (left-owner msg p ga)

  close_if_empty_lem :
      (ga : GameActor E)
      → ((length ga.players ≡ 0)
          × (ga.is_playing ≡ false)
          × ((close_if_empty engine env ga).effects
              ≡ ga.effects ++ update_room_status ga.room_id "closed" ∷ []))
        ⊎ (((length ga.players ≢ 0) ⊎ (ga.is_playing ≡ true)) × (close_if_empty engine env ga ≡ ga))
  unfolding close_if_empty
  close_if_empty_lem ga = ground arith
