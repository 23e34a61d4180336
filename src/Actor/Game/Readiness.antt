-- ===== src/Actor/Game/Readiness.antt =====
-- Getting ready: the room is told that all are ready exactly when every player in it is.
use mathlib.Core.List.{append_assoc}
use online_game.Prelude.{
  String, ◌≡◌, refl, true, some, [], ◌∷◌, ◌++◌, arith, if◌then◌else◌, length, all, none, Bool-cases,
  ◌⊎◌, inl, inr,
}
use online_game.Prelude.Dict.{
  Dict, lookup, insert, values, UniqueKeys, UniqueKeys-insert, lookup-insert,
}
use online_game.Prelude.Equality.{◌==◌, string_eq}
use online_game.Prelude.Int.{pos}
use online_game.Prelude.Value.{str, int, object}
use online_game.Actor.Message.{Message}
use online_game.Actor.Mailbox.{state_of}
use online_game.Actor.Game.{
  PlayerState, broadcast_to_room, EngineInterface, GameActor, Environment, emit,
}
use online_game.Actor.Game.Membership.{announce_all_ready, handle_player_ready}
use online_game.Actor.Game.Invariant.{IsValid}

-- Everyone who sits in the room is ready.
abbrev pub AllReady : Dict String PlayerState → Type 0
AllReady m = (j : String) (p : PlayerState) → lookup j m ≡ some p → p.is_ready ≡ true

AllReady-sound :
    (m : Dict String PlayerState) → all (λ p. p.is_ready) (values m) ≡ true → AllReady m
unfolding lookup
AllReady-sound [] h j p e = cc
AllReady-sound ((k, q) ∷ m) h j p e = ground (arith, AllReady-sound m (ground arith) j p)

lookup_later :
    (k j : String) (q p : PlayerState) (m : Dict String PlayerState)
    → lookup k m ≡ none
    → lookup j m ≡ some p
    → lookup j ((k, q) ∷ m) ≡ some p
unfolding lookup
lookup_later k j q p m new e = ground (arith, string_eq.decides k j)

lookup_here :
    (k : String) (q : PlayerState) (m : Dict String PlayerState) → lookup k ((k, q) ∷ m) ≡ some q
unfolding lookup
lookup_here k q m = ground (arith, string_eq.decides k k)

AllReady-complete :
    (m : Dict String PlayerState)
    → UniqueKeys m
    → AllReady m
    → all (λ p. p.is_ready) (values m) ≡ true
AllReady-complete [] u h = refl
AllReady-complete ((k, q) ∷ m) u h =
    rw (h k q (lookup_here k q m))
      (AllReady-complete m u.1 (λ j p e. h j p (lookup_later k j q p m u.0 e)))

module _ {E : Type 0} (engine : EngineInterface E) (env : Environment) where
  announced :
      (ga : GameActor E)
      → UniqueKeys ga.players
      → let all_ready =
          broadcast_to_room ga.room_id "all_ready"
            (object (("playerCount", int (pos (length ga.players))) ∷ [])) in
        (AllReady ga.players
          × (announce_all_ready engine env ga
              ≡ record ga { effects = ga.effects ++ all_ready ∷ [] }))
        ⊎ ((¬ AllReady ga.players) × (announce_all_ready engine env ga ≡ ga))
  unfolding announce_all_ready
  announced ga u = elim (Bool-cases (all (λ p. p.is_ready) (values ga.players))) [
    | inl e ↦ inl (AllReady-sound ga.players e, rw (e, announce_all_ready))
    | inr e ↦
        inr (λ h. ground (arith, e, AllReady-complete ga.players u h), rw (e, announce_all_ready))
  ]

  -- A ready message of a player in the room makes that player ready and changes no other; the room
  -- hears of it, and then that all are ready exactly when everyone in it is.
  pub handle_player_ready_lem :
      (msg : Message) (p : PlayerState) (ga : GameActor E)
      → IsValid ga
      → lookup msg.player_id ga.players ≡ some p
      → let after = state_of (handle_player_ready engine env msg ga) in
        let ready =
          broadcast_to_room ga.room_id "player_ready"
            (object (("playerId", str msg.player_id) ∷ [])) in
        let all_ready =
          broadcast_to_room ga.room_id "all_ready"
            (object (("playerCount", int (pos (length after.players))) ∷ [])) in
        ((j : String)
          → lookup j after.players ≡ (
              if msg.player_id == j
              then some (record p { is_ready = true })
              else lookup j ga.players))
        × ((AllReady after.players × (after.effects ≡ ga.effects ++ ready ∷ all_ready ∷ []))
            ⊎ ((¬ AllReady after.players) × (after.effects ≡ ga.effects ++ ready ∷ [])))
  unfolding handle_player_ready
  handle_player_ready_lem msg p ga v found =
      let p' : PlayerState = record p { is_ready = true } in
      let told =
        emit
          (broadcast_to_room ga.room_id "player_ready"
            (object (("playerId", str msg.player_id) ∷ [])))
          (record ga { players = insert msg.player_id p' ga.players }) in
      elim (announced told (UniqueKeys-insert msg.player_id p' ga.players v.unique)) [
        | inl (ready, e) ↦
            rw (found, handle_player_ready, e)
              (λ j. lookup-insert msg.player_id j p' ga.players, inl (ready, simp append_assoc))
        | inr (waiting, e) ↦
            rw (found, handle_player_ready, e)
              (λ j. lookup-insert msg.player_id j p' ga.players, inr (waiting, refl))
      ]
