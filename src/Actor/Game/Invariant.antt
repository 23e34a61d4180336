-- ===== src/Actor/Game/Invariant.antt =====
-- What holds of a room between two messages.
use online_game.Prelude.{
  ℕ, zero, suc, ◌%◌, ◌≤◌, ◌<◌, String, ◌≡◌, refl, ◌⊎◌, inl, inr, true, false, none, some, [], ◌∷◌,
  arith, length, get_elem?, Option-cases,
}
use online_game.Prelude.Dict.{
  Dict, lookup, insert, delete, has_key, keys, UniqueKeys, UniqueKeys-insert, UniqueKeys-delete,
  length-insert, length-delete, lookup-insert, lookup-delete,
}
use online_game.Prelude.Equality.{string_eq}
use online_game.Prelude.Int.{pos_part}
use online_game.Actor.Message.{Message, Payload, PlayerJoinData, player_join_data}
use online_game.Actor.Mailbox.{state_of}
use online_game.Actor.Game.{
  PlayerState, EngineInterface, GameActor, Environment, GameActorConfig, new_room, trigger,
}
use online_game.Actor.Game.Membership.{
  first_key, newcomer, joined, join_with, left, transfer_owner, close_if_empty, announce_all_ready,
  handle_player_join, handle_player_leave, handle_player_ready,
}

-- Each player stands under their own id.
abbrev pub Seated : Dict String PlayerState → Type 0
Seated [] = Unit {0}
Seated ((k, p) ∷ m) = (p.id ≡ k) × Seated m

pub record IsValid {E : Type 0} (ga : GameActor E) : Type 0 where
  pub unique : UniqueKeys ga.players
  pub seated : Seated ga.players
  pub not_over_full : length ga.players ≤ pos_part ga.max_players
  pub owner_present : (length ga.players ≡ 0) ⊎ (has_key ga.owner_id ga.players ≡ true)

Seated-insert :
    (k : String) (p : PlayerState) (m : Dict String PlayerState)
    → p.id ≡ k
    → Seated m
    → Seated (insert k p m)
unfolding insert
Seated-insert k p [] e s = (e, tt)
Seated-insert k p ((j, q) ∷ m) e s = ground (arith, Seated-insert k p m e s.1)

Seated-delete : (k : String) (m : Dict String PlayerState) → Seated m → Seated (delete k m)
unfolding delete
Seated-delete k [] s = tt
Seated-delete k ((j, q) ∷ m) s = ground (arith, Seated-delete k m s.1)

Seated-lookup :
    (k : String) (m : Dict String PlayerState) (p : PlayerState)
    → lookup k m ≡ some p
    → Seated m
    → p.id ≡ k
unfolding lookup
Seated-lookup k [] p h s = cc
Seated-lookup k ((j, q) ∷ m) p h s = ground (arith, Seated-lookup k m p, string_eq.decides j k)

has_key-get_elem? :
    (n : ℕ) (k : String) (m : Dict String PlayerState)
    → get_elem? (keys m) n ≡ some k
    → has_key k m ≡ true
unfolding lookup
has_key-get_elem? n k [] h = cc
has_key-get_elem? zero k ((j, q) ∷ m) h = ground (arith, string_eq.decides j k)
has_key-get_elem? (suc n) k ((j, q) ∷ m) h = ground (arith, has_key-get_elem? n k m)

get_elem?-keys :
    (n : ℕ) (m : Dict String PlayerState)
    → n < length m
    → (k : String) × (get_elem? (keys m) n ≡ some k)
get_elem?-keys n [] h = elim h [ ]
get_elem?-keys zero ((j, q) ∷ m) h = (j, refl)
get_elem?-keys (suc n) ((j, q) ∷ m) h = get_elem?-keys n m (omega arith)

-- The iteration over a map with entries begins at one of its keys.
pub first_key_lem :
    (n : ℕ) (m : Dict String PlayerState)
    → ((length m ≡ 0) × (first_key n m ≡ none))
      ⊎ ((k : String) × (first_key n m ≡ some k) × (has_key k m ≡ true))
first_key_lem n [] = inl (refl, refl)
first_key_lem n ((j, q) ∷ m) =
    let (k, e) = get_elem?-keys (n % length ((j, q) ∷ m)) ((j, q) ∷ m) (grind arith) in
    inr (k, e, has_key-get_elem? (n % length ((j, q) ∷ m)) k ((j, q) ∷ m) e)

module _ {E : Type 0} where
  pub new_room-IsValid : (cfg : GameActorConfig E) (now : ℕ) → IsValid (new_room cfg now)
  unfolding new_room
  new_room-IsValid cfg now = record {
    unique = tt;
    seated = tt;
    not_over_full = omega arith;
    owner_present = inl refl;
  }

module _ {E : Type 0} (engine : EngineInterface E) (env : Environment) where
  joined-IsValid :
      (msg : Message) (info : PlayerJoinData) (ga : GameActor E)
      → has_key msg.player_id ga.players ≡ false
      → length ga.players < pos_part ga.max_players
      → IsValid ga
      → IsValid (joined engine env msg info ga)
  unfolding joined trigger
  joined-IsValid msg info ga new below v = ground (
    arith,
    UniqueKeys-insert msg.player_id (newcomer env msg info) ga.players v.unique,
    Seated-insert msg.player_id (newcomer env msg info) ga.players refl v.seated,
    length-insert msg.player_id (newcomer env msg info) ga.players,
    lookup-insert msg.player_id msg.player_id (newcomer env msg info) ga.players,
    lookup-insert msg.player_id ga.owner_id (newcomer env msg info) ga.players,
    string_eq.decides msg.player_id msg.player_id,
  )

  join_with-IsValid :
      (p : Payload) (msg : Message) (ga : GameActor E)
      → has_key msg.player_id ga.players ≡ false
      → length ga.players < pos_part ga.max_players
      → IsValid ga
      → IsValid (state_of (join_with engine env p msg ga))
  unfolding join_with
  join_with-IsValid (player_join_data info) msg ga new below v =
      joined-IsValid msg info ga new below v
  join_with-IsValid _ msg ga new below v = v

  pub handle_player_join-IsValid :
      (msg : Message) (ga : GameActor E)
      → IsValid ga
      → IsValid (state_of (handle_player_join engine env msg ga))
  unfolding handle_player_join
  handle_player_join-IsValid msg ga v = ground (arith, join_with-IsValid msg.payload msg ga)

  close_if_empty-IsValid : (ga : GameActor E) → IsValid ga → IsValid (close_if_empty engine env ga)
  unfolding close_if_empty
  close_if_empty-IsValid ga v = ground arith

  transfer_owner-IsValid :
      (msg : Message) (ga : GameActor E)
      → UniqueKeys ga.players
      → Seated ga.players
      → length ga.players ≤ pos_part ga.max_players
      → (ga.owner_id ≡ msg.player_id) ⊎ (has_key ga.owner_id ga.players ≡ true)
      → IsValid (transfer_owner engine env msg ga)
  unfolding transfer_owner
  transfer_owner-IsValid msg ga u s n o = ground (
    arith,
    first_key_lem (env.first msg ga.players) ga.players,
    string_eq.decides ga.owner_id msg.player_id,
  )

  left-IsValid :
      (msg : Message) (player : PlayerState) (ga : GameActor E)
      → lookup msg.player_id ga.players ≡ some player
      → IsValid ga
      → IsValid (left engine env msg player ga)
  unfolding left trigger
  left-IsValid msg player ga found v = close_if_empty-IsValid _ (
      transfer_owner-IsValid msg _
        (ground (arith, UniqueKeys-delete msg.player_id ga.players v.unique))
        (ground (arith, Seated-delete msg.player_id ga.players v.seated))
        (ground (arith, length-delete msg.player_id ga.players v.unique))
        (ground (
          arith,
          lookup-delete msg.player_id ga.owner_id ga.players,
          length-delete msg.player_id ga.players v.unique,
          string_eq.decides msg.player_id ga.owner_id,
        )))

  pub handle_player_leave-IsValid :
      (msg : Message) (ga : GameActor E)
      → IsValid ga
      → IsValid (state_of (handle_player_leave engine env msg ga))
  unfolding handle_player_leave
  handle_player_leave-IsValid msg ga v = elim (Option-cases (lookup msg.player_id ga.players)) [
    | inl missing ↦ ground (arith, missing)
    | inr (p, found) ↦ ground (arith, found, left-IsValid msg p ga)
  ]

  announce_all_ready-IsValid :
      (ga : GameActor E) → IsValid ga → IsValid (announce_all_ready engine env ga)
  unfolding announce_all_ready
  announce_all_ready-IsValid ga v = ground arith

  pub handle_player_ready-IsValid :
      (msg : Message) (ga : GameActor E)
      → IsValid ga
      → IsValid (state_of (handle_player_ready engine env msg ga))
  unfolding handle_player_ready
  handle_player_ready-IsValid msg ga v = elim (Option-cases (lookup msg.player_id ga.players)) [
    | inl missing ↦ ground (arith, missing)
    | inr (p, found) ↦
        let p' : PlayerState = record p { is_ready = true } in
        rw (found, handle_player_ready)
          (announce_all_ready-IsValid _ (
            ground (
              arith,
              UniqueKeys-insert msg.player_id p' ga.players v.unique,
              Seated-insert msg.player_id p' ga.players,
              Seated-lookup msg.player_id ga.players p found v.seated,
              length-insert msg.player_id p' ga.players,
              lookup-insert msg.player_id ga.owner_id p' ga.players,
            )))
  ]
