-- ===== src/Websocket/Gateway/Delivery.antt =====
-- Who gets a message: a broadcast, a message to one player, a message to all but one.
use mathlib.Core.Option
use online_game.Prelude.{
  ℕ, String, ◌≡◌, refl, Bool, true, false, not, ◌&&◌, ◌||◌, nat_beq_iff, Option, none, some, List,
  [], ◌∷◌, arith, get_elem?, modify, get_elem?-modify, nat_beq, if◌then◌else◌, Bool-cases,
  Option-cases, inl, inr,
}
use online_game.Prelude.Dict.{Dict, lookup, values, UniqueKeys}
use online_game.Prelude.Equality.{◌==◌, string_eq}
use online_game.Prelude.Value.{Value}
use online_game.Websocket.Gateway.{
  WsMessage, Conn, Gateway, send_json, send_all, others, event_message, broadcast_to_room,
  send_except,
}

abbrev pub contains : List ℕ → ℕ → Bool
contains [] i = false
contains (x ∷ xs) i = nat_beq x i || contains xs i

abbrev pub Distinct : List ℕ → Type 0
Distinct [] = Unit {0}
Distinct (x ∷ xs) = (contains xs x ≡ false) × Distinct xs

-- The reference of an optional entry is `i`.
abbrev pub refers_to : Option ℕ → ℕ → Bool
refers_to none i = false
refers_to (some ref) i = nat_beq ref i

others_absent :
    (except : String) (m : Dict String ℕ) → lookup except m ≡ none → others except m ≡ values m
unfolding lookup others
others_absent except [] h = refl
others_absent except ((pid, ref) ∷ m) h = ground (arith, others_absent except m)

contains-lookup :
    (k : String) (m : Dict String ℕ) (r : ℕ) → lookup k m ≡ some r → contains (values m) r ≡ true
unfolding lookup
contains-lookup k [] r h = cc
contains-lookup k ((pid, ref) ∷ m) r h = ground (arith, contains-lookup k m r)

-- The member of a room at a reference: a player's connection of that room, under that player's id.
abbrev pub Members : {B : Type 0} → List (Conn B) → String → Dict String ℕ → Type 0
Members heap room_id [] = Unit {0}
Members {B} heap room_id ((pid, ref) ∷ m) =
    ((c : Conn B) × (get_elem? heap ref ≡ some c) × (c.player_id ≡ pid) × (c.room_id ≡ room_id))
    × Members heap room_id m

module _ {B : Type 0} where
  send_all_lem :
      (payload : B) (refs : List ℕ) (heap : List (Conn B)) (i : ℕ)
      → Distinct refs
      → get_elem? (send_all payload refs heap) i ≡ (
          if contains refs i
          then Option.map (send_json payload) (get_elem? heap i)
          else get_elem? heap i)
  unfolding send_all
  send_all_lem payload [] heap i d = refl
  send_all_lem payload (ref ∷ refs) heap i d = ground (
    arith,
    d.0,
    send_all_lem payload refs (modify heap ref (send_json payload)) i d.1,
    get_elem?-modify heap ref i (send_json payload),
  )

  -- A connection is in a room under one player only.
  absent_ref :
      (heap : List (Conn B)) (room_id pid : String) (ref : ℕ) (c : Conn B) (m : Dict String ℕ)
      → get_elem? heap ref ≡ some c
      → c.player_id ≡ pid
      → lookup pid m ≡ none
      → Members heap room_id m
      → contains (values m) ref ≡ false
  unfolding lookup
  absent_ref heap room_id pid ref c [] e p n h = refl
  absent_ref heap room_id pid ref c ((qid, r) ∷ m) e p n ((d, e', p', _), h) =
      ground (arith, absent_ref heap room_id pid ref c m e p, string_eq.decides qid pid)

  Members-Distinct :
      (heap : List (Conn B)) (room_id : String) (m : Dict String ℕ)
      → UniqueKeys m
      → Members heap room_id m
      → Distinct (values m)
  Members-Distinct heap room_id [] u h = tt
  Members-Distinct heap room_id ((pid, ref) ∷ m) u ((c, e, p, _), h) =
      (absent_ref heap room_id pid ref c m e p u.0 h, Members-Distinct heap room_id m u.1 h)

  others_lem :
      (heap : List (Conn B)) (room_id except : String) (m : Dict String ℕ) (i : ℕ)
      → UniqueKeys m
      → Members heap room_id m
      → contains (others except m) i
        ≡ (contains (values m) i && not (refers_to (lookup except m) i))
  unfolding lookup others
  others_lem heap room_id except [] i u h = refl
  others_lem heap room_id except ((pid, ref) ∷ m) i u ((c, e, p, _), h) =
      elim (Bool-cases (pid == except)) [
        | inl same ↦ ground (
          arith,
          same,
          string_eq.decides pid except,
          others_absent except m,
          absent_ref heap room_id pid ref c m e p u.0 h,
          nat_beq_iff ref i,
        )
        | inr other ↦ elim (Option-cases (lookup except m)) [
          | inl missing ↦ ground (arith, other, missing, others_lem heap room_id except m i u.1 h)
          | inr (r, found) ↦ ground (
            arith,
            other,
            found,
            others_lem heap room_id except m i u.1 h,
            contains-lookup except m r found,
            absent_ref heap room_id pid ref c m e p u.0 h,
            nat_beq_iff ref i,
            nat_beq_iff r i,
          )
        ]
      ]

  others-Distinct :
      (heap : List (Conn B)) (room_id except : String) (m : Dict String ℕ)
      → UniqueKeys m
      → Members heap room_id m
      → Distinct (others except m)
  unfolding others
  others-Distinct heap room_id except [] u h = tt
  others-Distinct heap room_id except ((pid, ref) ∷ m) u ((c, e, p, r), h) = ground (
    arith,
    others-Distinct heap room_id except m u.1 h,
    others_lem heap room_id except m ref u.1 h,
    absent_ref heap room_id pid ref c m e p u.0 h,
  )

  module _ (marshal : WsMessage → B) (now : ℕ) (room_id event : String) (payload : Value) where
    -- A broadcast is sent once to each connection in the room and to no other.
    pub broadcast_to_room_lem :
        (g : Gateway B) (m : Dict String ℕ) (i : ℕ)
        → lookup room_id g.rooms ≡ some m
        → UniqueKeys m
        → Members g.heap room_id m
        → get_elem? (broadcast_to_room marshal now room_id event payload g).heap i ≡ (
            if contains (values m) i
            then Option.map
                (send_json (marshal (event_message event payload now)))
                (get_elem? g.heap i)
            else get_elem? g.heap i)
    unfolding broadcast_to_room
    broadcast_to_room_lem g m i found u h =
        rw (found, broadcast_to_room)
          (send_all_lem _ (values m) g.heap i (Members-Distinct g.heap room_id m u h))

    -- `SendExcept` sends to each connection in the room but that of the player who is left out.
    send_except_lem :
        (except : String) (g : Gateway B) (m : Dict String ℕ) (i : ℕ)
        → lookup room_id g.rooms ≡ some m
        → UniqueKeys m
        → Members g.heap room_id m
        → get_elem? (send_except marshal now room_id except event payload g).heap i ≡ (
            if contains (values m) i && not (refers_to (lookup except m) i)
            then Option.map
                (send_json (marshal (event_message event payload now)))
                (get_elem? g.heap i)
            else get_elem? g.heap i)
    unfolding send_except
    send_except_lem except g m i found u h =
        rw (found, send_except, ← others_lem g.heap room_id except m i u h)
          (send_all_lem _ (others except m) g.heap i (others-Distinct g.heap room_id except m u h))
