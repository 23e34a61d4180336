-- ===== src/Actor/System.antt =====
-- pkg/actor/system.go: the registry of actors. An actor is known through the `Actor` interface; the
-- registry holds the only reference that matters, so its entry is the actor.
pub mod Laws
use online_game.Prelude.{
  ℕ, String, Bool, true, false, not, Option, none, some, List, [], ◌∷◌, map, if◌then◌else◌,
}
use online_game.Prelude.Dict.{Dict, lookup, insert, delete, has_key}
use online_game.Prelude.Equality.{◌==◌, string_eq}
use online_game.Prelude.Int.{ℤ, pos, negsuc, ◌+ℤ◌}

-- The interface `Actor`, with `Startable`: `start` is the identity for an actor without `Start`.
-- `send` and `stop` return `none` where the method returns nil; `Stop` is given its deadline.
pub record Actor (A M E : Type 0) : Type 0 where
  pub id : A → String
  pub start : A → A
  pub send : M → A → A × Option E
  pub stop : ℕ → A → A × Option E

pub record ActorSystem (A : Type 0) : Type 0 where
  pub actors : Dict String A
  pub count : ℤ

pub data SystemError (E : Type 0) : Type 0 where
  actor_not_found : String → SystemError E
  actor_exists : String → SystemError E
  from_actor : E → SystemError E

-- `5*time.Second`, in nanoseconds.
abbrev pub stop_timeout : ℕ
stop_timeout = 5000000000

module _ {A M E : Type 0} (impl : Actor A M E) where
  unfoldable pub new_actor_system : ActorSystem A
  new_actor_system = record { actors = []; count = pos 0 }

  -- `LoadOrStore`, then the count, then `Start`.
  unfoldable pub register : A → ActorSystem A → ActorSystem A × Option (SystemError E)
  register actor s =
      let id = impl.id actor in
      if has_key id s.actors then (s, some (actor_exists id)) else (
        record s { actors = insert id (impl.start actor) s.actors; count = s.count +ℤ pos 1 },
        none,
      )

  -- The stopped actor is returned for what others still see of it. An error of `Stop` is logged.
  unfoldable pub unregister :
      String → ActorSystem A → ActorSystem A × Option A × Option (SystemError E)
  unregister actor_id s = elim (lookup actor_id s.actors) [
    | none ↦ (s, none, some (actor_not_found actor_id))
    | some actor ↦ (
      record { actors = delete actor_id s.actors; count = s.count +ℤ negsuc 0 },
      some (impl.stop stop_timeout actor).0,
      none,
    )
  ]

  unfoldable pub get : String → ActorSystem A → Option A
  get actor_id s = lookup actor_id s.actors

  abbrev delivered : String → ActorSystem A → A × Option E → ActorSystem A × Option (SystemError E)
  delivered actor_id s (actor, none) = (record s { actors = insert actor_id actor s.actors }, none)
  delivered actor_id s (actor, some e) =
      (record s { actors = insert actor_id actor s.actors }, some (from_actor e))

  unfoldable pub send_to : String → M → ActorSystem A → ActorSystem A × Option (SystemError E)
  unfolding get
  send_to actor_id m s = elim (get actor_id s) [
    | none ↦ (s, some (actor_not_found actor_id))
    | some actor ↦ delivered actor_id s (impl.send m actor)
  ]

  unfoldable pub count : ActorSystem A → ℤ
  count s = s.count

  -- Every actor is stopped, in parallel and so in no order; then the registry is new.
  unfoldable pub shutdown : ℕ → ActorSystem A → ActorSystem A × List A
  shutdown timeout s =
      (record { actors = []; count = pos 0 }, map (λ e. (impl.stop timeout e.1).0) s.actors)
