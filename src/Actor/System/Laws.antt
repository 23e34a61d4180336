-- ===== src/Actor/System/Laws.antt =====
-- The registry keeps its count, holds each actor under its own id, and routes messages.
use online_game.Prelude.{
  ℕ, String, ◌≡◌, refl, true, false, none, some, List, [], ◌∷◌, arith, length, if◌then◌else◌,
  Option-cases, inl, inr, ◌⊎◌,
}
use mathlib.Core.Option
use online_game.Prelude.Dict.{
  Dict, lookup, insert, delete, has_key, UniqueKeys, UniqueKeys-insert, UniqueKeys-delete,
  length-insert, length-delete, lookup-insert, lookup-delete,
}
use online_game.Prelude.Equality.{◌==◌, string_eq}
use online_game.Prelude.Int.{pos, ◌+ℤ◌}
use online_game.Actor.System.{
  Actor, ActorSystem, actor_not_found, actor_exists, from_actor, register, unregister, get, send_to,
  shutdown, new_actor_system,
}

module _ {A M E : Type 0} (impl : Actor A M E) where
  -- Every entry stands under its actor's id.
  abbrev pub Filed : Dict String A → Type 0
  Filed [] = Unit {0}
  Filed ((k, a) ∷ m) = (impl.id a ≡ k) × Filed m

  pub record IsValid (s : ActorSystem A) : Type 0 where
    pub unique : UniqueKeys s.actors
    pub counted : s.count ≡ pos (length s.actors)
    pub filed : Filed s.actors

  -- The methods of an actor do not change its id.
  pub record KeepsId : Type 0 where
    pub start : (a : A) → impl.id (impl.start a) ≡ impl.id a
    pub send : (m : M) (a : A) → impl.id (impl.send m a).0 ≡ impl.id a

  Filed-insert :
      (k : String) (a : A) (m : Dict String A) → impl.id a ≡ k → Filed m → Filed (insert k a m)
  unfolding insert
  Filed-insert k a [] e f = (e, tt)
  Filed-insert k a ((j, b) ∷ m) e f = ground (arith, Filed-insert k a m e f.1)

  Filed-delete : (k : String) (m : Dict String A) → Filed m → Filed (delete k m)
  unfolding delete
  Filed-delete k [] f = tt
  Filed-delete k ((j, b) ∷ m) f = ground (arith, Filed-delete k m f.1)

  Filed-lookup :
      (k : String) (m : Dict String A) (a : A) → lookup k m ≡ some a → Filed m → impl.id a ≡ k
  unfolding lookup
  Filed-lookup k [] a h f = cc
  Filed-lookup k ((j, b) ∷ m) a h f = ground (arith, Filed-lookup k m a, string_eq.decides j k)

  pub new_actor_system-IsValid : IsValid (new_actor_system impl)
  unfolding new_actor_system
  new_actor_system-IsValid = record { unique = tt; counted = refl; filed = tt }

  pub register-IsValid :
      KeepsId → (a : A) (s : ActorSystem A) → IsValid s → IsValid (register impl a s).0
  unfolding register ◌+ℤ◌
  register-IsValid kept a s v = ground (
    arith,
    kept.start a,
    UniqueKeys-insert (impl.id a) (impl.start a) s.actors v.unique,
    length-insert (impl.id a) (impl.start a) s.actors,
    Filed-insert (impl.id a) (impl.start a) s.actors,
  )

  pub unregister-IsValid :
      (id : String) (s : ActorSystem A) → IsValid s → IsValid (unregister impl id s).0
  unfolding unregister ◌+ℤ◌
  unregister-IsValid id s v = ground (
    arith,
    UniqueKeys-delete id s.actors v.unique,
    length-delete id s.actors v.unique,
    Filed-delete id s.actors v.filed,
  )

  -- An entry may be replaced by an actor with the same id.
  pub replace-IsValid :
      (id : String) (a b : A) (s : ActorSystem A)
      → lookup id s.actors ≡ some a
      → impl.id b ≡ impl.id a
      → IsValid s
      → IsValid (record s { actors = insert id b s.actors })
  replace-IsValid id a b s found same v = ground (
    arith,
    Filed-lookup id s.actors a found v.filed,
    UniqueKeys-insert id b s.actors v.unique,
    length-insert id b s.actors,
    Filed-insert id b s.actors,
  )

  pub send_to-IsValid :
      KeepsId
      → (id : String) (m : M) (s : ActorSystem A) → IsValid s
      → IsValid (send_to impl id m s).0
  unfolding send_to
  send_to-IsValid kept id m s v = elim (Option-cases (lookup id s.actors)) [
    | inl missing ↦ ground (arith, missing)
    | inr (a, found) ↦
        let kept' = replace-IsValid id a (impl.send m a).0 s found (kept.send m a) v in
        ground (arith, found, kept')
  ]

  -- One call of the registry, as the services make them.
  pub data Call : Type 0 where
    registers : A → Call
    unregisters : String → Call
    sends : String → M → Call
    shuts_down : ℕ → Call

  unfoldable pub call : Call → ActorSystem A → ActorSystem A
  call (registers a) s = (register impl a s).0
  call (unregisters id) s = (unregister impl id s).0
  call (sends id m) s = (send_to impl id m s).0
  call (shuts_down t) s = (shutdown impl t s).0

  pub call-IsValid : KeepsId → (c : Call) (s : ActorSystem A) → IsValid s → IsValid (call c s)
  unfolding call shutdown
  call-IsValid kept (registers a) s v = register-IsValid kept a s v
  call-IsValid kept (unregisters id) s v = unregister-IsValid id s v
  call-IsValid kept (sends id m) s v = send_to-IsValid kept id m s v
  call-IsValid kept (shuts_down t) s v = record { unique = tt; counted = refl; filed = tt }

  unfoldable pub calls : List Call → ActorSystem A → ActorSystem A
  unfolding call
  calls [] s = s
  calls (c ∷ cs) s = calls cs (call c s)

  calls-IsValid : KeepsId → (cs : List Call) (s : ActorSystem A) → IsValid s → IsValid (calls cs s)
  unfolding calls
  calls-IsValid kept [] s v = v
  calls-IsValid kept (c ∷ cs) s v = calls-IsValid kept cs (call c s) (call-IsValid kept c s v)

  -- After any history of a new registry, `Count` is the number of actors in it, no id stands twice,
  -- and each actor stands under its own id.
  system_history-IsValid : KeepsId → (cs : List Call) → IsValid (calls cs (new_actor_system impl))
  system_history-IsValid kept cs = calls-IsValid kept cs _ new_actor_system-IsValid

  -- `Register` refuses an id in use and changes nothing; a new actor is started, found under its id,
  -- and hides no other.
  register_cases :
      (a : A) (j : String) (s : ActorSystem A)
      → ((has_key (impl.id a) s.actors ≡ true)
          × (register impl a s ≡ (s, some (actor_exists (impl.id a)))))
        ⊎ ((has_key (impl.id a) s.actors ≡ false)
            × ((register impl a s).1 ≡ none)
            × (get impl j (register impl a s).0
                ≡ (if impl.id a == j then some (impl.start a) else get impl j s)))
  unfolding register get
  register_cases a j s = ground (arith, lookup-insert (impl.id a) j (impl.start a) s.actors)

  -- `Unregister` reports an id that is not there; else it hands the actor to `Stop` with a timeout
  -- of five seconds and removes it alone, whether or not it stopped in time.
  unregister_cases :
      (id j : String) (s : ActorSystem A)
      → ((get impl id s ≡ none) × (unregister impl id s ≡ (s, none, some (actor_not_found id))))
        ⊎ ((a : A) × (get impl id s ≡ some a)
            × ((unregister impl id s).1 ≡ some (impl.stop 5000000000 a).0)
            × ((unregister impl id s).2 ≡ none)
            × (get impl j (unregister impl id s).0 ≡ (if id == j then none else get impl j s)))
  unfolding unregister get
  unregister_cases id j s = elim (Option-cases (lookup id s.actors)) [
    | inl missing ↦ inl (missing, ground (arith, missing))
    | inr (a, found) ↦ inr (
      a,
      found,
      ground (arith, found),
      ground (arith, found),
      ground (arith, found, lookup-delete id j s.actors),
    )
  ]

  -- `SendTo` reports an id that is not there and else the answer of that actor's `Send`; no other
  -- actor changes.
  send_to_cases :
      (id j : String) (m : M) (s : ActorSystem A)
      → ((get impl id s ≡ none) × (send_to impl id m s ≡ (s, some (actor_not_found id))))
        ⊎ ((a : A) × (get impl id s ≡ some a)
            × (get impl j (send_to impl id m s).0
                ≡ (if id == j then some (impl.send m a).0 else get impl j s))
            × ((send_to impl id m s).1 ≡ Option.map from_actor (impl.send m a).1))
  unfolding send_to get
  send_to_cases id j m s = elim (Option-cases (lookup id s.actors)) [
    | inl missing ↦ inl (missing, ground (arith, missing))
    | inr (a, found) ↦ inr (
      a,
      found,
      ground (arith, found, lookup-insert id j (impl.send m a).0 s.actors),
      ground (arith, found),
    )
  ]
