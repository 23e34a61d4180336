-- ===== src/Websocket/Gateway/Registry.antt =====
-- What holds of the registries between two calls.
use mathlib.Core.Path.{subst, subst₂}
use online_game.Prelude.{
  ℕ, String, ◌≡◌, refl, ◌∙◌, none, some, List, [], ◌∷◌, arith, length, get_elem?, modify,
  get_elem?-modify, nat_beq, Bool-cases, inl, inr,
}
use online_game.Prelude.Dict.{Dict, lookup, insert, delete, UniqueKeys}
use online_game.Prelude.Equality.{◌==◌, string_eq}
use online_game.Prelude.Int.{pos}
use online_game.Websocket.Gateway.{Conn, Gateway, send_json, send_all}
use online_game.Websocket.Gateway.Delivery.{Members}

-- The rooms: no player twice in a room, and each entry the player's connection of that room.
abbrev pub Rooms : {B : Type 0} → List (Conn B) → Dict String (Dict String ℕ) → Type 0
Rooms heap [] = Unit {0}
Rooms heap ((r, m) ∷ rooms) = UniqueKeys m × Members heap r m × Rooms heap rooms

-- The entries of `conns`: each the connection of that id.
abbrev pub Filed : {B : Type 0} → List (Conn B) → Dict String ℕ → Type 0
Filed heap [] = Unit {0}
Filed {B} heap ((id, ref) ∷ m) =
    ((c : Conn B) × (get_elem? heap ref ≡ some c) × (c.id ≡ id)) × Filed heap m

pub record IsValid {B : Type 0} (g : Gateway B) : Type 0 where
  pub unique_conns : UniqueKeys g.conns
  pub unique_rooms : UniqueKeys g.rooms
  pub rooms : Rooms g.heap g.rooms
  pub filed : Filed g.heap g.conns
  pub nameless : lookup "" g.rooms ≡ none
  pub counted : g.conn_count ≡ pos (length g.conns)

-- A change of the heap that keeps every connection where it is, with its ids.
abbrev pub SameIds : {B : Type 0} → List (Conn B) → List (Conn B) → Type 0
SameIds {B} heap heap' =
    (i : ℕ) (c : Conn B)
    → get_elem? heap i ≡ some c
    → (c' : Conn B) × (get_elem? heap' i ≡ some c')
      × (c'.id ≡ c.id)
      × (c'.player_id ≡ c.player_id)
      × (c'.room_id ≡ c.room_id)

module _ {B : Type 0} (heap heap' : List (Conn B)) (same : SameIds heap heap') where
  pub Members-SameIds : (r : String) (m : Dict String ℕ) → Members heap r m → Members heap' r m
  Members-SameIds r [] h = tt
  Members-SameIds r ((pid, ref) ∷ m) ((c, e, p, q), h) =
      let (c', e', _, p', q') = same ref c e in ((c', e', p' ∙ p, q' ∙ q), Members-SameIds r m h)

  pub Rooms-SameIds : (rooms : Dict String (Dict String ℕ)) → Rooms heap rooms → Rooms heap' rooms
  Rooms-SameIds [] h = tt
  Rooms-SameIds ((r, m) ∷ rooms) (u, h, rest) = (u, Members-SameIds r m h, Rooms-SameIds rooms rest)

  pub Filed-SameIds : (m : Dict String ℕ) → Filed heap m → Filed heap' m
  Filed-SameIds [] h = tt
  Filed-SameIds ((id, ref) ∷ m) ((c, e, p), h) =
      let (c', e', p', _, _) = same ref c e in ((c', e', p' ∙ p), Filed-SameIds m h)

module _ {B : Type 0} where
  -- The changes of a connection that the gateway makes keep its ids.
  abbrev pub KeepsIds : (Conn B → Conn B) → Type 0
  KeepsIds f =
      (c : Conn B)
      → ((f c).id ≡ c.id) × ((f c).player_id ≡ c.player_id) × ((f c).room_id ≡ c.room_id)

  pub modify-SameIds :
      (heap : List (Conn B)) (ref : ℕ) (f : Conn B → Conn B)
      → KeepsIds f
      → SameIds heap (modify heap ref f)
  modify-SameIds heap ref f kept i c e = elim (Bool-cases (nat_beq ref i)) [
    | inl hit ↦ let (a, p, r) = kept c in (f c, rw (get_elem?-modify, hit, e), a, p, r)
    | inr miss ↦ (c, rw (get_elem?-modify, miss, e), refl, refl, refl)
  ]

  pub send_json-KeepsIds : (payload : B) → KeepsIds (send_json payload)
  unfolding send_json
  send_json-KeepsIds payload c = ground arith

  pub send_all-SameIds :
      (payload : B) (refs : List ℕ) (heap : List (Conn B))
      → SameIds heap (send_all payload refs heap)
  unfolding send_all
  send_all-SameIds payload [] heap i c e = (c, e, refl, refl, refl)
  send_all-SameIds payload (ref ∷ refs) heap i c e =
      let (d, found, a, p, r) =
        modify-SameIds heap ref (send_json payload) (send_json-KeepsIds payload) i c e in
      let (d', found', a', p', r') =
        send_all-SameIds payload refs (modify heap ref (send_json payload)) i d found in
      (d', found', a' ∙ a, p' ∙ p, r' ∙ r)

  -- `insert` puts a map at a room's name, `lookup` finds it.
  pub Rooms-insert :
      (heap : List (Conn B)) (r : String) (m : Dict String ℕ) (rooms : Dict String (Dict String ℕ))
      → UniqueKeys m
      → Members heap r m
      → Rooms heap rooms
      → Rooms heap (insert r m rooms)
  unfolding insert
  Rooms-insert heap r m [] u h k = (u, h, tt)
  Rooms-insert heap r m ((q, n) ∷ rooms) u h (v, i, k) = elim (Bool-cases (q == r)) [
    | inl same ↦ rw same (u, h, k)
    | inr other ↦ rw other (v, i, Rooms-insert heap r m rooms u h k)
  ]

  pub Rooms-lookup :
      (heap : List (Conn B)) (r : String) (m : Dict String ℕ) (rooms : Dict String (Dict String ℕ))
      → lookup r rooms ≡ some m
      → Rooms heap rooms
      → UniqueKeys m × Members heap r m
  unfolding lookup
  Rooms-lookup heap r m [] e k = cc
  Rooms-lookup heap r m ((q, n) ∷ rooms) e (v, i, k) = elim (Bool-cases (q == r)) [
    | inl same ↦
        let found : n ≡ m = ground (arith, same) in
        let named : q ≡ r = (string_eq.decides q r).0 same in
        (subst UniqueKeys found v, subst₂ (Members heap) named found i)
    | inr other ↦ Rooms-lookup heap r m rooms (ground (arith, other)) k
  ]

  pub Members-insert :
      (heap : List (Conn B)) (r : String) (ref : ℕ) (c : Conn B) (m : Dict String ℕ)
      → get_elem? heap ref ≡ some c
      → c.room_id ≡ r
      → Members heap r m
      → Members heap r (insert c.player_id ref m)
  unfolding insert
  Members-insert heap r ref c [] e q h = ((c, e, refl, q), tt)
  Members-insert heap r ref c ((pid, x) ∷ m) e q (k, h) = elim (Bool-cases (pid == c.player_id)) [
    | inl same ↦ rw same ((c, e, refl, q), h)
    | inr other ↦ rw other (k, Members-insert heap r ref c m e q h)
  ]

  pub Members-delete :
      (heap : List (Conn B)) (r pid : String) (m : Dict String ℕ)
      → Members heap r m
      → Members heap r (delete pid m)
  unfolding delete
  Members-delete heap r pid [] h = tt
  Members-delete heap r pid ((q, x) ∷ m) (k, h) = elim (Bool-cases (q == pid)) [
    | inl same ↦ rw same (Members-delete heap r pid m h)
    | inr other ↦ rw other (k, Members-delete heap r pid m h)
  ]

  pub Filed-insert :
      (heap : List (Conn B)) (ref : ℕ) (c : Conn B) (m : Dict String ℕ)
      → get_elem? heap ref ≡ some c
      → Filed heap m
      → Filed heap (insert c.id ref m)
  unfolding insert
  Filed-insert heap ref c [] e h = ((c, e, refl), tt)
  Filed-insert heap ref c ((id, x) ∷ m) e (k, h) = elim (Bool-cases (id == c.id)) [
    | inl same ↦ rw same ((c, e, refl), h)
    | inr other ↦ rw other (k, Filed-insert heap ref c m e h)
  ]

  pub Filed-delete :
      (heap : List (Conn B)) (id : String) (m : Dict String ℕ)
      → Filed heap m
      → Filed heap (delete id m)
  unfolding delete
  Filed-delete heap id [] h = tt
  Filed-delete heap id ((q, x) ∷ m) (k, h) = elim (Bool-cases (q == id)) [
    | inl same ↦ rw same (Filed-delete heap id m h)
    | inr other ↦ rw other (k, Filed-delete heap id m h)
  ]

  pub Filed-lookup :
      (heap : List (Conn B)) (id : String) (ref : ℕ) (m : Dict String ℕ)
      → lookup id m ≡ some ref
      → Filed heap m
      → (c : Conn B) × (get_elem? heap ref ≡ some c) × (c.id ≡ id)
  unfolding lookup
  Filed-lookup heap id ref [] e h = cc
  Filed-lookup heap id ref ((q, x) ∷ m) e ((c, at, named), h) = elim (Bool-cases (q == id)) [
    | inl same ↦ (c, ground (arith, same), ground (arith, string_eq.decides q id))
    | inr other ↦ Filed-lookup heap id ref m (ground (arith, other)) h
  ]
