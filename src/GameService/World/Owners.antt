-- ===== src/GameService/World/Owners.antt =====
-- The creator of a room: internal/game/service.go together with the room's first receive.
use online_game.Prelude.Equality.{string_eq}
use online_game.Actor.Message.{Message}
use online_game.Actor.Mailbox as Mailbox
use online_game.GameService.{Game}
