-- ===== src/Actor.antt =====
-- pkg/actor: messages, the mailbox actor, the registry of actors, and the actor of a game room.
pub mod Message
pub mod Mailbox
pub mod System
pub mod Game
mod Tests
