-- ===== src/Processes/Routes.antt =====
-- The routes that the handlers of internal/user, internal/game and internal/admin register, by group
-- under /api/v1. Which handler gin calls for a path is gin's.
use online_game.Prelude.{String, Bool, true, false, List, [], ◌∷◌}

pub data Verb : Type 0 where
  get_verb post_verb put_verb delete_verb : Verb

-- The path within the group, and the handler's method.
pub record Route : Type 0 where
  pub verb : Verb
  pub path : String
  pub handler : String

-- A group by its name, without the slash before it, and whether `authMiddleware` stands before its
-- handlers.
pub record Group : Type 0 where
  pub name : String
  pub uses_auth : Bool
  pub routes : List Route

abbrev route : Verb → String → String → Route
route verb path handler = record { verb = verb; path = path; handler = handler }

unfoldable pub user_groups : List Group
user_groups =
    record {
      name = "auth";
      uses_auth = false;
      routes = route post_verb "/register" "Register" ∷ route post_verb "/login" "Login" ∷ [];
    }
    ∷ record {
      name = "users";
      uses_auth = true;
      routes = route get_verb "/me" "GetCurrentUser" ∷ route get_verb "/:id" "GetUser" ∷ [];
    }
    ∷ []

unfoldable pub game_groups : List Group
game_groups =
    record {
      name = "games";
      uses_auth = false;
      routes =
          route get_verb "" "ListGames"
          ∷ route get_verb "/:id" "GetGame"
          ∷ route get_verb "/:id/versions/latest" "GetLatestVersion"
          ∷ [];
    }
    ∷ record {
      name = "rooms";
      uses_auth = false;
      routes =
          route post_verb "" "CreateRoom"
          ∷ route get_verb "" "ListRooms"
          ∷ route get_verb "/:roomId" "GetRoom"
          ∷ route post_verb "/:roomId/join" "JoinRoom"
          ∷ route post_verb "/:roomId/leave" "LeaveRoom"
          ∷ route post_verb "/:roomId/start" "StartGame"
          ∷ route post_verb "/:roomId/action" "PlayerAction"
          ∷ [];
    }
    ∷ []

unfoldable pub admin_groups : List Group
admin_groups =
    record {
      name = "admin";
      uses_auth = false;
      routes =
          route post_verb "/games" "CreateGame"
          ∷ route get_verb "/games" "ListGames"
          ∷ route get_verb "/games/:id" "GetGame"
          ∷ route put_verb "/games/:id" "UpdateGame"
          ∷ route delete_verb "/games/:id" "DeleteGame"
          ∷ route post_verb "/games/:id/upload" "UploadPackage"
          ∷ route post_verb "/games/:id/publish" "PublishGame"
          ∷ route post_verb "/games/:id/unpublish" "UnpublishGame"
          ∷ [];
    }
    ∷ []
