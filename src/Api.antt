-- ===== src/Api.antt =====
-- pkg/api/response.go: what the HTTP handlers answer, and how a page of a list is asked for.
-- `c.JSON` is the pair of status and body that it writes.
pub mod Error
pub mod Pages
mod Laws
mod Tests
use online_game.Prelude.{ℕ, String, List, [], ◌∷◌}
use online_game.Prelude.Int.{ℤ, pos}
use online_game.Prelude.Value.{Value, nil, int, object}
use online_game.Api.Error.{AppError, GoError, get_app_error, http_status}

-- `Data` is left out of the JSON when it is nil.
pub record Response (D : Type 0) : Type 0 where
  pub code : ℕ
  pub message : String
  pub «data» : D

-- The call of `c.JSON`.
pub record Answer (D : Type 0) : Type 0 where
  pub status : ℕ
  pub body : Response D

module _ {D : Type 0} where
  unfoldable pub success_with_message : String → D → Answer D
  success_with_message message details = record {
    status = 200;
    body = record { code = 0; message = message; «data» = details };
  }

  unfoldable pub success : D → Answer D
  success details = record {
    status = 200;
    body = record { code = 0; message = "success"; «data» = details };
  }

  unfoldable pub created : D → Answer D
  created details = record {
    status = 201;
    body = record { code = 0; message = "created"; «data» = details };
  }

  unfoldable pub error_with_details : GoError → D → Answer D
  unfolding get_app_error http_status
  error_with_details err details =
      let app_err = get_app_error err in
      record {
        status = http_status app_err;
        body = record { code = app_err.code; message = app_err.message; «data» = details };
      }

-- The answer of `Error` has no data.
unfoldable pub error : GoError → Answer Value
unfolding get_app_error http_status
error err =
    let app_err = get_app_error err in
    record {
      status = http_status app_err;
      body = record { code = app_err.code; message = app_err.message; «data» = nil };
    }

-- A `PaginatedResponse` is the object that its tags describe.
unfoldable pub paginated : Value → ℤ → ℕ → ℕ → Answer Value
unfolding success
paginated items total page page_size = success (
    object (
      ("items", items)
      ∷ ("total", int total)
      ∷ ("page", int (pos page))
      ∷ ("page_size", int (pos page_size))
      ∷ []))
