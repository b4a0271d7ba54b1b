-- ===== src/Rest/Errors.antt =====
-- internal/rest/errors.go and helpers.go: errors turned into responses, bodies decoded, and the header
-- that every request must have.
use text.Mathlib.Text.{◌==◌ as str_eq}
use hermeshooks.Prelude.{ℕ, String, Bool, false, ◌||◌, none, some, List, [], ◌∷◌, if◌then◌else◌}
use hermeshooks.Rest.{
  Decoded, decoded, end_of_file, malformed, failure, HandlerError, not_found_error,
  validation_error, http_error, err_not_found, eof, other, Writer, Handled, hangs, finished,
  Handler, write_header, write_json,
}

-- HTTPError
pub record HttpError : Type 0 where
  pub status_code : ℕ
  pub message : String

unfoldable pub new_http_error : HandlerError → HttpError
new_http_error (not_found_error m) = record { status_code = 404; message = m }
new_http_error (validation_error m) = record { status_code = 400; message = m }
new_http_error err_not_found = record { status_code = 404; message = "resource not found" }
new_http_error eof = record { status_code = 400; message = "EOF reading HTTP request body" }
new_http_error (http_error code m) = record { status_code = 500; message = "Internal server error" }
new_http_error other = record { status_code = 500; message = "Internal server error" }

abbrev write_http : HttpError → Writer → Writer
write_http e w = write_json e.status_code (failure e.message) w

-- The response that errorHandler writes for an error.
unfoldable pub write_error : HandlerError → Writer → Writer
unfolding new_http_error
write_error (http_error code m) w =
    write_http (record { status_code = code; message = m }) (write_header code w)
write_error e w = write_http (new_http_error e) w

abbrev pub answer_error : Handled → Handled
answer_error (hangs api) = hangs api
answer_error (finished none w api) = finished none w api
answer_error (finished (some e) w api) = finished (some e) (write_error e w) api

unfoldable pub error_handler : Handler → Handler
error_handler next req w api = answer_error (next req w api)

-- The loop of acceptedContentType.
unfoldable pub is_accepted : List String → String → Bool
is_accepted [] incoming = false
is_accepted (t ∷ ts) incoming = str_eq t incoming || is_accepted ts incoming

unfoldable pub accepted_content_type : List String → Handler → Handler
unfolding is_accepted
accepted_content_type types next req w api =
    if is_accepted types req.content_type
    then next req w api
    else finished (some (validation_error "Header value Content-Type must be application/json")) w
        api

-- Bind, and the handler that goes on with the payload.
abbrev pub bind : {A : Type 0} → Decoded A → (A → Handler) → Handler
bind (decoded a) k req w api = k a req w api
bind end_of_file k req w api = finished (some eof) w api
bind malformed k req w api = finished (some (validation_error "invalid json")) w api
