-- ===== src/Api/Middleware.antt =====
-- `Logging` and `Recovery` of internal/server/api/api.go, over handlers that may panic.
use torrents.Prelude.{ℕ, String, Option, none, some, List, [], ◌∷◌, ◌++◌}
use torrents.Go.Errors.{text}
use torrents.Api.Defs.{Body, error_response}

-- A part of a response's body: a piece of a page or a text, or an encoded value.
pub data Chunk : Type 0 where
  html : String → Chunk
  encoded : Body → Chunk

-- What a handler does to its `http.ResponseWriter`.
pub data Act : Type 0 where
  set_content_type : String → Act
  write_header : ℕ → Act
  write : Chunk → Act

pub data Ending : Type 0 where
  returned panicked : Ending

-- A handler's run on a request: what it writes, and how it ends.
abbrev pub Run : Type 0
Run = List Act × Ending

-- The writer of net/http: the header to be sent, the status and content type once they are sent,
-- and the body; with it the status that `recordingResponseWriter` has seen.
pub record Writer : Type 0 where
  pub header : String
  pub sent : Option (ℕ × String)
  pub body : List Chunk
  pub recorded : ℕ

-- The first call sends the header; later ones are superfluous.
unfoldable pub send_header : ℕ → Writer → Writer
send_header status w = record w {
  sent = elim w.sent [ none ↦ some (status, w.header) | some s ↦ some s ];
}

-- `recordingResponseWriter.WriteHeader`, and the methods that it inherits.
unfoldable pub act : Act → Writer → Writer
unfolding send_header
act (set_content_type t) w = record w { header = t }
act (write_header status) w = send_header status (record w { recorded = status })
act (write c) w = let w' = send_header 200 w in record w' { body = w'.body ++ c ∷ [] }

unfoldable pub act_all : List Act → Writer → Writer
act_all [] w = w
act_all (a ∷ as') w = act_all as' (act a w)

-- `writeErrorf(w, 500, "internal server error")`
abbrev pub internal_error : List Act
internal_error =
    set_content_type "application/json"
    ∷ write_header 500
    ∷ write (
        encoded
          (error_response (record { status = 500; text = text "internal server error" ∷ [] })))
    ∷ []

-- `Recovery`: a panic ends in an error response.
unfoldable pub recovery : Run → Run
recovery (acts, returned) = (acts, returned)
recovery (acts, panicked) = (acts ++ internal_error, returned)

-- `Logging`: the writer at the end, and the status that is logged, unless the handler panicked.
unfoldable pub logging : Run → Writer × Option ℕ
logging (acts, ending) =
    let w = act_all acts (record { header = ""; sent = none; body = []; recorded = 200 }) in
    (w, elim ending [ returned ↦ some w.recorded | panicked ↦ none ])

-- The order in which internal/server/server.go wraps the mux.
unfoldable pub wrapped : Run → Writer × Option ℕ
wrapped run = logging (recovery run)

-- The status that the client gets: net/http sends 200 for a handler that wrote nothing.
abbrev pub client_status : Writer → ℕ
client_status w = elim w.sent [ none ↦ 200 | some s ↦ s.0 ]
