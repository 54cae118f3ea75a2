-- ===== src/Server/Sending.antt =====
-- What the answers of the handlers do to their `http.ResponseWriter`: `writeJSON` of
-- internal/server/api/api.go, `render` of internal/server/ui/ui.go and the functions of net/http,
-- behind the middleware.
use torrents.Prelude.{
  ℕ, String, Bool, true, false, ◌≡◌, refl, ap, ◌∙◌, some, List, [], ◌∷◌, map, if◌then◌else◌,
}
use torrents.Api.Defs as Api
use torrents.Api.Middleware.{
  html, encoded, Act, set_content_type, write_header, write, returned, panicked, Run, wrapped,
  client_status,
}
use torrents.Api.Panics.{last_header, wrapped_lem}
use torrents.Ui.Defs as Ui
use torrents.Ui.Defs.{Page, render, http_error, redirect}
use torrents.Ui.Pages.{status}

-- `writeJSON`
unfoldable pub api_run : Api.Response → Run
api_run r = (
  set_content_type r.content_type ∷ write_header r.status ∷ write (encoded r.body) ∷ [],
  returned,
)

abbrev pub write_all : List String → List Act
write_all pieces = map (λ h. write (html h)) pieces

-- `render` panics where rendering fails; `view` gives the pieces that a page writes and whether it
-- fails after them. `http.Redirect` writes no body in answer to a POST.
unfoldable pub page_run : (Page → List String × Bool) → Ui.Response → Run
page_run view (render n p) =
    let (pieces, failed) = view p in
    (
      set_content_type "text/html; charset=utf-8" ∷ write_header n ∷ write_all pieces,
      if failed then panicked else returned,
    )
page_run view (http_error text n) = (
  set_content_type "text/plain; charset=utf-8" ∷ write_header n ∷ write (html text) ∷ [],
  returned,
)
page_run view (redirect url n) = (write_header n ∷ [], returned)
page_run view (Ui.write_header n) = (write_header n ∷ [], returned)

-- Whether the page of an answer fails to render.
abbrev pub fails : (Page → List String × Bool) → Ui.Response → Bool
fails view (render n p) = (view p).1
fails view (http_error text n) = false
fails view (redirect url n) = false
fails view (Ui.write_header n) = false

last_header-write_all : (n : ℕ) (pieces : List String) → last_header n (write_all pieces) ≡ n
last_header-write_all n [] = refl
last_header-write_all n (h ∷ pieces) = last_header-write_all n pieces

rendered :
    (n : ℕ) (pieces : List String) (failed : Bool)
    → let run : Run = (
      set_content_type "text/html; charset=utf-8" ∷ write_header n ∷ write_all pieces,
      if failed then panicked else returned,
    ) in
      let (w, log) = wrapped run in (client_status w ≡ n) × (log ≡ some (if failed then 500 else n))
rendered n pieces true =
    wrapped_lem (set_content_type "text/html; charset=utf-8" ∷ write_header n ∷ write_all pieces)
      panicked
rendered n pieces false =
    let acts : List Act =
      set_content_type "text/html; charset=utf-8" ∷ write_header n ∷ write_all pieces in
    let (client, log) = wrapped_lem acts returned in
    (client, log ∙ ap some (last_header-write_all n pieces))

-- Behind the middleware the client gets the status of the handler's answer, and it is logged, but
-- where a page fails to render: there the client gets the page's status and 500 is logged.
pub wrapped-page_run :
    (view : Page → List String × Bool) (answer : Ui.Response) (r : Api.Response)
    → let (w, log) = wrapped (page_run view answer) in
      let (w', log') = wrapped (api_run r) in
      (client_status w ≡ status answer)
      × (log ≡ some (if fails view answer then 500 else status answer))
      × (client_status w' ≡ r.status)
      × (log' ≡ some r.status)
unfolding page_run api_run
wrapped-page_run view answer r =
    let (client, log) = page_sends view answer in
    let (client', log') = wrapped_lem (api_run r).0 returned in (client, log, client', log')
  where
    page_sends :
        (view : Page → List String × Bool) (answer : Ui.Response)
        → let (w, log) = wrapped (page_run view answer) in
          (client_status w ≡ status answer)
          × (log ≡ some (if fails view answer then 500 else status answer))
    page_sends view (render n p) = rendered n (view p).0 (view p).1
    page_sends view (http_error text n) = wrapped_lem (page_run view (http_error text n)).0 returned
    page_sends view (redirect url n) = wrapped_lem (page_run view (redirect url n)).0 returned
    page_sends view (Ui.write_header n) = wrapped_lem (page_run view (Ui.write_header n)).0 returned
