-- ===== src/Server/Mux/Routes.antt =====
-- The table of routes: `Register` of internal/server/api/torrent.go and of
-- internal/server/ui/ui_torrent.go, and the files of internal/server/ui/ui.go, as
-- internal/server/server.go registers them on one mux.
use torrents.Prelude.{
  String, Bool, true, false, not, ◌&&◌, ◌≡◌, refl, Option, none, some, List, [], ◌∷◌, ◌++◌, All,
  arith,
}
use torrents.Server.Mux.{Segment, literal, wildcard, Pattern, path_value, choose}
use torrents.Server.Mux.Covering.{conflicts, and_true}
use torrents.Server.Mux.Precedence.{AreCompatible, Answers, choose-Answers}

pub data Handler : Type 0 where
  api_add api_list api_get api_remove api_pause api_resume : Handler
  ui_list ui_new ui_show ui_add ui_table ui_detail ui_pause ui_resume ui_delete : Handler
  static_files : Handler

abbrev pub exactly : String → List Segment → Pattern
exactly method segments = record { method = method; segments = segments; subtree = false }

abbrev pub api_torrents : List Segment
api_torrents = literal "api" ∷ literal "v1" ∷ literal "torrents" ∷ []

abbrev pub ui_torrents : List Segment
ui_torrents = literal "ui" ∷ literal "torrents" ∷ []

abbrev pub api_routes : List (Pattern × Handler)
api_routes =
    (exactly "POST" api_torrents, api_add)
    ∷ (exactly "GET" api_torrents, api_list)
    ∷ (exactly "GET" (api_torrents ++ wildcard ∷ []), api_get)
    ∷ (exactly "DELETE" (api_torrents ++ wildcard ∷ []), api_remove)
    ∷ (exactly "POST" (api_torrents ++ wildcard ∷ literal "pause" ∷ []), api_pause)
    ∷ (exactly "POST" (api_torrents ++ wildcard ∷ literal "resume" ∷ []), api_resume)
    ∷ []

abbrev pub ui_routes : List (Pattern × Handler)
ui_routes =
    (exactly "GET" (literal "" ∷ []), ui_list)
    ∷ (exactly "GET" (literal "torrents" ∷ literal "new" ∷ []), ui_new)
    ∷ (exactly "GET" (literal "torrents" ∷ wildcard ∷ []), ui_show)
    ∷ (exactly "POST" (literal "torrents" ∷ []), ui_add)
    ∷ (exactly "GET" ui_torrents, ui_table)
    ∷ (exactly "GET" (ui_torrents ++ wildcard ∷ []), ui_detail)
    ∷ (exactly "POST" (ui_torrents ++ wildcard ∷ literal "pause" ∷ []), ui_pause)
    ∷ (exactly "POST" (ui_torrents ++ wildcard ∷ literal "resume" ∷ []), ui_resume)
    ∷ (exactly "DELETE" (ui_torrents ++ wildcard ∷ []), ui_delete)
    ∷ []

abbrev pub static_route : Pattern × Handler
static_route =
    (record { method = "GET"; segments = literal "static" ∷ []; subtree = true }, static_files)

abbrev pub routes : List (Pattern × Handler)
routes = api_routes ++ ui_routes ++ static_route ∷ []

-- The handler of a request, with the value of `{hash}`; `none` is an answer of the mux itself.
abbrev pub chosen : List String → Option (Pattern × Handler) → Option (Handler × String)
chosen path none = none
chosen path (some (p, h)) = some (h, path_value p.segments path)

unfoldable pub dispatch : String → List String → Option (Handler × String)
unfolding choose
dispatch method path = chosen path (choose method path routes)

-- Compatibility as a test.
abbrev free : {H : Type 0} → Pattern → List (Pattern × H) → Bool
free p [] = true
free p (q ∷ rs) = not (conflicts p q.0) && free p rs

abbrev compatible : {H : Type 0} → List (Pattern × H) → Bool
compatible [] = true
compatible (r ∷ rs) = free r.0 rs && compatible rs

free-All :
    {H : Type 0} (p : Pattern) (rs : List (Pattern × H))
    → free p rs ≡ true
    → All (λ q. conflicts p q.0 ≡ false) rs
free-All p [] e = tt
free-All p (q ∷ rs) e =
    let (a, b) = and_true (not (conflicts p q.0)) (free p rs) e in
    (ground (arith, a), free-All p rs b)

compatible-AreCompatible :
    {H : Type 0} (rs : List (Pattern × H)) → compatible rs ≡ true → AreCompatible rs
compatible-AreCompatible [] e = tt
compatible-AreCompatible (r ∷ rs) e =
    let (a, b) = and_true _ _ e in (free-All r.0 rs a, compatible-AreCompatible rs b)

-- The registration of the routes does not panic: no two of their patterns conflict.
routes-AreCompatible : AreCompatible routes
routes-AreCompatible = compatible-AreCompatible routes refl

-- A request, whatever its method and path, is answered by a route that fits it and that every other
-- fitting route covers, so by the most specific one, with the segment in the place of `{hash}`;
-- where no route answers it, none fits it. No two patterns conflict, so that their registration does
-- not panic.
pub dispatch_lem :
    (method : String) (path : List String)
    → AreCompatible routes
      × (best : Option (Pattern × Handler)) × (dispatch method path ≡ chosen path best)
      × Answers method path routes best
unfolding dispatch
dispatch_lem method path = (
  routes-AreCompatible,
  choose method path routes,
  refl,
  choose-Answers method path routes routes-AreCompatible,
)
