-- ===== src/Server/Mux/ApiRoutes.antt =====
-- The routes of the API that Remote/Server lists by hand are what the mux makes of its table.
use mathlib.Core.Path.{subst}
use torrents.Prelude.{
  String, Bool, true, false, All, ◌==◌, ◌≡◌, refl, sym, ap, ◌∙◌, Option, none, some, List, [], ◌∷◌,
  arith, eq_iff, inl, inr, Bool-cases, if◌then◌else◌,
}
use torrents.Go.Errors.{Error}
use torrents.Api.Defs as Api
use torrents.Api.Defs.{Request, Response, TorrentService}
use torrents.Remote.Defs.{Method, get_method, post_method, delete_method}
use torrents.Remote.Server.{route}
use torrents.Server.Mux.{Pattern, method_fits, choose}
use torrents.Server.Mux.Routes.{
  Handler, api_add, api_list, api_get, api_remove, api_pause, api_resume, dispatch, routes, chosen,
}

abbrev pub method_name : Method → String
method_name get_method = "GET"
method_name post_method = "POST"
method_name delete_method = "DELETE"

-- The methods that a route for GET answers.
abbrev pub reads : String → Bool
reads method = if method == "GET" then true else method == "HEAD"

-- What the API answers below `/api/v1/torrents`, by the method and the segments of the address.
abbrev pub named : String → List String → Option (Handler × String)
named method [] =
    if reads method
    then some (api_list, "")
    else if method == "POST"
    then some (api_add, "")
    else none
named method (hash ∷ []) =
    if reads method
    then some (api_get, hash)
    else if method == "DELETE"
    then some (api_remove, hash)
    else none
named method (hash ∷ action ∷ []) =
    if method == "POST"
    then if action == "pause"
      then some (api_pause, hash)
      else if action == "resume"
      then some (api_resume, hash)
      else none
    else none
named method (hash ∷ action ∷ next ∷ rest) = none

abbrev pub AreNamed : List String → Type 0
AreNamed = All (λ s. s == "" ≡ false)

turned : (a b : String) → (a == b) ≡ false → (b == a) ≡ false
turned a b e = elim (Bool-cases (b == a)) [
  | inl same ↦ absurd (ground (arith, e, (eq_iff a b).1 (sym ((eq_iff b a).0 same))))
  | inr other ↦ other
]

dispatch-action :
    (h a : String)
    → h == "" ≡ false
    → dispatch "POST" ("api" ∷ "v1" ∷ "torrents" ∷ h ∷ a ∷ []) ≡ named "POST" (h ∷ a ∷ [])
unfolding dispatch choose
dispatch-action h a e = elim (Bool-cases (a == "pause")) [
  | inl same ↦
      subst
        (λ x. dispatch "POST" ("api" ∷ "v1" ∷ "torrents" ∷ h ∷ x ∷ []) ≡ named "POST" (h ∷ x ∷ []))
        {x = "pause"} {y = a} (sym ((eq_iff a "pause").0 same)) (ground (arith, e))
  | inr other ↦ elim (Bool-cases (a == "resume")) [
    | inl same ↦
        subst
          (λ x.
            dispatch "POST" ("api" ∷ "v1" ∷ "torrents" ∷ h ∷ x ∷ []) ≡ named "POST" (h ∷ x ∷ []))
          {x = "resume"} {y = a} (sym ((eq_iff a "resume").0 same)) (ground (arith, e))
    | inr another ↦
        ground (arith, e, other, another, turned a "pause" other, turned a "resume" another)
  ]
]

abbrev Goes : String → List String → Type 0
Goes method rest = dispatch method ("api" ∷ "v1" ∷ "torrents" ∷ rest) ≡ named method rest

dispatch-get : (rest : List String) → AreNamed rest → Goes "GET" rest × Goes "HEAD" rest
unfolding dispatch choose
dispatch-get [] e = (refl, refl)
dispatch-get (h ∷ []) (e, n) = (ground (arith, e), ground (arith, e))
dispatch-get (h ∷ a ∷ []) (e, n) = (ground (arith, e), ground (arith, e))
dispatch-get (h ∷ a ∷ b ∷ rest) (e, n) = (ground (arith, e), ground (arith, e))

dispatch-post : (rest : List String) → AreNamed rest → Goes "POST" rest
unfolding dispatch choose
dispatch-post [] e = refl
dispatch-post (h ∷ []) (e, n) = ground (arith, e)
dispatch-post (h ∷ a ∷ []) (e, n) = dispatch-action h a e
dispatch-post (h ∷ a ∷ b ∷ rest) (e, n) = ground (arith, e)

dispatch-delete : (rest : List String) → AreNamed rest → Goes "DELETE" rest
unfolding dispatch choose
dispatch-delete [] e = refl
dispatch-delete (h ∷ []) (e, n) = ground (arith, e)
dispatch-delete (h ∷ a ∷ []) (e, n) = ground (arith, e)
dispatch-delete (h ∷ a ∷ b ∷ rest) (e, n) = ground (arith, e)

choose-none :
    {H : Type 0} (m : String) (path : List String) (rs : List (Pattern × H))
    → All (λ r. method_fits r.0.method m ≡ false) rs
    → choose m path rs ≡ none
unfolding choose
choose-none m path [] e = refl
choose-none m path (r ∷ rs) e = ground (arith, e.0, choose-none m path rs e.1)

-- A method that no route of the server is for.
dispatch-other :
    (m : String) (path : List String)
    → (m == "GET") ≡ false
    → (m == "HEAD") ≡ false
    → (m == "POST") ≡ false
    → (m == "DELETE") ≡ false
    → dispatch m path ≡ none
unfolding dispatch
dispatch-other m path g h p d =
    let get : method_fits "GET" m ≡ false = ground (arith, turned m "GET" g, h) in
    let post : method_fits "POST" m ≡ false = ground (arith, turned m "POST" p) in
    let delete : method_fits "DELETE" m ≡ false = ground (arith, turned m "DELETE" d) in
    ap (chosen path) (
      choose-none m path routes (
        post,
        (
          get,
          (
            get,
            (
              delete,
              (
                post,
                (
                  post,
                  (get, (get, (get, (post, (get, (get, (post, (post, (delete, (get, tt)))))))))),
                ),
              ),
            ),
          ),
        ),
      ))

named-other :
    (m : String) (rest : List String)
    → (m == "GET") ≡ false
    → (m == "HEAD") ≡ false
    → (m == "POST") ≡ false
    → (m == "DELETE") ≡ false
    → named m rest ≡ none
named-other m [] g h p d = ground arith
named-other m (k ∷ []) g h p d = ground arith
named-other m (k ∷ a ∷ []) g h p d = ground arith
named-other m (k ∷ a ∷ b ∷ rest) g h p d = refl

-- A request of any method for an address below `/api/v1/torrents`, none of whose segments is empty,
-- is routed by the whole table of the server, pages and files included, as the API means it: GET and
-- HEAD of the collection list the torrents and POST adds one; GET and HEAD of a hash get the torrent
-- and DELETE removes it; POST of a hash and `pause` or `resume` pauses or resumes it; each with the
-- hash of the address. Anything else has no handler.
pub dispatch-route :
    (method : String) (rest : List String)
    → AreNamed rest
    → dispatch method ("api" ∷ "v1" ∷ "torrents" ∷ rest) ≡ named method rest
dispatch-route m rest e = elim (Bool-cases (m == "GET")) [
  | inl g ↦ subst (λ x. Goes x rest) (sym ((eq_iff m "GET").0 g)) (dispatch-get rest e).0
  | inr g ↦ elim (Bool-cases (m == "HEAD")) [
    | inl h ↦ subst (λ x. Goes x rest) (sym ((eq_iff m "HEAD").0 h)) (dispatch-get rest e).1
    | inr h ↦ elim (Bool-cases (m == "POST")) [
      | inl p ↦ subst (λ x. Goes x rest) (sym ((eq_iff m "POST").0 p)) (dispatch-post rest e)
      | inr p ↦ elim (Bool-cases (m == "DELETE")) [
        | inl d ↦ subst (λ x. Goes x rest) (sym ((eq_iff m "DELETE").0 d)) (dispatch-delete rest e)
        | inr d ↦
            dispatch-other m ("api" ∷ "v1" ∷ "torrents" ∷ rest) g h p d
            ∙ sym (named-other m rest g h p d)
      ]
    ]
  ]
]

module _ {S : Type 0} (torrents : TorrentService S) (required : String → Option Error) where
  abbrev pub Served : Type 0
  Served = (Request → S → Response × S) × String

  -- The methods that the API registers.
  abbrev pub served : Option (Handler × String) → Option Served
  served none = none
  served (some (api_add, v)) = some (Api.add torrents required, v)
  served (some (api_list, v)) = some (Api.list torrents required, v)
  served (some (api_get, v)) = some (Api.get torrents required, v)
  served (some (api_remove, v)) = some (Api.remove torrents required, v)
  served (some (api_pause, v)) = some (Api.pause torrents required, v)
  served (some (api_resume, v)) = some (Api.resume torrents required, v)
  served (some _) = none

  action_served :
      (h a : String)
      → served (named "POST" (h ∷ a ∷ [])) ≡ route torrents required post_method (h ∷ a ∷ [])
  action_served h a = ground arith

  served-named :
      (m : Method) (rest : List String)
      → served (named (method_name m) rest) ≡ route torrents required m rest
  served-named get_method [] = refl
  served-named post_method [] = refl
  served-named delete_method [] = refl
  served-named get_method (h ∷ []) = refl
  served-named post_method (h ∷ []) = refl
  served-named delete_method (h ∷ []) = refl
  served-named get_method (h ∷ a ∷ []) = refl
  served-named post_method (h ∷ a ∷ []) = action_served h a
  served-named delete_method (h ∷ a ∷ []) = refl
  served-named get_method (h ∷ a ∷ b ∷ rest) = refl
  served-named post_method (h ∷ a ∷ b ∷ rest) = refl
  served-named delete_method (h ∷ a ∷ b ∷ rest) = refl
