-- ===== src/Server/Mux/Links.antt =====
-- The addresses that the pages and their scripts ask for, at the routes: those of internal/server/ui
-- in layout/main.templ, component/torrent_row.templ, torrent_table.templ and torrent_toolbar.templ,
-- view/torrent/new.templ and show.templ, and script/selection.templ and delete_detail.templ.
use mathlib.Core.Path.{subst}
use torrents.Prelude.{
  String, false, ◌==◌, ◌≡◌, refl, some, List, [], ◌∷◌, arith, eq_iff, inl, inr, Bool-cases,
  if◌then◌else◌,
}
use torrents.Server.Mux.Routes.{
  Handler, ui_list, ui_new, ui_show, ui_add, ui_table, ui_detail, ui_pause, ui_resume, ui_delete,
  static_files, dispatch,
}
use torrents.Server.Mux.{choose}

-- A link, a form, a script's request or a fragment that a page fetches again.
pub data Link : Type 0 where
  back_link new_link add_form table_fetch : Link
  torrent_link detail_fetch pause_button resume_button delete_button : String → Link
  asset : String → Link

abbrev pub method_of : Link → String
method_of add_form = "POST"
method_of (pause_button h) = "POST"
method_of (resume_button h) = "POST"
method_of (delete_button h) = "DELETE"
method_of _ = "GET"

abbrev pub path_of : Link → List String
path_of back_link = "" ∷ []
path_of new_link = "torrents" ∷ "new" ∷ []
path_of add_form = "torrents" ∷ []
path_of table_fetch = "ui" ∷ "torrents" ∷ []
path_of (torrent_link h) = "torrents" ∷ h ∷ []
path_of (detail_fetch h) = "ui" ∷ "torrents" ∷ h ∷ []
path_of (pause_button h) = "ui" ∷ "torrents" ∷ h ∷ "pause" ∷ []
path_of (resume_button h) = "ui" ∷ "torrents" ∷ h ∷ "resume" ∷ []
path_of (delete_button h) = "ui" ∷ "torrents" ∷ h ∷ []
path_of (asset name) = "static" ∷ name ∷ []

-- What a link is for.
abbrev pub meant : Link → Handler × String
meant back_link = (ui_list, "")
meant new_link = (ui_new, "")
meant add_form = (ui_add, "")
meant table_fetch = (ui_table, "")
meant (torrent_link h) = if "new" == h then (ui_new, "") else (ui_show, h)
meant (detail_fetch h) = (ui_detail, h)
meant (pause_button h) = (ui_pause, h)
meant (resume_button h) = (ui_resume, h)
meant (delete_button h) = (ui_delete, h)
meant (asset name) = (static_files, "")

-- The hash that a link is about.
abbrev pub HasHash : Link → Type 0
HasHash (torrent_link h) = h == "" ≡ false
HasHash (detail_fetch h) = h == "" ≡ false
HasHash (pause_button h) = h == "" ≡ false
HasHash (resume_button h) = h == "" ≡ false
HasHash (delete_button h) = h == "" ≡ false
HasHash _ = Unit

-- Each address that a page asks for is answered by the handler that it is for, which gets the hash
-- that the page put into it, where that is not empty; the page of a torrent called "new" alone is not
-- reached, since the form to add one has its address.
pub dispatch-link : (l : Link) → HasHash l → dispatch (method_of l) (path_of l) ≡ some (meant l)
unfolding dispatch choose
dispatch-link back_link e = refl
dispatch-link new_link e = refl
dispatch-link add_form e = refl
dispatch-link table_fetch e = refl
dispatch-link (torrent_link h) e = elim (Bool-cases ("new" == h)) [
  | inl same ↦
      let at_new = (eq_iff "new" h).0 same in
      subst (λ x. dispatch "GET" ("torrents" ∷ x ∷ []) ≡ some (meant (torrent_link x))) {x = "new"}
        {y = h} at_new refl
  | inr other ↦ ground (arith, e, other)
]
dispatch-link (detail_fetch h) e = ground (arith, e)
dispatch-link (pause_button h) e = ground (arith, e)
dispatch-link (resume_button h) e = ground (arith, e)
dispatch-link (delete_button h) e = ground (arith, e)
dispatch-link (asset name) e = refl
