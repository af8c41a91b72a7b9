-- ===== src/Details/Runs.antt =====
-- The pages of one record: what they show in every state that they come to.
use enterprise_crm.Common.{
  ◌≡◌, refl, String, Bool, true, false, not, Option, none, some, is_some, ◌||◌, arith,
}
use enterprise_crm.Hooks.{Loaded, content, api_failure, other_failure, get_error_message}
use enterprise_crm.Details.{
  Detail, mounted, View, loading, problem, shown, load_settled, update_settled, delete_settled,
  view_of, detail_of, unmount,
}

-- What the reader and the back end may do: the form and the buttons are there once a record is shown, a
-- form that is being saved and a record that is being deleted are not sent again, and the call of a
-- deletion ends once.
pub data Step {A : Type 0} (fallback missing list_path : String) (page : Detail A)
    : Detail A → Type 0 where
  load_ended :
      (loaded : Loaded A)
      → page.is_loading ≡ true
      → Step fallback missing list_path page
          ((detail_of fallback missing list_path).loaded loaded page)
  toggled :
      Step fallback missing list_path page
        ((detail_of fallback missing list_path).toggle_editing page)
  cancelled :
      Step fallback missing list_path page ((detail_of fallback missing list_path).cancel page)
  submitted :
      page.is_loading ≡ false
      → page.is_saving ≡ false
      → Step fallback missing list_path page
          ((detail_of fallback missing list_path).begin_update page)
  update_ended :
      (answer : Loaded A)
      → page.is_saving ≡ true
      → Step fallback missing list_path page
          ((detail_of fallback missing list_path).end_update answer page)
  delete_clicked :
      (confirmed : Bool)
      → page.is_loading ≡ false
      → page.is_deleting ≡ false
      → Step fallback missing list_path page
          ((detail_of fallback missing list_path).begin_delete confirmed page)
  delete_ended :
      (answer : Loaded Unit)
      → page.is_deleting ≡ true
      → page.replaced_by ≡ none
      → Step fallback missing list_path page
          ((detail_of fallback missing list_path).end_delete answer page)
  unmounted : Step fallback missing list_path page (unmount page)

pub data Reachable {A : Type 0} (fallback missing list_path : String) : Detail A → Type 0 where
  start : Reachable fallback missing list_path mounted
  step :
      {before after : Detail A}
      → Reachable fallback missing list_path before
      → Step fallback missing list_path before after
      → Reachable fallback missing list_path after

-- A page that has loaded has its record or an error, and one that leaves for the list is still
-- deleting.
abbrev IsStanding : {A : Type 0} → Detail A → Type 0
IsStanding page =
    ((page.is_loading || (is_some page.value || is_some page.error)) ≡ true)
    × ((not (is_some page.replaced_by) || page.is_deleting) ≡ true)

loaded-IsStanding :
    {A : Type 0} (fallback : String) (loaded : Loaded A) (page : Detail A)
    → IsStanding page
    → IsStanding (load_settled fallback loaded page)
unfolding load_settled get_error_message
loaded-IsStanding fallback (content value) page h = ground arith
loaded-IsStanding fallback (api_failure message) page h = ground arith
loaded-IsStanding fallback other_failure page h = ground arith

updated-IsStanding :
    {A : Type 0} (fallback : String) (answer : Loaded A) (page : Detail A)
    → IsStanding page
    → IsStanding (update_settled fallback answer page)
unfolding update_settled get_error_message
updated-IsStanding fallback (content value) page h = ground arith
updated-IsStanding fallback (api_failure message) page h = ground arith
updated-IsStanding fallback other_failure page h = ground arith

deleted-IsStanding :
    {A : Type 0} (fallback list_path : String) (answer : Loaded Unit) (page : Detail A)
    → page.is_deleting ≡ true
    → page.replaced_by ≡ none
    → IsStanding page
    → IsStanding (delete_settled fallback list_path answer page)
unfolding delete_settled get_error_message
deleted-IsStanding fallback list_path (content done) page deleting here h = ground arith
deleted-IsStanding fallback list_path (api_failure message) page deleting here h = ground arith
deleted-IsStanding fallback list_path other_failure page deleting here h = ground arith

Step-IsStanding :
    {A : Type 0} (fallback missing list_path : String) (page after : Detail A)
    → Step fallback missing list_path page after
    → IsStanding page
    → IsStanding after
unfolding detail_of
Step-IsStanding fallback missing list_path page after (load_ended answer waiting) h =
    loaded-IsStanding fallback answer page h
Step-IsStanding fallback missing list_path page after toggled h = h
Step-IsStanding fallback missing list_path page after cancelled h = h
Step-IsStanding fallback missing list_path page after (submitted there idle) h = h
Step-IsStanding fallback missing list_path page after (update_ended answer saving) h =
    updated-IsStanding fallback answer page h
Step-IsStanding fallback missing list_path page after (delete_clicked true there idle) h =
    ground arith
Step-IsStanding fallback missing list_path page after (delete_clicked false there idle) h = h
Step-IsStanding fallback missing list_path page after (delete_ended answer deleting here) h =
    deleted-IsStanding fallback list_path answer page deleting here h
Step-IsStanding fallback missing list_path page after unmounted h = h

Reachable-IsStanding :
    {A : Type 0} (fallback missing list_path : String) (page : Detail A)
    → Reachable fallback missing list_path page
    → IsStanding page
Reachable-IsStanding fallback missing list_path page start = (refl, refl)
Reachable-IsStanding fallback missing list_path page (step {before} reached taken) =
    Step-IsStanding fallback missing list_path before page taken
      (Reachable-IsStanding fallback missing list_path before reached)

-- A page says why there is no record by the message of the error that has come up.
abbrev pub IsExplained : {A : Type 0} → View A → Detail A → Type 0
IsExplained loading page = page.is_loading ≡ true
IsExplained (problem text) page = page.error ≡ some text
IsExplained (shown value above) page = (page.value ≡ some value) × (page.error ≡ above)

view_of-IsExplained :
    {A : Type 0} (missing : String) (page : Detail A) (loading_flag : Bool) (value : Option A)
    (error : Option String)
    → page.is_loading ≡ loading_flag
    → page.value ≡ value
    → page.error ≡ error
    → (loading_flag || (is_some value || is_some error)) ≡ true
    → IsExplained (view_of missing page) page
unfolding view_of
view_of-IsExplained missing page true value error l v e h = rw l refl
view_of-IsExplained missing page false (some value) error l v e h = rw (l, v) (refl, refl)
view_of-IsExplained missing page false none (some text) l v e h = rw (l, v, e) refl
view_of-IsExplained missing page false none none l v e h = ground arith

-- In every state that the page of a record comes to, it loads, or shows its record with the error that
-- has come up since, or says by an error's message why there is none, and never that the record is
-- missing; and a page that leaves for its list has its button for the deletion disabled.
pub Reachable-IsExplained :
    {A : Type 0} (fallback missing list_path : String) (page : Detail A)
    → Reachable fallback missing list_path page
    → IsExplained ((detail_of fallback missing list_path).view page) page
      × ((not (is_some page.replaced_by) || page.is_deleting) ≡ true)
unfolding detail_of
Reachable-IsExplained fallback missing list_path page reached =
    let stands = Reachable-IsStanding fallback missing list_path page reached in
    (
      view_of-IsExplained missing page page.is_loading page.value page.error refl refl refl
          stands.0,
      stands.1,
    )
