-- ===== src/Routing/Nested.antt =====
-- The services whose paths hold identifiers, and the routes that they reach.
use enterprise_crm.Common.{
  false-true, ◌≡◌, refl, ap, ◌∙◌, arith, String, ◌<>◌, true, some, List, [], ◌∷◌,
}
use enterprise_crm.Common.Text.{IsSegment}
use enterprise_crm.Http.{Json}
use enterprise_crm.Routes.Crm.{lead_convert}
use enterprise_crm.Routes.Sales.{stages, stage, assignment}
use enterprise_crm.Routes.Account.{user, notification_read}
use enterprise_crm.Routes.Files.{attachment}
use enterprise_crm.Services.{
  convert, create_stage, remove_stage, update_stage, assign, unassign, remove_attachment, mark_read,
  update_user,
}
use enterprise_crm.Routing.{push, segments, match_path, find_route, dispatch, after_root, Reaches}
use enterprise_crm.Routing.Segments.{glue, prepend, no_query, segments-append, segments-one}
use enterprise_crm.Services.Query.{QueryValue}
use enterprise_crm.Routing.Records.{IsId, is_id, IsId-IsSegment, RecordsReach, records-Reach}

IsSegment-no_query : (s : String) → IsSegment s → no_query s ≡ true
IsSegment-no_query String.[] h = refl
IsSegment-no_query (String.◌∷◌ c s) h = ground (arith, IsSegment-no_query s h.1)

prepend_segment : (s : String) (xs : List String) → prepend s (String.[] ∷ xs) ≡ s ∷ xs
prepend_segment String.[] xs = refl
prepend_segment (String.◌∷◌ c s) xs = ap (push c) (prepend_segment s xs)

-- A fixed part, an identifier, and what follows it from the next slash on.
pub nested_segments :
    (prefix id sub : String) (xs : List String)
    → no_query prefix ≡ true
    → IsId id
    → segments sub ≡ String.[] ∷ xs
    → segments (prefix <> id <> sub) ≡ glue (segments prefix) (id ∷ xs)
nested_segments prefix id sub xs h k e =
    let inside : IsSegment id = IsId-IsSegment id k in
    segments-append prefix (id <> sub) h
    ∙ ap (glue (segments prefix)) (
        segments-append id sub (IsSegment-no_query id inside)
        ∙ ap (λ ys. glue ys (segments sub)) (segments-one id inside)
        ∙ ap (prepend id) e
        ∙ prepend_segment id xs)

pub last_segments :
    (prefix id : String)
    → no_query prefix ≡ true
    → IsId id
    → segments (prefix <> id) ≡ glue (segments prefix) (id ∷ [])
last_segments prefix id h k =
    segments-append prefix id h
    ∙ ap (glue (segments prefix)) (segments-one id (IsId-IsSegment id k))

-- The paths of a record below another, and of a member of one.
dispatch-convert :
    (id : String) → IsId id → dispatch ("/leads/" <> id <> "/convert") ≡ some (lead_convert id)
unfolding dispatch find_route match_path segments is_id
dispatch-convert String.[] h = absurd (false-true h)
dispatch-convert (String.◌∷◌ c s) h =
    ap after_root
      (nested_segments "/leads/" (String.◌∷◌ c s) "/convert" ("convert" ∷ []) refl h refl)

dispatch-stages :
    (id : String) → IsId id → dispatch ("/pipelines/" <> id <> "/stages") ≡ some (stages id)
unfolding dispatch find_route match_path segments is_id
dispatch-stages String.[] h = absurd (false-true h)
dispatch-stages (String.◌∷◌ c s) h =
    ap after_root
      (nested_segments "/pipelines/" (String.◌∷◌ c s) "/stages" ("stages" ∷ []) refl h refl)

dispatch-stage :
    (id stage_id : String)
    → IsId id
    → IsId stage_id
    → dispatch ("/pipelines/" <> id <> "/stages/" <> stage_id) ≡ some (stage id stage_id)
unfolding dispatch find_route match_path segments is_id
dispatch-stage String.[] t h k = absurd (false-true h)
dispatch-stage (String.◌∷◌ c s) String.[] h k = absurd (false-true k)
dispatch-stage (String.◌∷◌ c s) (String.◌∷◌ d t) h k = ap after_root (
    nested_segments "/pipelines/" (String.◌∷◌ c s) ("/stages/" <> String.◌∷◌ d t)
      ("stages" ∷ String.◌∷◌ d t ∷ []) refl h (last_segments "/stages/" (String.◌∷◌ d t) refl k))

dispatch-read :
    (id : String)
    → IsId id
    → dispatch ("/notifications/" <> id <> "/read") ≡ some (notification_read id)
unfolding dispatch find_route match_path segments is_id
dispatch-read String.[] h = absurd (false-true h)
dispatch-read (String.◌∷◌ c s) h =
    ap after_root
      (nested_segments "/notifications/" (String.◌∷◌ c s) "/read" ("read" ∷ []) refl h refl)

dispatch-attachment :
    (id : String) → IsId id → dispatch ("/attachments/" <> id) ≡ some (attachment id)
unfolding dispatch find_route match_path segments is_id
dispatch-attachment String.[] h = absurd (false-true h)
dispatch-attachment (String.◌∷◌ c s) h =
    ap after_root (last_segments "/attachments/" (String.◌∷◌ c s) refl h)

dispatch-user : (id : String) → IsId id → dispatch ("/users/" <> id) ≡ some (user id)
unfolding dispatch find_route match_path segments is_id
dispatch-user String.[] h = absurd (false-true h)
dispatch-user (String.◌∷◌ c s) h = ap after_root (last_segments "/users/" (String.◌∷◌ c s) refl h)

dispatch-assignment :
    (id kind entity : String)
    → IsId id
    → IsId kind
    → IsId entity
    → dispatch ("/tags/" <> id <> "/assignments/" <> kind <> "/" <> entity)
      ≡ some (assignment id kind entity)
unfolding dispatch find_route match_path segments is_id
dispatch-assignment String.[] k e h i j = absurd (false-true h)
dispatch-assignment (String.◌∷◌ c s) String.[] e h i j = absurd (false-true i)
dispatch-assignment (String.◌∷◌ c s) (String.◌∷◌ d t) String.[] h i j = absurd (false-true j)
dispatch-assignment (String.◌∷◌ c s) (String.◌∷◌ d t) (String.◌∷◌ e u) h i j = ap after_root (
    nested_segments "/tags/" (String.◌∷◌ c s)
      ("/assignments/" <> String.◌∷◌ d t <> "/" <> String.◌∷◌ e u)
      ("assignments" ∷ String.◌∷◌ d t ∷ String.◌∷◌ e u ∷ []) refl h
      (nested_segments "/assignments/" (String.◌∷◌ d t) ("/" <> String.◌∷◌ e u)
        (String.◌∷◌ e u ∷ []) refl i (last_segments "/" (String.◌∷◌ e u) refl j)))

-- The other calls whose path holds an identifier: a notification's mark, an attachment's removal and
-- a user's update.
pub single-Reach :
    (input : Json) (id : String)
    → IsId id
    → Reaches (mark_read id) (notification_read id)
      × Reaches (remove_attachment id) (attachment id)
      × Reaches (update_user id input) (user id)
single-Reach input id h =
    ((dispatch-read id h, refl), (dispatch-attachment id h, refl), (dispatch-user id h, refl))

-- The calls that the services of leads, pipelines and tags make besides the five of every service.
abbrev pub FurtherReach : Json → String → String → String → Type 0
FurtherReach input id kind other =
    Reaches (convert id input) (lead_convert id)
    × Reaches (create_stage id input) (stages id)
    × Reaches (update_stage id other input) (stage id other)
    × Reaches (remove_stage id other) (stage id other)
    × Reaches (assign id kind other) (assignment id kind other)
    × Reaches (unassign id kind other) (assignment id kind other)

-- Every call of the nine services of records leads to the route module of its path, with the path's
-- identifiers as its parameters, and the module has a handler for the call's method, whatever the input
-- and the filters are: the five calls of each service, the conversion of a lead, the three calls for a
-- pipeline's stages and the two for a tag's assignments. The identifiers and the type of a tag's record
-- are texts of letters, digits and dashes.
pub record_calls-Reach :
    (input : Json) (id kind other : String) (params : List (String × QueryValue))
    → IsId id
    → IsId kind
    → IsId other
    → RecordsReach input id params × FurtherReach input id kind other
record_calls-Reach input id kind other params h i j = (
  records-Reach input id params h,
  (
    (dispatch-convert id h, refl),
    (dispatch-stages id h, refl),
    (dispatch-stage id other h j, refl),
    (dispatch-stage id other h j, refl),
    (dispatch-assignment id kind other h i j, refl),
    (dispatch-assignment id kind other h i j, refl),
  ),
)
