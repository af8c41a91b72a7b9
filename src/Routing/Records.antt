-- ===== src/Routing/Records.antt =====
-- The services of records, and the routes that they reach.
use Prim.Native.Char.{Char, code}
use enterprise_crm.Common.{
  false-true, arith, eqb, ◌&&◌, ◌||◌, ◌≡◌, refl, ap, ◌∙◌, String, ◌<>◌, Bool, true, false, some,
  List, [], ◌∷◌,
}
use enterprise_crm.Common.Text.{in_range, IsSegment}
use enterprise_crm.Http.{Json, Method}
use enterprise_crm.Routes.Handlers.{RouteModule}
use enterprise_crm.Routes.Crm.{
  activities, activity, companies, company, contacts, contact, deals, deal, leads, lead, notes,
  note, tasks, task,
}
use enterprise_crm.Routes.Sales.{pipelines, pipeline, tags, tag}
use enterprise_crm.Services.{
  record_service, RecordService, activity_service, company_service, contact_service, deal_service,
  lead_service, note_service, pipeline_service, tag_service, task_service,
}
use enterprise_crm.Services.Query.{QueryValue, to_query_string}
use enterprise_crm.Routing.{
  segments, match_path, find_route, dispatch, after_root, handles, Reaches,
}
use enterprise_crm.Routing.Segments.{
  glue, no_query, segments-append, segments-one, segments-to_query_string,
}

-- The five operations reach the module of the table and the module of the record.
abbrev pub ServiceReaches :
    RecordService
    → RouteModule
    → (String → RouteModule)
    → Json
    → String
    → List (String × QueryValue)
    → Type 0
ServiceReaches service table record_of input id params =
    Reaches (service.create input) table
    × Reaches (service.list params) table
    × Reaches (service.get id) (record_of id)
    × Reaches (service.update id input) (record_of id)
    × Reaches (service.remove id) (record_of id)

pub list_segments :
    (table : String) (params : List (String × QueryValue))
    → no_query table ≡ true
    → segments (table <> to_query_string params) ≡ glue (segments table) (String.[] ∷ [])
list_segments table params h =
    segments-append table (to_query_string params) h
    ∙ ap (glue (segments table)) (segments-to_query_string params)

-- An identifier of the back end: letters, digits and dashes, as in a UUID.
unfoldable pub are_id_chars : String → Bool
are_id_chars String.[] = true
are_id_chars (String.◌∷◌ c s) =
    (in_range b'a' b'z' (code c)
      || in_range b'A' b'Z' (code c)
      || in_range b'0' b'9' (code c)
      || eqb (code c) b'-')
    && are_id_chars s

unfoldable pub is_id : String → Bool
unfolding are_id_chars
is_id String.[] = false
is_id (String.◌∷◌ c s) = are_id_chars (String.◌∷◌ c s)

abbrev pub IsId : String → Type 0
IsId id = is_id id ≡ true

are_id_chars-IsSegment : (s : String) → are_id_chars s ≡ true → IsSegment s
unfolding are_id_chars
are_id_chars-IsSegment String.[] h = tt
are_id_chars-IsSegment (String.◌∷◌ c s) h = ground (arith, are_id_chars-IsSegment s)

pub IsId-IsSegment : (s : String) → IsId s → IsSegment s
unfolding is_id
IsId-IsSegment String.[] h = tt
IsId-IsSegment (String.◌∷◌ c s) h = are_id_chars-IsSegment (String.◌∷◌ c s) h

glue-segments :
    (id : String) → IsSegment id → glue (segments "/") (segments id) ≡ String.[] ∷ id ∷ []
unfolding segments
glue-segments id inside = ap (glue (segments "/")) (segments-one id inside)

pub slash_segments : (id : String) → IsSegment id → segments ("/" <> id) ≡ String.[] ∷ id ∷ []
slash_segments id inside = segments-append "/" id refl ∙ glue-segments id inside

record_segments :
    (table id : String)
    → no_query table ≡ true
    → IsSegment id
    → segments (table <> "/" <> id) ≡ glue (segments table) (String.[] ∷ id ∷ [])
record_segments table id h inside =
    segments-append table ("/" <> id) h ∙ ap (glue (segments table)) (slash_segments id inside)

-- What a table's paths lead to, by the segments of its name: the table's own, with a query and
-- without; and what its modules handle.
abbrev TableRoutes : String → RouteModule → (String → RouteModule) → Type 0
TableRoutes name table record_of =
    (no_query name ≡ true)
    × (after_root (segments name) ≡ some table)
    × (after_root (glue (segments name) (String.[] ∷ [])) ≡ some table)
    × ((c : Char) (s : String)
        → after_root (glue (segments name) (String.[] ∷ String.◌∷◌ c s ∷ []))
          ≡ some (record_of (String.◌∷◌ c s)))
    × (handles Method.post table ≡ true)
    × (handles Method.get table ≡ true)
    × ((id : String)
        → (handles Method.get (record_of id) ≡ true)
          × (handles Method.patch (record_of id) ≡ true)
          × (handles Method.delete (record_of id) ≡ true))

pub dispatch-record :
    (name : String) (table : RouteModule) (record_of : String → RouteModule) (id : String)
    → TableRoutes name table record_of
    → IsId id
    → dispatch (name <> "/" <> id) ≡ some (record_of id)
unfolding dispatch is_id
dispatch-record name table record_of String.[] r h = absurd (false-true h)
dispatch-record name table record_of (String.◌∷◌ c s) (plain, _, _, to_record, _, _, _) h =
    ap after_root (record_segments name (String.◌∷◌ c s) plain (IsId-IsSegment (String.◌∷◌ c s) h))
    ∙ to_record c s

service-Reaches :
    (name : String) (table : RouteModule) (record_of : String → RouteModule)
    → TableRoutes name table record_of
    → (input : Json) (id : String) (params : List (String × QueryValue)) → IsId id
    → ServiceReaches (record_service name) table record_of input id params
unfolding dispatch
service-Reaches name table record_of r input id params h =
    let found = dispatch-record name table record_of id r h in
    let (plain, to_table, to_list, _, creates, lists, handled) = r in
    let (gets, updates, removes) = handled id in
    (
      (to_table, creates),
      (ap after_root (list_segments name params plain) ∙ to_list, lists),
      (found, gets),
      (found, updates),
      (found, removes),
    )

-- All nine services reach the modules of their tables.
abbrev pub RecordsReach : Json → String → List (String × QueryValue) → Type 0
RecordsReach input id params =
    ServiceReaches activity_service activities activity input id params
    × ServiceReaches company_service companies company input id params
    × ServiceReaches contact_service contacts contact input id params
    × ServiceReaches deal_service deals deal input id params
    × ServiceReaches lead_service leads lead input id params
    × ServiceReaches note_service notes note input id params
    × ServiceReaches pipeline_service pipelines pipeline input id params
    × ServiceReaches tag_service tags tag input id params
    × ServiceReaches task_service tasks task input id params

-- The five operations that the nine services share lead to the route module of the table or of the
-- record, which has a handler for the call's method, whatever the input and the filters are.
pub records-Reach :
    (input : Json) (id : String) (params : List (String × QueryValue))
    → IsId id
    → RecordsReach input id params
unfolding find_route match_path segments
records-Reach input id params h = (
  service-Reaches "/activities" activities activity
      (refl, refl, refl, λ c s. refl, refl, refl, λ id. (refl, refl, refl)) input id params h,
  service-Reaches "/companies" companies company
      (refl, refl, refl, λ c s. refl, refl, refl, λ id. (refl, refl, refl)) input id params h,
  service-Reaches "/contacts" contacts contact
      (refl, refl, refl, λ c s. refl, refl, refl, λ id. (refl, refl, refl)) input id params h,
  service-Reaches "/deals" deals deal
      (refl, refl, refl, λ c s. refl, refl, refl, λ id. (refl, refl, refl)) input id params h,
  service-Reaches "/leads" leads lead
      (refl, refl, refl, λ c s. refl, refl, refl, λ id. (refl, refl, refl)) input id params h,
  service-Reaches "/notes" notes note
      (refl, refl, refl, λ c s. refl, refl, refl, λ id. (refl, refl, refl)) input id params h,
  service-Reaches "/pipelines" pipelines pipeline
      (refl, refl, refl, λ c s. refl, refl, refl, λ id. (refl, refl, refl)) input id params h,
  service-Reaches "/tags" tags tag
      (refl, refl, refl, λ c s. refl, refl, refl, λ id. (refl, refl, refl)) input id params h,
  service-Reaches "/tasks" tasks task
      (refl, refl, refl, λ c s. refl, refl, refl, λ id. (refl, refl, refl)) input id params h,
)
