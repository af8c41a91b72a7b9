-- ===== src/Routing/V3.antt =====
-- The calls of v3-service.ts, the generic route, and the path that it forwards.
use enterprise_crm.Common.{ap, refl, arith, ◌∙◌, ◌≡◌, String, ◌<>◌, true, some, List, [], ◌∷◌}
use enterprise_crm.Common.Text.{encode_uri_component, is_unreserved}
use enterprise_crm.Http.{Json, ok}
use enterprise_crm.Client.{method_of}
use enterprise_crm.Client.Methods.{Sends}
use enterprise_crm.Routes.V3.{is_part_char, are_part_chars, is_part, join, backend_path, v3}
use enterprise_crm.Routes.V3.Laws.{backend_path_iff}
use enterprise_crm.Services.V3.{
  create_saved_view, update_saved_view, remove_saved_view, create_custom_field, update_custom_field,
  remove_custom_field, list_workflows, create_workflow, data_quality, forecast, morning_brief,
  win_loss, list_goals, create_goal, remove_goal, create_product, update_product, list_quotes,
  create_quote, get_quote,
}
use enterprise_crm.Services.Extensions.{
  ai_status, copilot, list_widgets, create_widget, update_widget, remove_widget, list_sequences,
  create_sequence, remove_sequence, enrollments, list_api_keys, create_api_key, list_webhooks,
  create_webhook, list_deliveries,
}
use enterprise_crm.Routing.{
  segments, match_path, find_route, dispatch, after_root, handles, Reaches,
}
use enterprise_crm.Routing.Records.{IsId, is_id, are_id_chars}
use enterprise_crm.Routing.Nested.{last_segments}
use text.Mathlib.TextLemmas.{append_assoc}

-- A call reaches the generic route, which handles it and forwards the very path of the call.
abbrev pub PassesThrough : Sends → List String → Type 0
PassesThrough (path, options) parts =
    Reaches (path, options) (v3 parts) × (backend_path parts ≡ ok path)

are_id_chars-are_part_chars : (s : String) → are_id_chars s ≡ true → are_part_chars s ≡ true
unfolding are_id_chars are_part_chars is_part_char
are_id_chars-are_part_chars String.[] h = refl
are_id_chars-are_part_chars (String.◌∷◌ c s) h = ground (arith, are_id_chars-are_part_chars s)

IsId-is_part : (s : String) → IsId s → is_part s ≡ true
unfolding is_id is_part
IsId-is_part String.[] h = cc
IsId-is_part (String.◌∷◌ c s) h = are_id_chars-are_part_chars (String.◌∷◌ c s) h

member_path :
    (table id path : String)
    → is_part table ≡ true
    → IsId id
    → path ≡ "/v3/" <> table <> "/" <> id
    → backend_path (table ∷ id ∷ []) ≡ ok path
unfolding join
member_path table id path h k e =
    (backend_path_iff (table ∷ id ∷ []) path).1 (λ x. cc, rw (h, IsId-is_part id k) refl, e)

folded :
    (prefix table id : String)
    → prefix ≡ "/v3/" <> table <> "/"
    → prefix <> id ≡ "/v3/" <> table <> "/" <> id
folded prefix table id e =
    ap (λ p. p <> id) e
    ∙ append_assoc "/v3/" (table <> "/") id
    ∙ ap (λ s. "/v3/" <> s) (append_assoc table "/" id)

-- The calls on a table below `/v3/`, and on one of its members.
abbrev pub MembersPass : Json → String → Type 0
MembersPass input id =
    PassesThrough (update_saved_view id input) ("saved-views" ∷ id ∷ [])
    × PassesThrough (remove_saved_view id) ("saved-views" ∷ id ∷ [])
    × PassesThrough (update_custom_field id input) ("custom-fields" ∷ id ∷ [])
    × PassesThrough (remove_custom_field id) ("custom-fields" ∷ id ∷ [])
    × PassesThrough (remove_goal id) ("goals" ∷ id ∷ [])
    × PassesThrough (update_product id input) ("products" ∷ id ∷ [])
    × PassesThrough (get_quote id) ("quotes" ∷ id ∷ [])
    × PassesThrough (update_widget id input) ("dashboard-widgets" ∷ id ∷ [])
    × PassesThrough (remove_widget id) ("dashboard-widgets" ∷ id ∷ [])
    × PassesThrough (remove_sequence id) ("sequences" ∷ id ∷ [])

-- Where a member of a table leads: the generic route, and the same path of the back end.
abbrev MemberPath : String → String → String → Type 0
MemberPath prefix table id =
    (dispatch (prefix <> id) ≡ some (v3 (table ∷ id ∷ [])))
    × (backend_path (table ∷ id ∷ []) ≡ ok (prefix <> id))

saved_view_path : (id : String) → IsId id → MemberPath "/v3/saved-views/" "saved-views" id
unfolding dispatch find_route match_path segments is_part are_part_chars is_part_char
saved_view_path id h = (
  ap after_root (last_segments "/v3/saved-views/" id refl h),
  member_path "saved-views" id ("/v3/saved-views/" <> id) refl h
      (folded "/v3/saved-views/" "saved-views" id refl),
)

custom_field_path : (id : String) → IsId id → MemberPath "/v3/custom-fields/" "custom-fields" id
unfolding dispatch find_route match_path segments is_part are_part_chars is_part_char
custom_field_path id h = (
  ap after_root (last_segments "/v3/custom-fields/" id refl h),
  member_path "custom-fields" id ("/v3/custom-fields/" <> id) refl h
      (folded "/v3/custom-fields/" "custom-fields" id refl),
)

goal_path : (id : String) → IsId id → MemberPath "/v3/goals/" "goals" id
unfolding dispatch find_route match_path segments is_part are_part_chars is_part_char
goal_path id h = (
  ap after_root (last_segments "/v3/goals/" id refl h),
  member_path "goals" id ("/v3/goals/" <> id) refl h (folded "/v3/goals/" "goals" id refl),
)

product_path : (id : String) → IsId id → MemberPath "/v3/products/" "products" id
unfolding dispatch find_route match_path segments is_part are_part_chars is_part_char
product_path id h = (
  ap after_root (last_segments "/v3/products/" id refl h),
  member_path "products" id ("/v3/products/" <> id) refl h
      (folded "/v3/products/" "products" id refl),
)

quote_path : (id : String) → IsId id → MemberPath "/v3/quotes/" "quotes" id
unfolding dispatch find_route match_path segments is_part are_part_chars is_part_char
quote_path id h = (
  ap after_root (last_segments "/v3/quotes/" id refl h),
  member_path "quotes" id ("/v3/quotes/" <> id) refl h (folded "/v3/quotes/" "quotes" id refl),
)

widget_path : (id : String) → IsId id → MemberPath "/v3/dashboard-widgets/" "dashboard-widgets" id
unfolding dispatch find_route match_path segments is_part are_part_chars is_part_char
widget_path id h = (
  ap after_root (last_segments "/v3/dashboard-widgets/" id refl h),
  member_path "dashboard-widgets" id ("/v3/dashboard-widgets/" <> id) refl h
      (folded "/v3/dashboard-widgets/" "dashboard-widgets" id refl),
)

sequence_path : (id : String) → IsId id → MemberPath "/v3/sequences/" "sequences" id
unfolding dispatch find_route match_path segments is_part are_part_chars is_part_char
sequence_path id h = (
  ap after_root (last_segments "/v3/sequences/" id refl h),
  member_path "sequences" id ("/v3/sequences/" <> id) refl h
      (folded "/v3/sequences/" "sequences" id refl),
)

member_passes :
    (sends : Sends) (parts : List String)
    → (dispatch sends.0 ≡ some (v3 parts)) × (backend_path parts ≡ ok sends.0)
    → handles (method_of sends.1) (v3 parts) ≡ true
    → PassesThrough sends parts
member_passes sends parts (found, forwarded) handled = ((found, handled), forwarded)

-- Every call that reads, changes or removes a member of one of the seven tables directly below
-- `/v3/` leads to the generic route, which handles the call's method and forwards it to the very
-- path of the call, if the member's identifier is a text of letters, digits and dashes.
pub members-Pass : (input : Json) (id : String) → IsId id → MembersPass input id
members-Pass input id h = (
  member_passes (update_saved_view id input) _ (saved_view_path id h) refl,
  member_passes (remove_saved_view id) _ (saved_view_path id h) refl,
  member_passes (update_custom_field id input) _ (custom_field_path id h) refl,
  member_passes (remove_custom_field id) _ (custom_field_path id h) refl,
  member_passes (remove_goal id) _ (goal_path id h) refl,
  member_passes (update_product id input) _ (product_path id h) refl,
  member_passes (get_quote id) _ (quote_path id h) refl,
  member_passes (update_widget id input) _ (widget_path id h) refl,
  member_passes (remove_widget id) _ (widget_path id h) refl,
  member_passes (remove_sequence id) _ (sequence_path id h) refl,
)

-- The calls whose path below `/v3/` is fixed.
abbrev pub FixedPass : Json → String → Type 0
FixedPass input name =
    PassesThrough (create_saved_view input) ("saved-views" ∷ [])
    × PassesThrough (create_custom_field input) ("custom-fields" ∷ [])
    × PassesThrough list_workflows ("automation" ∷ "workflows" ∷ [])
    × PassesThrough (create_workflow input) ("automation" ∷ "workflows" ∷ [])
    × PassesThrough data_quality ("intelligence" ∷ "data-quality" ∷ [])
    × PassesThrough morning_brief ("intelligence" ∷ "morning-brief" ∷ [])
    × PassesThrough forecast ("reports" ∷ "forecast" ∷ [])
    × PassesThrough win_loss ("reports" ∷ "win-loss" ∷ [])
    × PassesThrough list_goals ("goals" ∷ [])
    × PassesThrough (create_goal input) ("goals" ∷ [])
    × PassesThrough (create_product input) ("products" ∷ [])
    × PassesThrough list_quotes ("quotes" ∷ [])
    × PassesThrough (create_quote input) ("quotes" ∷ [])
    × PassesThrough ai_status ("ai" ∷ "status" ∷ [])
    × PassesThrough (copilot name name) ("ai" ∷ "copilot" ∷ [])
    × PassesThrough list_widgets ("dashboard-widgets" ∷ [])
    × PassesThrough (create_widget input) ("dashboard-widgets" ∷ [])
    × PassesThrough list_sequences ("sequences" ∷ [])
    × PassesThrough (create_sequence input) ("sequences" ∷ [])
    × PassesThrough enrollments ("sequences" ∷ "enrollments" ∷ [])
    × PassesThrough list_api_keys ("developer" ∷ "api-keys" ∷ [])
    × PassesThrough (create_api_key name) ("developer" ∷ "api-keys" ∷ [])
    × PassesThrough list_webhooks ("developer" ∷ "webhooks" ∷ [])
    × PassesThrough (create_webhook input) ("developer" ∷ "webhooks" ∷ [])
    × PassesThrough list_deliveries ("developer" ∷ "webhook-deliveries" ∷ [])

-- Every call of v3-service.ts whose path is fixed, but for the two streams, leads to the generic route, which handles the
-- call's method and forwards it to the very path of the call.
pub fixed-Pass : (input : Json) (name : String) → FixedPass input name
unfolding dispatch find_route match_path segments backend_path join is_part are_part_chars
    is_part_char encode_uri_component is_unreserved
fixed-Pass input name = (
  ((refl, refl), refl),
  ((refl, refl), refl),
  ((refl, refl), refl),
  ((refl, refl), refl),
  ((refl, refl), refl),
  ((refl, refl), refl),
  ((refl, refl), refl),
  ((refl, refl), refl),
  ((refl, refl), refl),
  ((refl, refl), refl),
  ((refl, refl), refl),
  ((refl, refl), refl),
  ((refl, refl), refl),
  ((refl, refl), refl),
  ((refl, refl), refl),
  ((refl, refl), refl),
  ((refl, refl), refl),
  ((refl, refl), refl),
  ((refl, refl), refl),
  ((refl, refl), refl),
  ((refl, refl), refl),
  ((refl, refl), refl),
  ((refl, refl), refl),
  ((refl, refl), refl),
  ((refl, refl), refl),
)
