-- ===== src/Tests/Conversion.antt =====
-- Tests of the form that turns a lead into a deal.
use enterprise_crm.Common.{
  ◌≡◌, refl, String, Bool, true, false, Option, none, some, List, [], ◌∷◌, ◌==◌, if◌then◌else◌,
  or_else,
}
use enterprise_crm.Common.Text.{trim}
use enterprise_crm.SalesBoard.{Scalar, amount, text, PipelineStage}
use enterprise_crm.Palette.{utf16_length}
use enterprise_crm.Conversion.{
  Panel, opened_panel, has_stage, select_pipeline, show_stages, submit_conversion, can_convert,
}
use enterprise_crm.Conversion.Stages.{
  Orderly, opened, selected, answered, submit_conversion-IsOffered, show_stages-late,
}

abbrev stage_named : String → PipelineStage
stage_named id = record { id = id; order = 1; probability = text "20" }

abbrev served : String → Option (List PipelineStage)
served id = if id == "sales" then some (stage_named "new" ∷ stage_named "won" ∷ []) else none

abbrev scalar_text : Scalar → String
scalar_text (amount n) = "20"
scalar_text (text words) = words

abbrev as_text : String → String
as_text words = words

abbrev is_filled : String → Bool
is_filled words = if words == "" then false else true

abbrev sales_chosen : Panel
sales_chosen =
    show_stages scalar_text (served "sales")
      (select_pipeline "sales" (opened_panel "Crane" "2026-02-01"))

abbrev not_waiting : Option String
not_waiting = none

sales_chosen-Orderly : Orderly scalar_text served not_waiting sales_chosen
sales_chosen-Orderly = answered (selected "sales" (opened "Crane" "2026-02-01") refl)

submit_conversion-IsOffered_example :
    (not_waiting ≡ none)
    × (has_stage
          (submit_conversion as_text as_text sales_chosen).stage_id
          (or_else (served (submit_conversion as_text as_text sales_chosen).pipeline_id) [])
        ≡ true)
unfolding can_convert select_pipeline show_stages trim utf16_length
submit_conversion-IsOffered_example =
    submit_conversion-IsOffered as_text as_text is_filled scalar_text served not_waiting "c1"
      sales_chosen sales_chosen-Orderly refl

-- The support pipeline has other stages than the sales pipeline.
abbrev served_both : String → Option (List PipelineStage)
served_both id = if id == "sales" then served id else some (stage_named "open" ∷ [])

abbrev panel_filled : Panel
panel_filled = opened_panel "Crane" "2026-02-01"

abbrev waiting_late : Panel
waiting_late = select_pipeline "support" (select_pipeline "sales" panel_filled)

abbrev left_late : Panel
left_late =
    show_stages scalar_text (served_both "sales")
      (show_stages scalar_text (served_both "support") waiting_late)

show_stages-late_example :
    (waiting_late.is_loading_stages ≡ true)
    × (can_convert as_text is_filled "c1" left_late ≡ true)
    × ((submit_conversion as_text as_text left_late).pipeline_id ≡ "support")
    × (has_stage
          (submit_conversion as_text as_text left_late).stage_id
          (or_else (served_both (submit_conversion as_text as_text left_late).pipeline_id) [])
        ≡ false)
unfolding can_convert trim utf16_length
show_stages-late_example =
    show_stages-late as_text as_text is_filled scalar_text served_both "sales" "support" "c1"
      (stage_named "new") (stage_named "won" ∷ []) panel_filled refl refl refl refl
