-- ===== src/Conversion.antt =====
-- frontend/src/features/leads/lead-conversion-panel.tsx: the form that turns a lead into a deal.
-- `Number`, `text_of`, `number_of` and `upper` stand for JavaScript's numbers, `String`, `Number` and
-- `toUpperCase`.
pub mod Stages
use enterprise_crm.Common.{
  ℕ, String, Bool, true, false, not, ◌&&◌, Option, none, some, List, [], ◌∷◌, ◌==◌, if◌then◌else◌,
  any, eqb,
}
use enterprise_crm.Common.Text.{trim}
use enterprise_crm.Palette.{utf16_length}
use enterprise_crm.SalesBoard.{Scalar, PipelineStage}

pub record LeadConversionInput (Number : Type 0) : Type 0 where
  pub currency : String
  pub expected_close_date : String
  pub pipeline_id : String
  pub probability : Number
  pub stage_id : String
  pub title : String
  pub value : Number

pub record Panel : Type 0 where
  pub title : String
  pub pipeline_id : String
  pub stage_id : String
  pub stages : List PipelineStage
  pub is_loading_stages : Bool
  pub stage_error : Option String
  pub value : String
  pub currency : String
  pub probability : String
  pub expected_close_date : String

-- The form as it opens on a lead, with the date that is thirty days away.
abbrev pub opened_panel : String → String → Panel
opened_panel title default_close_date = record {
  title = title;
  pipeline_id = "";
  stage_id = "";
  stages = [];
  is_loading_stages = false;
  stage_error = none;
  value = "1000";
  currency = "USD";
  probability = "50";
  expected_close_date = default_close_date;
}

abbrev pub has_stage : String → List PipelineStage → Bool
has_stage stage_id stages = any (λ stage. stage.id == stage_id) stages

unfoldable pub find_stage : String → List PipelineStage → Option PipelineStage
find_stage stage_id [] = none
find_stage stage_id (stage ∷ stages) =
    if stage.id == stage_id then some stage else find_stage stage_id stages

-- `selectPipeline` up to its call, which it makes unless the pipeline is the empty one.
unfoldable pub select_pipeline : String → Panel → Panel
select_pipeline next_pipeline_id panel = record panel {
  pipeline_id = next_pipeline_id;
  stage_id = "";
  stages = [];
  stage_error = none;
  is_loading_stages = if next_pipeline_id == "" then panel.is_loading_stages else true;
}

module _ (text_of : Scalar → String) where
  -- The end of the call: the stages of the pipeline that was asked for, or an error.
  unfoldable pub show_stages : Option (List PipelineStage) → Panel → Panel
  show_stages none panel = record panel {
    stage_error = some "Unable to load stages for this pipeline.";
    is_loading_stages = false;
  }
  show_stages (some []) panel = record panel { stages = []; is_loading_stages = false }
  show_stages (some (first ∷ others)) panel = record panel {
    stages = first ∷ others;
    stage_id = first.id;
    probability = text_of first.probability;
    is_loading_stages = false;
  }

  unfoldable pub select_stage : String → Panel → Panel
  unfolding find_stage
  select_stage next_stage_id panel = record panel {
    stage_id = next_stage_id;
    probability = elim (find_stage next_stage_id panel.stages) [
      | none ↦ panel.probability
      | some stage ↦ text_of stage.probability
    ];
  }

module _ {Number : Type 0} (number_of : String → Number) where
  -- What the form sends.
  unfoldable pub submit_conversion : (upper : String → String) → Panel → LeadConversionInput Number
  unfolding trim
  submit_conversion upper panel = record {
    currency = upper (trim panel.currency);
    expected_close_date = panel.expected_close_date;
    pipeline_id = panel.pipeline_id;
    probability = number_of panel.probability;
    stage_id = panel.stage_id;
    title = trim panel.title;
    value = number_of panel.value;
  }

  -- `company_id` is the lead's, the empty text for none.
  unfoldable pub can_convert : (is_positive : Number → Bool) → String → Panel → Bool
  unfolding trim utf16_length
  can_convert is_positive company_id panel =
      not (company_id == "")
      && not (panel.pipeline_id == "")
      && not (panel.stage_id == "")
      && is_positive (number_of panel.value)
      && not (panel.expected_close_date == "")
      && eqb (utf16_length (trim panel.currency)) 3
