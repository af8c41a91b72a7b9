-- ===== src/Forms/Sales.antt =====
-- The forms of frontend/src/features/deals and pipelines. `Number` is JavaScript's numbers, `text_of`
-- and `number_of` are `String` and `Number`, and `upper` is `toUpperCase`.
use enterprise_crm.Common.{
  String, Bool, not, ◌&&◌, Option, none, List, [], ◌∷◌, ◌==◌, if◌then◌else◌, or_else, any,
}
use enterprise_crm.Common.Text.{trim}
use enterprise_crm.Forms.{optional_text}

pub record PipelineInput : Type 0 where
  pub description : Option String
  pub name : String

pub record PipelineFields : Type 0 where
  pub name : String
  pub description : String

unfoldable pub open_pipeline : PipelineInput → PipelineFields
open_pipeline input = record { name = input.name; description = or_else input.description "" }

unfoldable pub submit_pipeline : PipelineFields → PipelineInput
unfolding optional_text trim
submit_pipeline fields = record {
  description = optional_text fields.description;
  name = trim fields.name;
}

pub record DealInput (Number : Type 0) : Type 0 where
  pub assigned_user_id : String
  pub company_id : String
  pub contact_id : Option String
  pub currency : String
  pub expected_close_date : String
  pub pipeline_id : String
  pub probability : Number
  pub stage_id : String
  pub status : String
  pub title : String
  pub value : Number

pub record DealFields : Type 0 where
  pub title : String
  pub company_id : String
  pub pipeline_id : String
  pub stage_id : String
  pub value : String
  pub currency : String
  pub probability : String
  pub expected_close_date : String
  pub status : String

pub record StageInput (Number : Type 0) : Type 0 where
  pub name : String
  pub order : Number
  pub probability : Number

pub record StageFields : Type 0 where
  pub name : String
  pub order : String
  pub probability : String

module _ {Number : Type 0} (text_of : Number → String) where
  unfoldable pub open_deal_form : DealInput Number → DealFields
  open_deal_form input = record {
    title = input.title;
    company_id = input.company_id;
    pipeline_id = input.pipeline_id;
    stage_id = input.stage_id;
    value = text_of input.value;
    currency = input.currency;
    probability = text_of input.probability;
    expected_close_date = input.expected_close_date;
    status = input.status;
  }

  unfoldable pub open_stage : StageInput Number → StageFields
  open_stage input = record {
    name = input.name;
    order = text_of input.order;
    probability = text_of input.probability;
  }

module _ {Number : Type 0} (number_of : String → Number) where
  -- `initial_user_id` is the user of the values that the form was opened with, `user_id` the reader.
  unfoldable pub submit_deal :
      (upper : String → String) (initial_user_id user_id : String) → DealFields → DealInput Number
  unfolding trim
  submit_deal upper initial_user_id user_id fields = record {
    assigned_user_id = if initial_user_id == "" then user_id else initial_user_id;
    company_id = fields.company_id;
    contact_id = none;
    currency = upper (trim fields.currency);
    expected_close_date = fields.expected_close_date;
    pipeline_id = fields.pipeline_id;
    probability = number_of fields.probability;
    stage_id = fields.stage_id;
    status = fields.status;
    title = trim fields.title;
    value = number_of fields.value;
  }

  unfoldable pub submit_stage : StageFields → StageInput Number
  unfolding trim
  submit_stage fields = record {
    name = trim fields.name;
    order = number_of fields.order;
    probability = number_of fields.probability;
  }

-- The stage that is chosen once the stages of the pipeline have come: the old one, if it is theirs.
unfoldable pub stage_after : List String → String → String
stage_after [] stage_id = ""
stage_after (first ∷ others) stage_id =
    if any (λ id. id == stage_id) (first ∷ others) then stage_id else first

abbrev pub can_submit : DealFields → String → Bool
can_submit fields user_id =
    not (fields.company_id == "")
    && not (fields.pipeline_id == "")
    && not (fields.stage_id == "")
    && not (user_id == "")
