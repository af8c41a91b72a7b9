-- ===== src/Conversion/Stages.antt =====
-- frontend/src/features/leads/lead-conversion-panel.tsx: whether the stage that the form sends is one of
-- the pipeline that it sends.
use enterprise_crm.Common.{
  ◌≡◌, refl, ◌∙◌, ◌⊎◌, inl, inr, String, Bool, true, false, ◌||◌, Option, none, some, List, [], ◌∷◌,
  ◌==◌, or_else, arith, eq_iff,
}
use enterprise_crm.SalesBoard.{Scalar, PipelineStage}
use enterprise_crm.Conversion.{
  Panel, opened_panel, has_stage, select_pipeline, show_stages, select_stage, submit_conversion,
  can_convert,
}

-- What a reader may do who waits for the stages of one pipeline before choosing the next: the form and
-- the pipeline whose stages are on their way. `serve` is the back end's answer for each pipeline.
module _ (text_of : Scalar → String) (serve : String → Option (List PipelineStage)) where
  pub data Orderly : Option String → Panel → Type 0 where
    opened : (title date : String) → Orderly none (opened_panel title date)
    selected :
        {before : Panel} (id : String)
        → Orderly none before
        → (id == "") ≡ false
        → Orderly (some id) (select_pipeline id before)
    cleared : {before : Panel} → Orderly none before → Orderly none (select_pipeline "" before)
    answered :
        {before : Panel} {id : String}
        → Orderly (some id) before
        → Orderly none (show_stages text_of (serve id) before)
    chosen :
        {before : Panel} {asked : Option String} (id : String)
        → Orderly asked before
        → ((id == "") || has_stage id before.stages) ≡ true
        → Orderly asked (select_stage text_of id before)
    typed :
        {before : Panel} {asked : Option String} (title value currency probability date : String)
        → Orderly asked before
        → Orderly asked (record before {
          title = title;
          value = value;
          currency = currency;
          probability = probability;
          expected_close_date = date;
        })

-- The stage is one that the answer offers, or none is chosen.
abbrev pub is_offered : Option (List PipelineStage) → String → Bool
is_offered answer stage_id = (stage_id == "") || has_stage stage_id (or_else answer [])

-- While an answer is on its way there is no stage to choose; afterwards there are those of the
-- pipeline, or none.
abbrev Offers : Option (List PipelineStage) → String → List PipelineStage → Type 0
Offers answer stage_id stages =
    (is_offered answer stage_id ≡ true) × ((stages ≡ []) ⊎ (stages ≡ or_else answer []))

abbrev IsCoherent : (String → Option (List PipelineStage)) → Option String → Panel → Type 0
IsCoherent serve (some id) panel =
    (panel.pipeline_id ≡ id) × (panel.stages ≡ []) × ((panel.stage_id == "") ≡ true)
IsCoherent serve none panel = Offers (serve panel.pipeline_id) panel.stage_id panel.stages

has_first :
    (stage : PipelineStage) (stages : List PipelineStage)
    → has_stage stage.id (stage ∷ stages) ≡ true
has_first stage stages = ground (arith, eq_iff stage.id stage.id)

show_stages-pipeline :
    (text_of : Scalar → String) (answer : Option (List PipelineStage)) (panel : Panel)
    → (show_stages text_of answer panel).pipeline_id ≡ panel.pipeline_id
unfolding show_stages
show_stages-pipeline text_of none panel = refl
show_stages-pipeline text_of (some []) panel = refl
show_stages-pipeline text_of (some (first ∷ others)) panel = refl

-- What an answer shows on a form without stages.
show_stages-offered :
    (text_of : Scalar → String) (answer : Option (List PipelineStage)) (panel : Panel)
    → panel.stages ≡ []
    → (panel.stage_id == "") ≡ true
    → Offers answer
        (show_stages text_of answer panel).stage_id
        (show_stages text_of answer panel).stages
unfolding show_stages
show_stages-offered text_of none panel bare unchosen = (rw unchosen refl, inl bare)
show_stages-offered text_of (some []) panel bare unchosen = (rw unchosen refl, inl refl)
show_stages-offered text_of (some (first ∷ others)) panel bare unchosen =
    (ground (arith, has_first first others), inr refl)

carried-Offers :
    (serve : String → Option (List PipelineStage)) (id pipeline_id stage_id : String)
    (stages : List PipelineStage)
    → pipeline_id ≡ id
    → Offers (serve id) stage_id stages
    → Offers (serve pipeline_id) stage_id stages
carried-Offers serve id pipeline_id stage_id stages same h = rw same h

answered-IsCoherent :
    (text_of : Scalar → String) (serve : String → Option (List PipelineStage)) (id : String)
    (panel : Panel)
    → IsCoherent serve (some id) panel
    → IsCoherent serve none (show_stages text_of (serve id) panel)
answered-IsCoherent text_of serve id panel h =
    let shown = show_stages text_of (serve id) panel in
    carried-Offers serve id shown.pipeline_id shown.stage_id shown.stages
      (show_stages-pipeline text_of (serve id) panel ∙ h.0)
      (show_stages-offered text_of (serve id) panel h.1 h.2)

chosen-IsCoherent :
    (text_of : Scalar → String) (serve : String → Option (List PipelineStage))
    (asked : Option String) (id : String) (panel : Panel)
    → ((id == "") || has_stage id panel.stages) ≡ true
    → IsCoherent serve asked panel
    → IsCoherent serve asked (select_stage text_of id panel)
unfolding select_stage
chosen-IsCoherent text_of serve none id panel is_there (offered, inl empty) = ground arith
chosen-IsCoherent text_of serve none id panel is_there (offered, inr all) = ground arith
chosen-IsCoherent text_of serve (some asked) id panel is_there h = ground arith

typed-IsCoherent :
    (serve : String → Option (List PipelineStage)) (asked : Option String) (panel : Panel)
    (title value currency probability date : String)
    → IsCoherent serve asked panel
    → IsCoherent serve asked (record panel {
      title = title;
      value = value;
      currency = currency;
      probability = probability;
      expected_close_date = date;
    })
typed-IsCoherent serve none panel title value currency probability date h = h
typed-IsCoherent serve (some id) panel title value currency probability date h = h

Orderly-IsCoherent :
    (text_of : Scalar → String) (serve : String → Option (List PipelineStage))
    (asked : Option String) (panel : Panel)
    → Orderly text_of serve asked panel
    → IsCoherent serve asked panel
unfolding select_pipeline
Orderly-IsCoherent text_of serve waiting panel (opened title date) = (refl, inl refl)
Orderly-IsCoherent text_of serve waiting panel (selected id reached named) = (refl, refl, refl)
Orderly-IsCoherent text_of serve waiting panel (cleared reached) = (refl, inl refl)
Orderly-IsCoherent text_of serve waiting panel (answered {before} {id} reached) =
    answered-IsCoherent text_of serve id before
      (Orderly-IsCoherent text_of serve (some id) before reached)
Orderly-IsCoherent text_of serve waiting panel (chosen {before} {asked} id reached is_there) =
    chosen-IsCoherent text_of serve asked id before is_there
      (Orderly-IsCoherent text_of serve asked before reached)
Orderly-IsCoherent text_of serve waiting panel
      (typed {before} {asked} title value currency probability date reached) =
    typed-IsCoherent serve asked before title value currency probability date
      (Orderly-IsCoherent text_of serve asked before reached)

-- A reader who waits for the stages of one pipeline before choosing the next can only send a stage of
-- the pipeline that is sent, and none while the stages are on their way, whatever stages the back end has for
-- each pipeline.
pub submit_conversion-IsOffered :
    {Number : Type 0} (number_of : String → Number) (upper : String → String)
    (is_positive : Number → Bool) (text_of : Scalar → String)
    (serve : String → Option (List PipelineStage)) (asked : Option String) (company_id : String)
    (panel : Panel)
    → Orderly text_of serve asked panel
    → can_convert number_of is_positive company_id panel ≡ true
    → (asked ≡ none)
      × (has_stage
            (submit_conversion number_of upper panel).stage_id
            (or_else (serve (submit_conversion number_of upper panel).pipeline_id) [])
          ≡ true)
unfolding can_convert submit_conversion
submit_conversion-IsOffered number_of upper is_positive text_of serve none company_id panel reached
      ready =
    ground (arith, Orderly-IsCoherent text_of serve none panel reached)
submit_conversion-IsOffered number_of upper is_positive text_of serve (some id) company_id panel
      reached ready =
    ground (arith, Orderly-IsCoherent text_of serve (some id) panel reached)

-- An answer with stages, whatever came before it: the form keeps its pipeline and takes the first stage.
late_shown :
    {Number : Type 0} (number_of : String → Number) (is_positive : Number → Bool)
    (text_of : Scalar → String) (company_id : String) (stage : PipelineStage)
    (others : List PipelineStage) (answer : Option (List PipelineStage)) (panel : Panel)
    → let left = show_stages text_of (some (stage ∷ others)) (show_stages text_of answer panel) in
      (left.pipeline_id ≡ panel.pipeline_id)
      × (left.stage_id ≡ stage.id)
      × (can_convert number_of is_positive company_id left
          ≡ can_convert number_of is_positive company_id (record panel { stage_id = stage.id }))
unfolding can_convert show_stages
late_shown number_of is_positive text_of company_id stage others none panel = (refl, refl, refl)
late_shown number_of is_positive text_of company_id stage others (some []) panel =
    (refl, refl, refl)
late_shown number_of is_positive text_of company_id stage others (some (x ∷ xs)) panel =
    (refl, refl, refl)

not_offered-has_stage :
    (serve : String → Option (List PipelineStage)) (pipeline_id stage_id later id : String)
    → pipeline_id ≡ later
    → stage_id ≡ id
    → is_offered (serve later) id ≡ false
    → has_stage stage_id (or_else (serve pipeline_id) []) ≡ false
not_offered-has_stage serve pipeline_id stage_id later id same same_stage foreign =
    rw (same, same_stage) (ground arith)

-- A reader who chooses a second pipeline while the stages of a first are on their way, whose answer
-- comes last, may send a stage that the pipeline sent does not have, unlike one who waits: if the first
-- pipeline's first stage is none of the second's, and all else is filled in, the form can be sent, and
-- sends the second pipeline with this stage.
pub show_stages-late :
    {Number : Type 0} (number_of : String → Number) (upper : String → String)
    (is_positive : Number → Bool) (text_of : Scalar → String)
    (serve : String → Option (List PipelineStage)) (earlier later company_id : String)
    (stage : PipelineStage) (others : List PipelineStage) (panel : Panel)
    → (later == "") ≡ false
    → serve earlier ≡ some (stage ∷ others)
    → is_offered (serve later) stage.id ≡ false
    → can_convert number_of is_positive company_id
        (record panel { pipeline_id = later; stage_id = stage.id })
      ≡ true
    → let waiting = select_pipeline later (select_pipeline earlier panel) in
      let left = show_stages text_of (serve earlier) (show_stages text_of (serve later) waiting) in
      let sent = submit_conversion number_of upper left in
      (waiting.is_loading_stages ≡ true)
      × (can_convert number_of is_positive company_id left ≡ true)
      × (sent.pipeline_id ≡ later)
      × (has_stage sent.stage_id (or_else (serve sent.pipeline_id) []) ≡ false)
unfolding can_convert submit_conversion select_pipeline
show_stages-late number_of upper is_positive text_of serve earlier later company_id stage others
      panel named served foreign filled =
    let waiting = select_pipeline later (select_pipeline earlier panel) in
    let left =
      show_stages text_of (some (stage ∷ others)) (show_stages text_of (serve later) waiting) in
    let (same, same_stage, converts) =
      late_shown number_of is_positive text_of company_id stage others (serve later) waiting in
    rw served (
      rw named refl,
      converts ∙ filled,
      same,
      not_offered-has_stage serve left.pipeline_id left.stage_id later stage.id same same_stage
          foreign,
    )
