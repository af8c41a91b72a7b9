-- ===== src/Hooks.antt =====
-- frontend/src/hooks: how a page loads what it shows.
pub mod Laws
use enterprise_crm.Common.{
  ◌≡◌, ℕ, suc, String, Bool, true, false, Option, none, some, List, [], ◌∷◌, eqb, if◌then◌else◌,
}
use enterprise_crm.Client.Methods.{Sends}
use enterprise_crm.Services.{
  RecordService, company_service, contact_service, lead_service, pipeline_service,
}
use enterprise_crm.Services.Query.{number, words}

-- What a load may come to: content, an `ApiError` with its message, or another error.
pub data Loaded (C : Type 0) : Type 0 where
  content : C → Loaded C
  api_failure : String → Loaded C
  other_failure : Loaded C

unfoldable pub get_error_message : {C : Type 0} → String → Loaded C → Option String
get_error_message fallback (content c) = none
get_error_message fallback (api_failure message) = some message
get_error_message fallback other_failure = some fallback

-- A run of the effect: it has not begun, it awaits its load, or the load has settled.
pub data Load (C : Type 0) : Type 0 where
  unused waiting : Load C
  settled : Loaded C → Load C

-- The hook's state, the `isActive` of each run of its effect, and how far each has come.
pub record Hook (C : Type 0) : Type 0 where
  pub shown : C
  pub error : Option String
  pub is_loading : Bool
  pub is_active : ℕ → Bool
  pub loads : ℕ → Load C
  pub next : ℕ

abbrev pub initial : {C : Type 0} → C → Hook C
initial empty_content = record {
  shown = empty_content;
  error = none;
  is_loading = true;
  is_active = λ _. false;
  loads = λ _. unused;
  next = 0;
}

-- The cleanup of the run that is active, if there is one: no run is active after it.
unfoldable pub clean_up : {C : Type 0} → Hook C → Hook C
clean_up hook = record hook { is_active = λ _. false }

unfoldable pub set_load : {C : Type 0} → ℕ → Load C → (ℕ → Load C) → ℕ → Load C
set_load k load loads j = if eqb j k then load else loads j

-- The effect runs: on the first render, and, after the cleanup, when `load` or the nonce changes.
unfoldable pub begin_load : {C : Type 0} → Hook C → Hook C
unfolding set_load
begin_load hook = record hook {
  is_loading = true;
  is_active = λ j. eqb j hook.next;
  loads = set_load hook.next waiting hook.loads;
  next = suc hook.next;
}

abbrev pub show_content : {C : Type 0} → Loaded C → C → C
show_content (content c) old = c
show_content _ old = old

-- The continuation of a run whose load has settled.
unfoldable pub finish_load : {C : Type 0} → String → ℕ → Loaded C → Hook C → Hook C
unfolding set_load get_error_message
finish_load fallback k loaded hook =
    let loads = set_load k (settled loaded) hook.loads in
    if hook.is_active k
    then record hook {
      shown = show_content loaded hook.shown;
      error = get_error_message fallback loaded;
      is_loading = false;
      loads = loads;
    }
    else record hook { loads = loads }

-- What may happen to a component that uses the hook.
pub data Step {C : Type 0} (fallback : String) (s : Hook C) : Hook C → Type 0 where
  began : Step fallback s (begin_load (clean_up s))
  unmounted : Step fallback s (clean_up s)
  finished :
      (k : ℕ) (loaded : Loaded C)
      → s.loads k ≡ waiting
      → Step fallback s (finish_load fallback k loaded s)

pub data Reachable {C : Type 0} (fallback : String) (empty_content : C) : Hook C → Type 0 where
  start : Reachable fallback empty_content (initial empty_content)
  step :
      {s t : Hook C}
      → Reachable fallback empty_content s
      → Step fallback s t
      → Reachable fallback empty_content t

pub record PageMetadata : Type 0 where
  pub page : ℕ
  pub page_size : ℕ
  pub total : ℕ

-- `usePaginatedResource`: items and their page, which are set together.
abbrev pub empty_page : {A : Type 0} → List A × PageMetadata
empty_page = ([], record { page = 1; page_size = 25; total = 0 })

abbrev pub UsePaginatedResource : {A : Type 0} → Hook (List A × PageMetadata) → Type 0
UsePaginatedResource = Reachable "Unable to load this data." empty_page

-- A hook for the options of a select: the call that its only run makes, and its text for an error
-- that has none.
pub record OptionsHook : Type 0 where
  pub load : Sends
  pub fallback : String

abbrev options_of : RecordService → String → Sends
options_of service sort_by =
    service.list (("page", number 1) ∷ ("page_size", number 100) ∷ ("sort_by", words sort_by) ∷ [])

abbrev pub use_company_options : OptionsHook
use_company_options = record {
  load = options_of company_service "name";
  fallback = "Unable to load company options.";
}

abbrev pub use_contact_options : OptionsHook
use_contact_options = record {
  load = options_of contact_service "last_name";
  fallback = "Unable to load contact options.";
}

abbrev pub use_lead_options : OptionsHook
use_lead_options = record {
  load = options_of lead_service "title";
  fallback = "Unable to load lead options.";
}

abbrev pub use_pipeline_options : OptionsHook
use_pipeline_options = record {
  load = options_of pipeline_service "name";
  fallback = "Unable to load pipelines.";
}
