-- ===== src/Forms/Unchanged.antt =====
-- The forms of frontend/src/features: what a form that is opened and submitted unchanged does to its
-- record.
use enterprise_crm.Common.{◌≡◌, refl, String, false, Option, none, some, ◌==◌, or_else, arith}
use enterprise_crm.Common.Text.{trim}
use enterprise_crm.Forms.{
  or_null, optional_text, CompanyInput, open_company, submit_company, ContactInput, open_contact,
  submit_contact, NoteInput, open_note, submit_note, LeadInput, open_lead, submit_lead,
}
use enterprise_crm.Forms.Work.{
  LocalDates, to_date_time_local_value, to_iso_date_time, TaskInput, open_task, submit_task,
  ActivityInput, open_activity, submit_activity,
}
use enterprise_crm.Forms.Sales.{DealInput, open_deal_form, submit_deal}

-- A text as the back end keeps it: without white space around it, and not empty where it is optional.
abbrev pub IsTrimmed : String → Type 0
IsTrimmed text = trim text ≡ text

abbrev pub IsClean : Option String → Type 0
IsClean none = Unit
IsClean (some text) = IsTrimmed text × ((text == "") ≡ false)

abbrev pub IsId : Option String → Type 0
IsId none = Unit
IsId (some id) = (id == "") ≡ false

optional_text-or_else :
    (text : Option String) → IsClean text → optional_text (or_else text "") ≡ text
unfolding optional_text or_null
optional_text-or_else none h = refl
optional_text-or_else (some text) h = rw (h.0, h.1) refl

or_null-or_else : (id : Option String) → IsId id → or_null (or_else id "") ≡ id
unfolding or_null
or_null-or_else none h = refl
or_null-or_else (some id) h = rw h refl

-- A date that the form's input can show whole, such as one of whole minutes.
abbrev pub IsShowable : LocalDates → Option String → Type 0
IsShowable dates due = to_iso_date_time dates (to_date_time_local_value dates due) ≡ due

abbrev pub IsCleanCompany : CompanyInput → Type 0
IsCleanCompany input = IsClean input.industry × IsTrimmed input.name × IsClean input.website

abbrev pub IsCleanContact : ContactInput → Type 0
IsCleanContact input =
    IsClean input.email
    × IsTrimmed input.first_name
    × IsTrimmed input.last_name
    × IsClean input.phone

abbrev pub IsCleanNote : NoteInput → Type 0
IsCleanNote input =
    IsId input.company_id × IsId input.contact_id × IsTrimmed input.content × IsId input.lead_id

abbrev pub IsCleanTask : LocalDates → TaskInput → Type 0
IsCleanTask dates input =
    IsClean input.description × IsShowable dates input.due_date × IsTrimmed input.title

abbrev pub IsCleanLead : LeadInput → Type 0
IsCleanLead input = IsId input.company_id × IsClean input.description × IsTrimmed input.title

abbrev pub IsCleanActivity : LocalDates → ActivityInput → Type 0
IsCleanActivity dates input =
    IsClean input.description × IsShowable dates input.due_date × IsTrimmed input.title

company_kept :
    (input : CompanyInput) → IsCleanCompany input → submit_company (open_company input) ≡ input
unfolding submit_company open_company
company_kept input h =
    ground (arith, optional_text-or_else input.industry, optional_text-or_else input.website)

contact_kept :
    (input : ContactInput) → IsCleanContact input → submit_contact (open_contact input) ≡ input
unfolding submit_contact open_contact
contact_kept input h =
    ground (arith, optional_text-or_else input.email, optional_text-or_else input.phone)

note_kept : (input : NoteInput) → IsCleanNote input → submit_note (open_note input) ≡ input
unfolding submit_note open_note
note_kept input h = ground (
  arith,
  or_null-or_else input.company_id,
  or_null-or_else input.contact_id,
  or_null-or_else input.lead_id,
)

task_kept :
    (dates : LocalDates) (input : TaskInput)
    → IsCleanTask dates input
    → submit_task dates (open_task dates input) ≡ input
unfolding submit_task open_task
task_kept dates input h = ground (arith, optional_text-or_else input.description)

lead_unlinked :
    (input : LeadInput)
    → IsCleanLead input
    → submit_lead (open_lead input) ≡ record input { contact_id = none }
unfolding submit_lead open_lead
lead_unlinked input h =
    ground (arith, or_null-or_else input.company_id, optional_text-or_else input.description)

activity_unlinked :
    (dates : LocalDates) (input : ActivityInput)
    → IsCleanActivity dates input
    → submit_activity dates (open_activity dates input)
      ≡ record input { company_id = none; contact_id = none; lead_id = none }
unfolding submit_activity open_activity
activity_unlinked dates input h = ground (arith, optional_text-or_else input.description)

-- A deal that the form can show: its numbers survive their text, and its user is known.
abbrev pub IsCleanDeal :
    {Number : Type 0}
    → (Number → String)
    → (String → Number)
    → (String → String)
    → DealInput Number
    → Type 0
IsCleanDeal text_of number_of upper input =
    IsTrimmed input.title
    × (upper (trim input.currency) ≡ input.currency)
    × (number_of (text_of input.probability) ≡ input.probability)
    × (number_of (text_of input.value) ≡ input.value)
    × ((input.assigned_user_id == "") ≡ false)

module _ {Number : Type 0} (text_of : Number → String) (number_of : String → Number) where
  deal_unlinked :
      (upper : String → String) (user_id : String) (input : DealInput Number)
      → IsCleanDeal text_of number_of upper input
      → submit_deal number_of upper input.assigned_user_id user_id (open_deal_form text_of input)
        ≡ record input { contact_id = none }
  unfolding submit_deal open_deal_form
  deal_unlinked upper user_id input h = ground arith

-- A company, a contact, a note and a task that are clean, that is trimmed, without an empty text for a
-- missing one and with a due date that the input can show, are sent as they were when their form is
-- submitted as it was opened.
pub forms-kept :
    (dates : LocalDates) (company : CompanyInput) (contact : ContactInput) (note : NoteInput)
    (task : TaskInput)
    → IsCleanCompany company
    → IsCleanContact contact
    → IsCleanNote note
    → IsCleanTask dates task
    → (submit_company (open_company company) ≡ company)
      × (submit_contact (open_contact contact) ≡ contact)
      × (submit_note (open_note note) ≡ note)
      × (submit_task dates (open_task dates task) ≡ task)
forms-kept dates company contact note task is_company is_contact is_note is_task = (
  company_kept company is_company,
  contact_kept contact is_contact,
  note_kept note is_note,
  task_kept dates task is_task,
)

-- A clean lead, activity or deal whose form is submitted as it was opened is sent without its contact,
-- the activity also without its company and its lead; all else is sent as it was.
pub submit-unlinks :
    {Number : Type 0} (text_of : Number → String) (number_of : String → Number)
    (upper : String → String) (dates : LocalDates) (user_id : String) (lead : LeadInput)
    (activity : ActivityInput) (deal : DealInput Number)
    → IsCleanLead lead
    → IsCleanActivity dates activity
    → IsCleanDeal text_of number_of upper deal
    → (submit_lead (open_lead lead) ≡ record lead { contact_id = none })
      × (submit_activity dates (open_activity dates activity)
          ≡ record activity { company_id = none; contact_id = none; lead_id = none })
      × (submit_deal number_of upper deal.assigned_user_id user_id (open_deal_form text_of deal)
          ≡ record deal { contact_id = none })
submit-unlinks text_of number_of upper dates user_id lead activity deal is_lead is_activity
      is_deal =
    (
      lead_unlinked lead is_lead,
      activity_unlinked dates activity is_activity,
      deal_unlinked text_of number_of upper user_id deal is_deal,
    )
