-- ===== src/Details/Lead.antt =====
-- frontend/src/features/leads/lead-detail.tsx: the page of a lead, which raises toasts and converts the
-- lead. Its texts are in English here, before their translation; `Lead` is what the back end sends.
use enterprise_crm.Common.{
  String, Bool, true, false, not, ◌&&◌, ◌||◌, Option, none, some, List, ◌==◌, if◌then◌else◌,
}
use enterprise_crm.Hooks.{Loaded, content, api_failure, other_failure}
use enterprise_crm.Navigation.{has}
use enterprise_crm.Toasts.{ToastInput, Toaster, ToastTone, notify, success}
use enterprise_crm.Toasts
use enterprise_crm.Toasts.Runs.{Reachable, step, notified}
use enterprise_crm.Details.{Detail, update_settled, delete_settled}

pub record LeadPage (Lead : Type 0) : Type 0 where
  pub detail : Detail Lead
  pub is_converting : Bool
  pub is_submitting_conversion : Bool
  pub converted_deal_id : Option String
  pub toaster : Toaster

pub data BadgeTone : Type 0 where
  blue green orange red : BadgeTone

unfoldable pub lead_tone : String → BadgeTone
lead_tone status =
    if status == "converted"
    then green
    else if status == "lost" || status == "unqualified"
    then red
    else if status == "qualified"
    then blue
    else orange

unfoldable pub may_convert : List String → Bool
unfolding has
may_convert names =
    has "leads.update" names && has "deals.create" names && has "pipelines.read" names

unfoldable pub conversion_available : List String → String → Bool
unfolding may_convert
conversion_available names status =
    may_convert names && not (status == "converted" || status == "lost")

abbrev pub lead_error : {A : Type 0} → Loaded A → String
lead_error (api_failure message) = message
lead_error _ = "Unable to load this lead."

module _ {Lead : Type 0} where
  abbrev pub raise_on : String → Option String → ToastTone → LeadPage Lead → LeadPage Lead
  raise_on title description tone page = record page {
    toaster =
        notify
          (record { title = title; description = description; duration = none; tone = some tone })
          page.toaster;
  }

  -- The end of `updateLead`.
  unfoldable pub end_update_lead : Loaded Lead → LeadPage Lead → LeadPage Lead
  unfolding update_settled
  end_update_lead (content lead) page = raise_on "Lead updated" none success (record page {
    detail = update_settled "Unable to load this lead." (content lead) page.detail;
  })
  end_update_lead failure page =
      raise_on "Unable to update lead" (some (lead_error failure)) Toasts.error
        (record page { detail = update_settled "Unable to load this lead." failure page.detail })

  unfoldable pub begin_convert : LeadPage Lead → LeadPage Lead
  begin_convert page = record page { is_submitting_conversion = true }

  -- The end of `convertLead`, with the lead and the id of the deal that it has become.
  unfoldable pub end_convert : Loaded (Lead × String) → LeadPage Lead → LeadPage Lead
  end_convert (content (lead, deal_id)) page =
      raise_on "Lead converted successfully"
        (some "The opportunity was added to the sales pipeline.") success
        (record page {
          detail = record page.detail { value = some lead; error = none };
          converted_deal_id = some deal_id;
          is_converting = false;
          is_submitting_conversion = false;
        })
  end_convert failure page =
      raise_on "Lead conversion failed" (some (lead_error failure)) Toasts.error (record page {
        detail = record page.detail { error = some (lead_error failure) };
        is_submitting_conversion = false;
      })

  -- The end of `deleteLead`.
  unfoldable pub end_delete_lead : Loaded Unit → LeadPage Lead → LeadPage Lead
  unfolding delete_settled
  end_delete_lead (content done) page = record page {
    detail =
        delete_settled "Unable to load this lead." "/dashboard/leads" (content done) page.detail;
  }
  end_delete_lead failure page =
      raise_on "Unable to delete lead" (some (lead_error failure)) Toasts.error (record page {
        detail = delete_settled "Unable to load this lead." "/dashboard/leads" failure page.detail;
      })

  -- The toasts that the page raises leave the provider in a state that it comes to.
  end_update_lead-Reachable :
      (answer : Loaded Lead) (page : LeadPage Lead)
      → Reachable page.toaster
      → Reachable (end_update_lead answer page).toaster
  unfolding end_update_lead
  end_update_lead-Reachable (content lead) page reached = step reached (notified _)
  end_update_lead-Reachable (api_failure message) page reached = step reached (notified _)
  end_update_lead-Reachable other_failure page reached = step reached (notified _)

  end_convert-Reachable :
      (answer : Loaded (Lead × String)) (page : LeadPage Lead)
      → Reachable page.toaster
      → Reachable (end_convert answer page).toaster
  unfolding end_convert
  end_convert-Reachable (content (lead, deal_id)) page reached = step reached (notified _)
  end_convert-Reachable (api_failure message) page reached = step reached (notified _)
  end_convert-Reachable other_failure page reached = step reached (notified _)

  end_delete_lead-Reachable :
      (answer : Loaded Unit) (page : LeadPage Lead)
      → Reachable page.toaster
      → Reachable (end_delete_lead answer page).toaster
  unfolding end_delete_lead
  end_delete_lead-Reachable (content done) page reached = reached
  end_delete_lead-Reachable (api_failure message) page reached = step reached (notified _)
  end_delete_lead-Reachable other_failure page reached = step reached (notified _)
