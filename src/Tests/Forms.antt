-- ===== src/Tests/Forms.antt =====
-- Tests of the forms of frontend/src/features.
use enterprise_crm.Common.{◌≡◌, refl, String, false, Option, none, some, ◌==◌, if◌then◌else◌}
use enterprise_crm.Common.Text.{trim}
use enterprise_crm.Forms.{
  CompanyInput, open_company, submit_company, ContactInput, open_contact, submit_contact, NoteInput,
  open_note, submit_note, LeadInput, open_lead, submit_lead,
}
use enterprise_crm.Forms.Work.{
  LocalDates, to_date_time_local_value, to_iso_date_time, TaskInput, open_task, submit_task,
  ActivityInput, open_activity, submit_activity,
}
use enterprise_crm.Forms.Sales.{DealInput, open_deal_form, submit_deal}
use enterprise_crm.Forms.Unchanged.{forms-kept, submit-unlinks, IsShowable}

abbrev utc_dates : LocalDates
utc_dates = record {
  local_of = λ text. if text == "2026-01-05T09:30:00.000Z" then some "2026-01-05T09:30" else none;
  iso_of = λ text. if text == "2026-01-05T09:30" then some "2026-01-05T09:30:00.000Z" else none;
}

abbrev due : Option String
due = some "2026-01-05T09:30:00.000Z"

due-IsShowable : IsShowable utc_dates due
unfolding to_date_time_local_value to_iso_date_time
due-IsShowable = refl

abbrev acme : CompanyInput
acme = record { industry = some "Steel"; name = "Acme"; website = none }

abbrev ada : ContactInput
ada = record {
  company_id = "c1";
  email = some "ada@acme.test";
  first_name = "Ada";
  last_name = "Byron";
  phone = none;
}

abbrev remark : NoteInput
remark = record { company_id = some "c1"; contact_id = none; content = "Call back"; lead_id = none }

abbrev follow_up : TaskInput
follow_up = record {
  description = some "Bring the offer";
  due_date = due;
  priority = "high";
  status = "open";
  title = "Visit";
}

abbrev offer : LeadInput
offer = record {
  company_id = some "c1";
  contact_id = some "p1";
  description = none;
  source = "web";
  status = "new";
  title = "Offer";
}

abbrev meeting : ActivityInput
meeting = record {
  company_id = some "c1";
  completed = false;
  contact_id = some "p1";
  description = none;
  due_date = due;
  lead_id = some "l1";
  title = "Visit";
  type_name = "meeting";
}

abbrev sale : DealInput String
sale = record {
  assigned_user_id = "u1";
  company_id = "c1";
  contact_id = some "p1";
  currency = "USD";
  expected_close_date = "2026-02-01";
  pipeline_id = "sales";
  probability = "50";
  stage_id = "won";
  status = "open";
  title = "Crane";
  value = "1200";
}

abbrev same_text : String → String
same_text text = text

forms-kept_example :
    (submit_company (open_company acme) ≡ acme)
    × (submit_contact (open_contact ada) ≡ ada)
    × (submit_note (open_note remark) ≡ remark)
    × (submit_task utc_dates (open_task utc_dates follow_up) ≡ follow_up)
unfolding trim
forms-kept_example =
    forms-kept utc_dates acme ada remark follow_up ((refl, refl), refl, tt)
      ((refl, refl), refl, refl, tt) (refl, tt, refl, tt) ((refl, refl), due-IsShowable, refl)

submit-unlinks_example :
    (submit_lead (open_lead offer) ≡ record offer { contact_id = none })
    × (submit_activity utc_dates (open_activity utc_dates meeting)
        ≡ record meeting { company_id = none; contact_id = none; lead_id = none })
    × (submit_deal same_text same_text sale.assigned_user_id "u2" (open_deal_form same_text sale)
        ≡ record sale { contact_id = none })
unfolding trim
submit-unlinks_example =
    submit-unlinks same_text same_text same_text utc_dates "u2" offer meeting sale (refl, tt, refl)
      (tt, due-IsShowable, refl) (refl, refl, refl, refl, refl)
