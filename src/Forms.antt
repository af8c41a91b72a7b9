-- ===== src/Forms.antt =====
-- The forms of frontend/src/features: what a form shows of the values that it is opened with, and what
-- it sends when it is submitted. A form's fields are what the reader has typed or chosen in them.
pub mod Sales
pub mod Work
pub mod Unchanged
use enterprise_crm.Common.{
  ◌≡◌, refl, String, Bool, true, false, not, ◌&&◌, Option, none, some, List, [], ◌∷◌, ◌==◌,
  if◌then◌else◌, or_else,
}
use enterprise_crm.Common.Text.{trim}

-- `text || null`
unfoldable pub or_null : String → Option String
or_null text = if text == "" then none else some text

-- `text.trim() || null`
unfoldable pub optional_text : String → Option String
unfolding or_null trim
optional_text text = or_null (trim text)

pub record CompanyInput : Type 0 where
  pub industry : Option String
  pub name : String
  pub website : Option String

abbrev pub empty_company : CompanyInput
empty_company = record { industry = none; name = ""; website = none }

pub record CompanyFields : Type 0 where
  pub name : String
  pub website : String
  pub industry : String

unfoldable pub open_company : CompanyInput → CompanyFields
open_company input = record {
  name = input.name;
  website = or_else input.website "";
  industry = or_else input.industry "";
}

unfoldable pub submit_company : CompanyFields → CompanyInput
unfolding optional_text trim
submit_company fields = record {
  industry = optional_text fields.industry;
  name = trim fields.name;
  website = optional_text fields.website;
}

pub record ContactInput : Type 0 where
  pub company_id : String
  pub email : Option String
  pub first_name : String
  pub last_name : String
  pub phone : Option String

abbrev pub empty_contact : ContactInput
empty_contact = record {
  company_id = "";
  email = none;
  first_name = "";
  last_name = "";
  phone = none;
}

pub record ContactFields : Type 0 where
  pub company_id : String
  pub first_name : String
  pub last_name : String
  pub email : String
  pub phone : String

unfoldable pub open_contact : ContactInput → ContactFields
open_contact input = record {
  company_id = input.company_id;
  first_name = input.first_name;
  last_name = input.last_name;
  email = or_else input.email "";
  phone = or_else input.phone "";
}

unfoldable pub submit_contact : ContactFields → ContactInput
unfolding optional_text trim
submit_contact fields = record {
  company_id = fields.company_id;
  email = optional_text fields.email;
  first_name = trim fields.first_name;
  last_name = trim fields.last_name;
  phone = optional_text fields.phone;
}

pub record NoteInput : Type 0 where
  pub company_id : Option String
  pub contact_id : Option String
  pub content : String
  pub lead_id : Option String

abbrev pub empty_note : NoteInput
empty_note = record { company_id = none; contact_id = none; content = ""; lead_id = none }

pub record NoteFields : Type 0 where
  pub content : String
  pub company_id : String
  pub contact_id : String
  pub lead_id : String

unfoldable pub open_note : NoteInput → NoteFields
open_note input = record {
  content = input.content;
  company_id = or_else input.company_id "";
  contact_id = or_else input.contact_id "";
  lead_id = or_else input.lead_id "";
}

unfoldable pub submit_note : NoteFields → NoteInput
unfolding or_null trim
submit_note fields = record {
  company_id = or_null fields.company_id;
  contact_id = or_null fields.contact_id;
  content = trim fields.content;
  lead_id = or_null fields.lead_id;
}

pub record LeadInput : Type 0 where
  pub company_id : Option String
  pub contact_id : Option String
  pub description : Option String
  pub source : String
  pub status : String
  pub title : String

abbrev pub empty_lead : LeadInput
empty_lead = record {
  company_id = none;
  contact_id = none;
  description = none;
  source = "other";
  status = "new";
  title = "";
}

pub record LeadFields : Type 0 where
  pub title : String
  pub description : String
  pub source : String
  pub status : String
  pub company_id : String

unfoldable pub open_lead : LeadInput → LeadFields
open_lead input = record {
  title = input.title;
  description = or_else input.description "";
  source = input.source;
  status = input.status;
  company_id = or_else input.company_id "";
}

unfoldable pub submit_lead : LeadFields → LeadInput
unfolding or_null optional_text trim
submit_lead fields = record {
  company_id = or_null fields.company_id;
  contact_id = none;
  description = optional_text fields.description;
  source = fields.source;
  status = fields.status;
  title = trim fields.title;
}
