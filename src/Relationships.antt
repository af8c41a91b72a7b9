-- ===== src/Relationships.antt =====
-- frontend/src/features/companies/company-relationship-overview.tsx: what is loaded around a company.
pub mod Orders
use enterprise_crm.Common.{
  ℕ, String, Bool, true, false, ◌||◌, Option, none, some, List, [], ◌∷◌, ◌++◌, if◌then◌else◌,
  filter, or_else,
}
use enterprise_crm.Hooks.{Loaded, content, api_failure, other_failure}
use enterprise_crm.Navigation.{has}
use enterprise_crm.SalesBoard.{Scalar, Deal, DealStatus, open_deal, won, lost}

-- The items of a kind and how many there are of them.
pub record Section (A : Type 0) : Type 0 where
  pub items : List A
  pub total : ℕ

abbrev pub empty_section : {A : Type 0} → Section A
empty_section = record { items = []; total = 0 }

-- `Contact`, `Note` and `Activity` are what the back end sends of these kinds.
module _ (Contact Note Activity : Type 0) where
  pub record LoadState : Type 0 where
    pub activities : Section Activity
    pub contacts : Section Contact
    pub deals : Section Deal
    pub notes : Section Note

  -- The variables that the jobs of one run of the effect share.
  pub record Progress : Type 0 where
    pub next : LoadState
    pub failed : Bool

  pub record Overview : Type 0 where
    pub loaded : LoadState
    pub is_loading : Bool
    pub partial_failure : Bool

  -- What the calls of the four services come to.
  pub record Answers : Type 0 where
    pub contacts : Loaded (Section Contact)
    pub deals : Loaded (Section Deal)
    pub notes : Loaded (Section Note)
    pub activities : Loaded (Section Activity)

pub data Job : Type 0 where
  contacts_job deals_job notes_job activities_job : Job

abbrev pub job_if : Bool → Job → List Job
job_if may_read job = if may_read then job ∷ [] else []

-- The jobs that the effect pushes.
unfoldable pub jobs_of : List String → List Job
unfolding has
jobs_of names =
    job_if (has "contacts.read" names) contacts_job
    ++ (job_if (has "deals.read" names) deals_job
        ++ (job_if (has "notes.read" names) notes_job
            ++ job_if (has "activities.read" names) activities_job))

abbrev pub received : {A : Type 0} → Loaded (Section A) → Section A → Section A
received (content section) old = section
received _ old = old

abbrev pub is_failure : {A : Type 0} → Loaded A → Bool
is_failure (content value) = false
is_failure _ = true

module _ {Contact Note Activity : Type 0} where
  abbrev pub empty_state : LoadState Contact Note Activity
  empty_state = record {
    activities = empty_section;
    contacts = empty_section;
    deals = empty_section;
    notes = empty_section;
  }

  abbrev pub begun : Progress Contact Note Activity
  begun = record { next = empty_state; failed = false }

  -- The continuation of a job: its `then`, or its `catch`.
  unfoldable pub settle_job :
      Answers Contact Note Activity
      → Job
      → Progress Contact Note Activity
      → Progress Contact Note Activity
  settle_job answers contacts_job progress = record {
    next = record progress.next { contacts = received answers.contacts progress.next.contacts };
    failed = progress.failed || is_failure answers.contacts;
  }
  settle_job answers deals_job progress = record {
    next = record progress.next { deals = received answers.deals progress.next.deals };
    failed = progress.failed || is_failure answers.deals;
  }
  settle_job answers notes_job progress = record {
    next = record progress.next { notes = received answers.notes progress.next.notes };
    failed = progress.failed || is_failure answers.notes;
  }
  settle_job answers activities_job progress = record {
    next = record progress.next {
      activities = received answers.activities progress.next.activities;
    };
    failed = progress.failed || is_failure answers.activities;
  }

  -- The continuation of `Promise.all`.
  unfoldable pub show_progress :
      (is_active : Bool)
      → Progress Contact Note Activity
      → Overview Contact Note Activity
      → Overview Contact Note Activity
  show_progress is_active progress overview =
      if is_active
      then record { loaded = progress.next; is_loading = false; partial_failure = progress.failed }
      else overview

abbrev pub is_open_deal : Deal → Bool
is_open_deal deal = elim deal.status [ open_deal ↦ true | won ↦ false | lost ↦ false ]

unfoldable pub open_deals : List Deal → List Deal
unfolding filter
open_deals deals = filter is_open_deal deals

module _ {N : Type 0} (number_of : Scalar → N) (nought : N) (add : N → N → N) where
  unfoldable pub add_up : N → List Deal → N
  add_up total [] = total
  add_up total (deal ∷ deals) = add_up (add total (number_of deal.value)) deals

  unfoldable pub visible_open_value : List Deal → N
  unfolding add_up open_deals
  visible_open_value deals = add_up nought (open_deals deals)

abbrev pub currency_of_first : List Deal → Option String
currency_of_first [] = none
currency_of_first (deal ∷ deals) = some deal.currency

unfoldable pub primary_currency : List Deal → String
unfolding open_deals
primary_currency deals =
    or_else (currency_of_first (open_deals deals)) (or_else (currency_of_first deals) "USD")
