-- ===== src/Tests/Relationships.antt =====
-- Tests of the overview around a company.
use enterprise_crm.Common.{◌≡◌, refl, String, true, false, List, [], ◌∷◌, ◌+◌, ℕ}
use enterprise_crm.Hooks.{content, other_failure}
use enterprise_crm.Navigation.{has}
use enterprise_crm.SalesBoard.{Scalar, amount, text, Deal, open_deal}
use enterprise_crm.Relationships.{
  Progress, Overview, Answers, contacts_job, deals_job, jobs_of, empty_section, empty_state, begun,
  settle_job, show_progress, open_deals, add_up, visible_open_value, primary_currency,
}
use enterprise_crm.Relationships.Orders.{
  Settles, done, next, first, later, IsOverviewOf, Settles-IsOverviewOf,
}

abbrev seller : List String
seller = "contacts.read" ∷ "deals.read" ∷ []

abbrev half_answers : Answers String String String
half_answers = record {
  contacts = content (record { items = "Ada" ∷ []; total = 1 });
  deals = other_failure;
  notes = content empty_section;
  activities = content empty_section;
}

abbrev waiting_overview : Overview String String String
waiting_overview = record { loaded = empty_state; is_loading = true; partial_failure = false }

abbrev both_ended : Progress String String String
both_ended = settle_job half_answers contacts_job (settle_job half_answers deals_job begun)

both_ended-Settles : Settles half_answers (jobs_of seller) begun both_ended
unfolding jobs_of has
both_ended-Settles =
    next deals_job (later contacts_job (first deals_job []))
      (next contacts_job (first contacts_job []) (done both_ended))

Settles-IsOverviewOf_example :
    ((show_progress true both_ended waiting_overview).is_loading ≡ false)
    × IsOverviewOf half_answers
        (has "contacts.read" seller)
        (has "deals.read" seller)
        (has "notes.read" seller)
        (has "activities.read" seller)
        (record {
          next = (show_progress true both_ended waiting_overview).loaded;
          failed = (show_progress true both_ended waiting_overview).partial_failure;
        })
Settles-IsOverviewOf_example =
    Settles-IsOverviewOf half_answers seller waiting_overview both_ended both_ended-Settles

abbrev deal_in : String → ℕ → Deal
deal_in currency value = record {
  id = currency;
  title = "Crane";
  stage_id = "new";
  probability = text "50";
  value = amount value;
  currency = currency;
  status = open_deal;
}

abbrev value_of : Scalar → ℕ
value_of (amount n) = n
value_of (text words) = 0

-- Deals in two currencies are added up and shown in the first of these.
two_currencies :
    (visible_open_value value_of 0 ◌+◌ (deal_in "USD" 100 ∷ deal_in "JPY" 5000 ∷ []) ≡ 5100)
    × (primary_currency (deal_in "USD" 100 ∷ deal_in "JPY" 5000 ∷ []) ≡ "USD")
unfolding visible_open_value open_deals add_up primary_currency
two_currencies = (refl, refl)
