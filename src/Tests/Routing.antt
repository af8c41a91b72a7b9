-- ===== src/Tests/Routing.antt =====
-- The theorems on routing, on concrete calls.
use enterprise_crm.Common.{String, true, List, [], ◌∷◌, ◌≡◌, refl}
use enterprise_crm.Http.{null}
use enterprise_crm.Services.Query.{QueryValue, number, words}
use enterprise_crm.Routing.Records.{is_id, RecordsReach}
use enterprise_crm.Routing.Nested.{FurtherReach, record_calls-Reach}

abbrev filters : List (String × QueryValue)
filters = ("page", number 2) ∷ ("q", words "a/b?c") ∷ []

id_accepted : is_id "0b5-4F" ≡ true
unfolding is_id
id_accepted = refl

kind_accepted : is_id "deal" ≡ true
unfolding is_id
kind_accepted = refl

record_calls-Reach_example :
    RecordsReach null "0b5-4F" filters × FurtherReach null "0b5-4F" "deal" "0b5-4F"
record_calls-Reach_example =
    record_calls-Reach null "0b5-4F" "deal" "0b5-4F" filters id_accepted kind_accepted id_accepted
