-- ===== src/Tests/Pages.antt =====
-- Tests of the pages of one record and of the import of a CSV file.
use enterprise_crm.Common.{
  ◌≡◌, refl, String, true, false, not, ◌||◌, none, some, is_some, List, [], ◌∷◌,
}
use enterprise_crm.Http.{whole}
use enterprise_crm.Hooks.{api_failure}
use enterprise_crm.Details.{Detail, mounted, company_detail}
use enterprise_crm.Details.Runs.{
  Reachable, start, step, load_ended, IsExplained, Reachable-IsExplained,
}
use enterprise_crm.ImportExport.{
  companies, contacts, ImportRowError, ImportResponse, imported, api_failed, Import,
  select_resource, select_file, begin_import, end_import,
}
use enterprise_crm.ImportExport.Settled.{rejection, end_import-settled, end_import-late}

abbrev unreachable : Detail String
unreachable = company_detail.loaded (api_failure "gone") mounted

unreachable-Reachable :
    Reachable "Unable to load this company." "Company not found." "/dashboard/companies" unreachable
unreachable-Reachable = step start (load_ended (api_failure "gone") refl)

Reachable-IsExplained_example :
    IsExplained (company_detail.view unreachable) unreachable
    × ((not (is_some unreachable.replaced_by) || unreachable.is_deleting) ≡ true)
Reachable-IsExplained_example =
    Reachable-IsExplained "Unable to load this company." "Company not found." "/dashboard/companies"
      unreachable unreachable-Reachable

abbrev csv_chosen : Import
csv_chosen = record {
  resource = companies;
  file = some "name";
  is_importing = false;
  result = none;
  error = none;
  row_errors = [];
}

abbrev bad_row : List ImportRowError
bad_row = record { field = some "name"; message = "Field required"; row_number = whole 2 } ∷ []

abbrev all_created : ImportResponse
all_created = record { created_count = whole 1; resource = companies; rows_processed = whole 1 }

end_import-settled_example :
    (end_import
        (api_failed "Invalid rows" (rejection "Invalid rows" bad_row))
        (begin_import csv_chosen)
      ≡ record csv_chosen {
        is_importing = false;
        result = none;
        error = some "Invalid rows";
        row_errors = bad_row;
      })
    × (end_import (imported all_created) (begin_import csv_chosen) ≡ record csv_chosen {
      file = none;
      is_importing = false;
      result = some all_created;
      error = none;
      row_errors = [];
    })
end_import-settled_example =
    end_import-settled "Invalid rows" "Invalid rows" "name" bad_row all_created csv_chosen refl

abbrev other_chosen : Import
other_chosen = select_file (some "email") (select_resource contacts (begin_import csv_chosen))

end_import-late_example :
    ((end_import (imported all_created) other_chosen).file ≡ none)
    × ((end_import (api_failed "Invalid rows" (rejection "Invalid rows" bad_row)) other_chosen).file
        ≡ some "email")
    × ((end_import
          (api_failed "Invalid rows" (rejection "Invalid rows" bad_row))
          other_chosen).row_errors
        ≡ bad_row)
    × (other_chosen.is_importing ≡ true)
end_import-late_example =
    end_import-late "Invalid rows" "Invalid rows" "name" "email" bad_row all_created contacts
      csv_chosen refl
