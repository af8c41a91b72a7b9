-- ===== src/ImportExport/Settled.antt =====
-- frontend/src/features/import-export/import-export-workspace.tsx: what the page shows when an import has
-- ended.
use enterprise_crm.Common.{◌≡◌, refl, ap, String, true, false, Option, none, some, List, [], ◌∷◌}
use enterprise_crm.Http.{Json, null, num, str, arr, obj, Items, nil, cons, end, field}
use enterprise_crm.Client.Messages.{Value, json_value}
use enterprise_crm.ImportExport.{
  ImportExportResource, ImportRowError, ImportResponse, imported, api_failed, field_of,
  checked_error, row_error_of, row_errors_of, listed_errors, import_row_errors, Import,
  select_resource, select_file, begin_import, end_import,
}

-- What the back end sends for an error in a row.
abbrev text_or_null : Option String → Json
text_or_null none = null
text_or_null (some words) = str words

abbrev json_of : ImportRowError → Json
json_of error = obj (
    field "row_number" (num error.row_number)
      (field "field" (text_or_null error.field) (field "message" (str error.message) end)))

abbrev items_of : List ImportRowError → Items
items_of [] = nil
items_of (error ∷ errors) = cons (json_of error) (items_of errors)

abbrev pub rejection : String → List ImportRowError → Value
rejection message errors = json_value (
    obj (
      field "detail"
        (obj (field "message" (str message) (field "errors" (arr (items_of errors)) end))) end))

checked_error-field :
    (error : ImportRowError) (name : Option String)
    → error.field ≡ name
    → checked_error
        (some (num error.row_number))
        (some (str error.message))
        (field_of (some (text_or_null name)))
      ≡ some error
checked_error-field error none h = rw⁻¹ h refl
checked_error-field error (some name) h = rw⁻¹ h refl

row_error_of-json : (error : ImportRowError) → row_error_of (json_of error) ≡ some error
unfolding row_error_of
row_error_of-json error = checked_error-field error error.field refl

row_errors_of-items : (errors : List ImportRowError) → row_errors_of (items_of errors) ≡ errors
unfolding row_errors_of
row_errors_of-items [] = refl
row_errors_of-items (error ∷ errors) =
    rw (row_error_of-json error) (ap (λ rest. error ∷ rest) (row_errors_of-items errors))

import_row_errors-rejection :
    (text message : String) (errors : List ImportRowError)
    → import_row_errors (api_failed text (rejection message errors)) ≡ errors
unfolding import_row_errors listed_errors
import_row_errors-rejection text message errors = row_errors_of-items errors

-- The end of an import of a file that has been chosen: if the back end rejects its rows, the page shows
-- the client's message and exactly the errors of the rows that the back end has sent, in their order, and
-- keeps the file; if it has imported them, the page shows its response and no error, and no file is
-- chosen any more. Either way no import runs after it.
pub end_import-settled :
    (text message file : String) (errors : List ImportRowError) (response : ImportResponse)
    (state : Import)
    → state.file ≡ some file
    → (end_import (api_failed text (rejection message errors)) (begin_import state) ≡ record state {
      is_importing = false;
      result = none;
      error = some text;
      row_errors = errors;
    })
      × (end_import (imported response) (begin_import state) ≡ record state {
        file = none;
        is_importing = false;
        result = some response;
        error = none;
        row_errors = [];
      })
unfolding end_import begin_import
end_import-settled text message file errors response state chosen =
    rw (chosen, import_row_errors-rejection text message errors) (refl, refl)

-- A reader who chooses a resource and then a file while an import runs loses this file if the import
-- succeeds, and is shown the errors of the other file's rows beside it if the back end rejects them.
pub end_import-late :
    (text message file next_file : String) (errors : List ImportRowError)
    (response : ImportResponse) (next_resource : ImportExportResource) (state : Import)
    → state.file ≡ some file
    → let chosen =
        select_file (some next_file) (select_resource next_resource (begin_import state)) in
      ((end_import (imported response) chosen).file ≡ none)
      × ((end_import (api_failed text (rejection message errors)) chosen).file ≡ some next_file)
      × ((end_import (api_failed text (rejection message errors)) chosen).row_errors ≡ errors)
      × (chosen.is_importing ≡ true)
unfolding end_import begin_import select_file select_resource
end_import-late text message file next_file errors response next_resource state chosen =
    rw (chosen, import_row_errors-rejection text message errors) (refl, refl, refl, refl)
