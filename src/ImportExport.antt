-- ===== src/ImportExport.antt =====
-- frontend/src/features/import-export/import-export-workspace.tsx: the import of a CSV file. A file is its
-- content.
pub mod Settled
use enterprise_crm.Common.{String, Bool, true, false, Option, none, some, List, [], ◌∷◌}
use enterprise_crm.Http.{
  Json, null, bool, num, str, arr, obj, Items, nil, cons, JsNumber, get_field,
}
use enterprise_crm.Client.Messages.{Value, undefined, json_value, text_value}

pub data ImportExportResource : Type 0 where
  companies contacts : ImportExportResource

pub record ImportRowError : Type 0 where
  pub field : Option String
  pub message : String
  pub row_number : JsNumber

pub record ImportResponse : Type 0 where
  pub created_count : JsNumber
  pub resource : ImportExportResource
  pub rows_processed : JsNumber

-- What an import may come to: its response, an `ApiError` with its message and details, or another error.
pub data Imported : Type 0 where
  imported : ImportResponse → Imported
  api_failed : String → Value → Imported
  other_failed : Imported

-- `value.field`, if it is a text or null.
abbrev pub field_of : Option Json → Option (Option String)
field_of (some (str name)) = some (some name)
field_of (some null) = some none
field_of _ = none

abbrev pub checked_error :
    Option Json → Option Json → Option (Option String) → Option ImportRowError
checked_error (some (num row_number)) (some (str message)) (some field) =
    some (record { field = field; message = message; row_number = row_number })
checked_error _ _ _ = none

-- The predicate of the filter, with the fields that it finds.
unfoldable pub row_error_of : Json → Option ImportRowError
row_error_of value =
    checked_error (get_field "row_number" value) (get_field "message" value)
      (field_of (get_field "field" value))

abbrev pub add_found : Option ImportRowError → List ImportRowError → List ImportRowError
add_found none errors = errors
add_found (some error) errors = error ∷ errors

unfoldable pub row_errors_of : Items → List ImportRowError
unfolding row_error_of
row_errors_of nil = []
row_errors_of (cons value values) = add_found (row_error_of value) (row_errors_of values)

unfoldable pub listed_errors : Option Json → List ImportRowError
unfolding row_errors_of
listed_errors (some (arr values)) = row_errors_of values
listed_errors _ = []

abbrev pub errors_of_detail : Option Json → List ImportRowError
errors_of_detail (some detail) = listed_errors (get_field "errors" detail)
errors_of_detail none = []

unfoldable pub import_row_errors : Imported → List ImportRowError
unfolding listed_errors
import_row_errors (api_failed message (json_value details)) =
    errors_of_detail (get_field "detail" details)
import_row_errors _ = []

abbrev pub import_error : Imported → Option String
import_error (imported response) = none
import_error (api_failed message details) = some message
import_error other_failed = some "Unable to import this CSV file."

pub record Import : Type 0 where
  pub resource : ImportExportResource
  pub file : Option String
  pub is_importing : Bool
  pub result : Option ImportResponse
  pub error : Option String
  pub row_errors : List ImportRowError

unfoldable pub select_resource : ImportExportResource → Import → Import
select_resource next_resource state = record state {
  resource = next_resource;
  file = none;
  result = none;
  error = none;
  row_errors = [];
}

unfoldable pub select_file : Option String → Import → Import
select_file file state = record state { file = file; result = none; error = none; row_errors = [] }

-- `importCsv` up to its call, which it makes if there is a file.
unfoldable pub begin_import : Import → Import
begin_import state = elim state.file [
  | none ↦ record state { error = some "Choose a CSV file before importing." }
  | some file ↦ record state { is_importing = true; result = none; error = none; row_errors = [] }
]

-- The end of the call.
unfoldable pub end_import : Imported → Import → Import
unfolding import_row_errors
end_import (imported response) state = record state {
  result = some response;
  file = none;
  is_importing = false;
}
end_import (api_failed message details) state = record state {
  error = import_error (api_failed message details);
  row_errors = import_row_errors (api_failed message details);
  is_importing = false;
}
end_import other_failed state = record state {
  error = import_error other_failed;
  row_errors = import_row_errors other_failed;
  is_importing = false;
}
