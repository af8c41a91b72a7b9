-- ===== src/Proxy/Filter.antt =====
-- proxy.ts: which headers of the back end reach the client.
use enterprise_crm.Common.{
  String, none, some, ◌≡◌, refl, ◌≢◌, ◌∙◌, arith, eq_iff, Option-cases, inl, inr,
}
use enterprise_crm.Common.Text.{ne_of_test}
use enterprise_crm.Http.{truthy}
use enterprise_crm.Http.Headers
use enterprise_crm.Http.Headers.{get-set}
use enterprise_crm.Proxy.{copy_header, response_headers}

copy_header-other :
    (j k : String) (from to : Headers.Headers)
    → k ≢ j
    → Headers.get j (copy_header k from to) ≡ Headers.get j to
unfolding copy_header
copy_header-other j k from to h = elim (Option-cases (truthy (Headers.get k from))) [
  | inl e ↦ rw (e, copy_header)
  | inr (v, e) ↦ rw (e, copy_header) (rw get-set (ground (arith, eq_iff k j)))
]

-- No header of the back end but these.
abbrev pub IsFiltered : String → Type 0
IsFiltered name =
    ("cache-control" ≢ name)
    × ("x-content-type-options" ≢ name)
    × ("content-type" ≢ name)
    × ("content-disposition" ≢ name)
    × ("content-length" ≢ name)

-- A header that is not the content's type, disposition or length, nor one of the two that the proxy
-- sets itself, does not reach the client, whatever the back end sends: no cookie of the back end does.
pub get-response_headers_filtered :
    (name : String) (from : Headers.Headers)
    → IsFiltered name
    → Headers.get name (response_headers from) ≡ none
unfolding response_headers Headers.get
get-response_headers_filtered name from (cache, sniff, type, disposition, size) =
    copy_header-other name "content-length" from _ size
    ∙ copy_header-other name "content-disposition" from _ disposition
    ∙ copy_header-other name "content-type" from _ type
    ∙ ground (arith, eq_iff "cache-control" name, eq_iff "x-content-type-options" name)

-- Every answer of the proxy is marked as not to be stored.
pub get-response_headers_cache :
    (from : Headers.Headers) → Headers.get "cache-control" (response_headers from) ≡ some "no-store"
unfolding response_headers Headers.get
get-response_headers_cache from =
    copy_header-other "cache-control" "content-length" from _ (ne_of_test _ _ refl)
    ∙ copy_header-other "cache-control" "content-disposition" from _ (ne_of_test _ _ refl)
    ∙ copy_header-other "cache-control" "content-type" from _ (ne_of_test _ _ refl)

-- A header that is copied from the back end, where it is there and not empty.
copy_header-same :
    (k : String) (from to : Headers.Headers)
    → Headers.get k to ≡ none
    → Headers.get k (copy_header k from to) ≡ truthy (Headers.get k from)
unfolding copy_header
copy_header-same k from to bare = elim (Option-cases (truthy (Headers.get k from))) [
  | inl e ↦ rw (e, copy_header) bare
  | inr (v, e) ↦ rw (e, copy_header) (rw get-set (ground (arith, eq_iff k k)))
]

pub get-response_headers_type :
    (from : Headers.Headers)
    → Headers.get "content-type" (response_headers from) ≡ truthy (Headers.get "content-type" from)
unfolding response_headers Headers.get
get-response_headers_type from =
    copy_header-other "content-type" "content-length" from _ (ne_of_test _ _ refl)
    ∙ copy_header-other "content-type" "content-disposition" from _ (ne_of_test _ _ refl)
    ∙ copy_header-same "content-type" from _ refl

pub get-response_headers_disposition :
    (from : Headers.Headers)
    → Headers.get "content-disposition" (response_headers from)
      ≡ truthy (Headers.get "content-disposition" from)
unfolding response_headers Headers.get
get-response_headers_disposition from =
    copy_header-other "content-disposition" "content-length" from _ (ne_of_test _ _ refl)
    ∙ copy_header-same "content-disposition" from _
        (copy_header-other "content-disposition" "content-type" from _ (ne_of_test _ _ refl))

pub get-response_headers_length :
    (from : Headers.Headers)
    → Headers.get "content-length" (response_headers from)
      ≡ truthy (Headers.get "content-length" from)
unfolding response_headers Headers.get
get-response_headers_length from = copy_header-same "content-length" from _ (
    copy_header-other "content-length" "content-disposition" from _ (ne_of_test _ _ refl)
    ∙ copy_header-other "content-length" "content-type" from _ (ne_of_test _ _ refl))

pub get-response_headers_sniff :
    (from : Headers.Headers)
    → Headers.get "x-content-type-options" (response_headers from) ≡ some "nosniff"
unfolding response_headers Headers.get
get-response_headers_sniff from =
    copy_header-other "x-content-type-options" "content-length" from _ (ne_of_test _ _ refl)
    ∙ copy_header-other "x-content-type-options" "content-disposition" from _ (ne_of_test _ _ refl)
    ∙ copy_header-other "x-content-type-options" "content-type" from _ (ne_of_test _ _ refl)
