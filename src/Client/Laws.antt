-- ===== src/Client/Laws.antt =====
-- api-client.ts: what a caller of the client gets.
use enterprise_crm.Common.{
  ℕ, String, true, false, Option, none, some, eqb, ◌||◌, ◌≡◌, refl, subst, ◌≢◌, inl, inr, arith, ap,
  if◌then◌else◌, Bool-cases,
}
use enterprise_crm.Http.{Payload, Response, is_ok}
use enterprise_crm.Client.Messages.{
  Value, undefined, error_text, default_error_message, read_response_body,
}
use enterprise_crm.Client.{
  Browser, ApiRequestOptions, ApiResult, resolved, api_error, request_call, parse_response,
  settle_request, request, stream_call, settle_stream, stream_post,
}
use enterprise_crm.Client.Errors.{error_text_filled, default_error_message_filled}

-- An error has a message, and, if the BFF has answered, the answer's status and content.
pub record Explains (answer : Option Response) (message : String) (status : ℕ) (details : Value)
    : Type 0 where
  pub filled : message ≢ ""
  pub unreached : answer ≡ none → status ≡ 0
  pub answered :
      (r : Response)
      → answer ≡ some r
      → (is_ok r ≡ false) × (status ≡ r.status) × (details ≡ read_response_body r)

-- What the caller of the client gets from an answer of the BFF.
abbrev pub Settles : {A : Type 0} → (Response → A) → Option Response → ApiResult A → Type 0
Settles value answer (resolved a) =
    (r : Response) × (answer ≡ some r) × (is_ok r ≡ true) × (a ≡ value r)
Settles value answer (api_error message status details) = Explains answer message status details

-- What a successful answer is read as: a 204 or 205 as nothing.
abbrev pub content_of : Response → Value
content_of r = if eqb r.status 204 || eqb r.status 205 then undefined else read_response_body r

failed_Explains :
    (r : Response)
    → is_ok r ≡ false
    → Explains (some r) (error_text (read_response_body r) r.status) r.status (read_response_body r)
failed_Explains r bad = record {
  filled = error_text_filled (read_response_body r) r.status;
  unreached = λ h. cc;
  answered = λ s h.
      let same : r ≡ s = cc in
      (
        subst (λ x. is_ok x ≡ false) same bad,
        ap (λ (x : Response). x.status) same,
        ap read_response_body same,
      );
}

unreached_Explains : Explains none (default_error_message 0) 0 undefined
unreached_Explains = record {
  filled = default_error_message_filled 0;
  unreached = λ h. refl;
  answered = λ r h. cc;
}

parse_response-Settles : (r : Response) → Settles content_of (some r) (parse_response r)
unfolding parse_response
parse_response-Settles r = elim (Bool-cases (eqb r.status 204 || eqb r.status 205)) [
  | inl bare ↦ rw (bare, parse_response) (r, refl, ground arith, rw bare refl)
  | inr full ↦ elim (Bool-cases (is_ok r)) [
    | inl fine ↦ rw (full, parse_response) (rw (fine, parse_response) (r, refl, fine, rw full refl))
    | inr bad ↦ rw (full, parse_response) (rw (bad, parse_response) (failed_Explains r bad))
  ]
]

settle_request-Settles :
    (answer : Option Response) → Settles content_of answer (settle_request answer)
unfolding settle_request
settle_request-Settles none = unreached_Explains
settle_request-Settles (some r) = parse_response-Settles r

-- Every call of the client comes to a value, exactly what the answer holds, where the BFF answers
-- with a success, and to an error with a message that is not empty, where it does not: with the
-- answer's status and content, or with status 0 if there is no answer.
pub request-Settles :
    (browser : Browser) (path : String) (options : ApiRequestOptions)
    → Settles content_of
        (browser.fetch (request_call browser path options))
        (request browser path options)
unfolding request
request-Settles browser path options =
    settle_request-Settles (browser.fetch (request_call browser path options))

settle_stream-Settles : (answer : Option Response) → Settles (λ r. r) answer (settle_stream answer)
unfolding settle_stream
settle_stream-Settles none = unreached_Explains
settle_stream-Settles (some r) = elim (Bool-cases (is_ok r)) [
  | inl fine ↦ rw (fine, settle_stream) (r, refl, fine, refl)
  | inr bad ↦ rw (bad, settle_stream) (failed_Explains r bad)
]

-- A stream is opened exactly where the BFF answers with a success; else there is an error as above.
pub stream_post-Settles :
    (browser : Browser) (path : String) (body : Payload)
    → Settles
        (λ r. r)
        (browser.fetch (stream_call browser path body))
        (stream_post browser path body)
unfolding stream_post
stream_post-Settles browser path body =
    settle_stream-Settles (browser.fetch (stream_call browser path body))
