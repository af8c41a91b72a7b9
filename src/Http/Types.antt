-- ===== src/Http/Types.antt =====
-- JSON, requests, responses and the server's surroundings.
use enterprise_crm.Common.{
  ℕ, String, Bool, true, false, Option, none, some, List, ◌==◌, ◌&&◌, leb, if◌then◌else◌,
}
use enterprise_crm.Http.Number.{JsNumber}
use enterprise_crm.Http.Headers.{Headers}

mutual
  pub data Json : Type 0 where
    null : Json
    bool : Bool → Json
    num : JsNumber → Json
    str : String → Json
    arr : Items → Json
    obj : Fields → Json

  pub data Items : Type 0 where
    nil : Items
    cons : Json → Items → Items

  pub data Fields : Type 0 where
    end : Fields
    field : String → Json → Fields → Fields

-- `value[key]` on an object of parsed JSON, whose keys are distinct; an array has no such key.
abbrev lookup_field : String → Fields → Option Json
lookup_field key end = none
lookup_field key (field k v fs) = if k == key then some v else lookup_field key fs

abbrev pub get_field : String → Json → Option Json
get_field key (obj fs) = lookup_field key fs
get_field key _ = none

-- `typeof value === "object" && value !== null`, which holds of arrays too.
abbrev pub is_object : Json → Bool
is_object (obj fs) = true
is_object (arr xs) = true
is_object _ = false

-- The methods of a route module. Next.js calls a handler under its own name only, so a request
-- method is one of these, in upper case.
pub data Method : Type 0 where
  get head options post put patch delete : Method

pub record Url : Type 0 where
  pub protocol : String
  pub origin : String
  pub search : String
  pub href : String

pub data Payload : Type 0 where
  text : String → Payload
  json : Json → Payload

-- The argument of `backendRequest` beside the path; a `json` body is what `JSON.stringify` gives.
pub record RequestInit : Type 0 where
  pub method : Method
  pub headers : Headers
  pub body : Option Payload

pub record Call : Type 0 where
  pub url : String
  pub init : RequestInit

-- `bytes` and `parsed` are what `arrayBuffer()` and `json()` resolve to: nothing, if they reject.
pub record Response : Type 0 where
  pub status : ℕ
  pub headers : Headers
  pub has_body : Bool
  pub bytes : Option String
  pub parsed : Option Json

abbrev pub is_ok : Response → Bool
is_ok r = leb 200 r.status && leb r.status 299

-- How `fetch` settles when nobody aborts it, and after how many milliseconds.
pub data Settled : Type 0 where
  responds : ℕ → Response → Settled
  rejects : ℕ → Settled

pub record Request : Type 0 where
  pub method : Method
  pub url : String
  pub headers : Headers
  pub cookies : List (String × String)
  pub bytes : Option String
  pub parsed : Option Json

-- The process's environment, the platform's functions, and the back end: it answers a call as it
-- likes, by all the calls that were made before (the last one first).
pub record Server : Type 0 where
  pub backend_api_url : Option String
  pub backend_api_timeout_ms : JsNumber
  pub auth_refresh_token_max_age_seconds : JsNumber
  pub is_production : Bool
  pub parse_url : String → Option Url
  pub random_uuid : String
  pub answer : List Call → Call → Settled

pub record CookieOptions : Type 0 where
  pub http_only : Bool
  pub max_age : JsNumber
  pub path : String
  pub same_site : String
  pub secure : Bool

pub data CookieChange : Type 0 where
  set_cookie : String → String → CookieOptions → CookieChange
  delete_cookie : String → CookieChange

pub data Body : Type 0 where
  empty : Body
  bytes : String → Body
  json_body : Json → Body
  stream : Response → Body

pub record NextResponse : Type 0 where
  pub status : ℕ
  pub headers : Headers
  pub body : Body
  pub cookies : List CookieChange

-- A value that JavaScript takes for true: a text that is there and not empty.
abbrev pub truthy : Option String → Option String
truthy none = none
truthy (some s) = if s == "" then none else some s
