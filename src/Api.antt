-- ===== src/Api.antt =====
-- internal/api: the HTTP API. A handler takes the request and the world, and returns the response;
-- what it writes to the log is left out. This file has json.go and the types of net/http that the
-- handlers use.
pub mod Requests
pub mod Responses
pub mod Orders
pub mod Auth
pub mod Server
pub mod Locks
pub mod Middleware
pub mod Router
pub mod Frames
pub mod ReadOnly
pub mod Invariants
pub mod Refinement
pub mod Access
pub mod Exclusion
use go_order_service.Prelude.{
  ℕ, String, Bool, Option, none, some, List, [], ◌∷◌, if◌then◌else◌, ◌==◌, string_eq,
}
use go_order_service.Prelude.Int.{ℤ}
use go_order_service.Encoding.{Json, str, obj, end, field, Bytes}
use go_order_service.Runtime.{Error, Result, ok, err, World, Action}
use go_order_service.Auth.{Claims}

-- Headers and cookies by name, the first of a name counting, and headers in the spelling of the
-- source. `claims` is what the request's context
-- has for `authClaimsContextKey`, `id` the parameter that the router took from the path.
pub record Request : Type 0 where
  pub method : String
  pub path : String
  pub headers : List (String × String)
  pub cookies : List (String × String)
  pub remote_addr : String
  pub body : Bytes
  pub claims : Option Claims
  pub id : String

-- `http.Cookie`, with `SameSite` as `http.SameSiteLaxMode` or not.
pub record Cookie : Type 0 where
  pub name : String
  pub value : String
  pub path : String
  pub expires : ℕ
  pub max_age : ℤ
  pub http_only : Bool
  pub secure : Bool
  pub same_site_lax : Bool

pub data Content : Type 0 where
  no_content : Content
  text : String → Content
  json : Json → Content

pub record Response : Type 0 where
  pub status : ℕ
  pub headers : List (String × String)
  pub cookies : List Cookie
  pub content : Content

abbrev pub Handler : Type 0
Handler = Request → World → Response × World

-- `r.Header.Get`: the empty text for a header that is not there.
abbrev pub get_header : String → List (String × String) → String
get_header name [] = ""
get_header name ((n, v) ∷ hs) = let rest = get_header name hs in if n == name then v else rest

-- `r.Cookie`: `none` is `http.ErrNoCookie`.
abbrev pub get_cookie : String → List (String × String) → Option String
get_cookie name [] = none
get_cookie name ((n, v) ∷ cs) = let rest = get_cookie name cs in if n == name then some v else rest

-- `w.Header().Set`, before the response is written: a later `Set` of the name has its way.
abbrev pub has_header : String → List (String × String) → Bool
has_header name [] = Bool.false
has_header name ((n, v) ∷ hs) =
    let rest = has_header name hs in if n == name then Bool.true else rest

abbrev pub set_header : String → String → Response → Response
set_header name value r =
    if has_header name r.headers then r else record r { headers = (name, value) ∷ r.headers }

-- `writeJSON`, `writeJSONError`.
abbrev pub write_json : ℕ → Json → Response
write_json status value = record {
  status = status;
  headers = ("Content-Type", "application/json") ∷ [];
  cookies = [];
  content = json value;
}

abbrev pub error_json : String → Json
error_json message = obj (field "error" (str message) end)

abbrev pub write_json_error : ℕ → String → Response
write_json_error status message = write_json status (error_json message)

-- A response without a body: `w.WriteHeader`.
abbrev pub write_header : ℕ → Response
write_header status = record { status = status; headers = []; cookies = []; content = no_content }

-- The response to what a service returns.
unfoldable pub respond :
    {A : Type 0} → (A → Response) → (Error → Response) → Result A × World → Response × World
respond good bad (ok a, w) = (good a, w)
respond good bad (err e, w) = (bad e, w)

abbrev pub unauthorized : Response
unauthorized = write_json_error 401 "unauthorized"

-- `authClaimsFromContext`, and what each handler that calls it does without claims.
unfoldable pub with_claims :
    {S : Type 0} → Option Claims → (Claims → S → Response × S) → S → Response × S
with_claims none handle s = (unauthorized, s)
with_claims (some c) handle s = handle c s

-- `json.NewDecoder(r.Body).Decode`, and what each handler that calls it does where it fails.
unfoldable pub with_body :
    {A : Type 0} → Option A → (A → World → Response × World) → World → Response × World
with_body none handle w = (write_json_error 400 "invalid JSON body", w)
with_body (some a) handle w = handle a w
