-- ===== src/Cloud.antt =====
-- The client of the cloud server (crates/zca-cloud-client/src/lib.rs), as requests and what is made
-- of the responses. Texts are code points; `http` sends a request, `parse` and `decimal` are
-- serde_json's and the formatter's.
pub mod Frames
pub mod Json
pub mod Tokens
pub mod Commands
pub mod Realtime
mod Tests
use zca_desktop.Common.{
  ℕ, String, Bool, true, false, not, ◌&&◌, ◌||◌, Option, none, some, List, [], ◌∷◌, ◌++◌,
  if◌then◌else◌, leb, or_else, Text, codes, starts_with, trim_text, byte_len, Result, ok, err,
  ◌>>=◌,
}
use zca_desktop.Redact.{Value}
use zca_desktop.Callback.{is_empty, trim_slashes}
use zca_desktop.Cloud.Json.{null, get, as_str, strings}

pub data CloudError : Type 0 where
  invalid_base_url : CloudError
  transport : Text → CloudError
  status : ℕ → Text → CloudError
  decode : Text → CloudError

pub record CloudClient : Type 0 where
  pub base_url : Text
  pub device_token : Option Text

unfoldable pub validate_base : Text → Result CloudError Text
validate_base base_url =
    let base = trim_slashes (trim_text base_url) in
    if starts_with (codes "http://") base || starts_with (codes "https://") base
    then ok base
    else err CloudError.invalid_base_url

unfoldable pub ensure_leading_slash : Text → Text
ensure_leading_slash path = if starts_with (codes "/") path then path else codes "/" ++ path

unfoldable pub new_client : Text → Result CloudError CloudClient
new_client base_url =
    validate_base base_url >>= λ base. ok (record { base_url = base; device_token = none })

unfoldable pub with_token : Text → Text → Result CloudError CloudClient
with_token base_url token =
    new_client base_url >>= λ client. ok (record client { device_token = some token })

unfoldable pub url : CloudClient → Text → Text
url client path = client.base_url ++ ensure_leading_slash path

pub data Method : Type 0 where
  get_method post_method delete_method : Method

pub data Body : Type 0 where
  no_body : Body
  json_body : Value → Body
  raw_body : List ℕ → Body

-- A call of the contract, before it has a server.
pub record Call : Type 0 where
  pub method : Method
  pub path : Text
  pub body : Body

-- A request; `bearer` is the token of its Authorization header.
pub record Request : Type 0 where
  pub method : Method
  pub target : Text
  pub bearer : Option Text
  pub body : Body

unfoldable pub request_of : CloudClient → Call → Request
request_of client call = record {
  method = call.method;
  target = url client call.path;
  bearer = client.device_token;
  body = call.body;
}

-- A response; its body may fail to arrive.
pub record Response : Type 0 where
  pub code : ℕ
  pub text : Result Text Text

unfoldable pub is_success : ℕ → Bool
is_success code = leb 200 code && leb code 299

abbrev pub get_call : Text → Call
get_call path = record { method = get_method; path = path; body = no_body }

abbrev pub post_call : Text → Value → Call
post_call path body = record { method = post_method; path = path; body = json_body body }

abbrev pub post_empty_call : Text → Call
post_empty_call path = record { method = post_method; path = path; body = no_body }

abbrev pub delete_call : Text → Call
delete_call path = record { method = delete_method; path = path; body = no_body }

abbrev pub post_bytes_call : Text → List ℕ → Call
post_bytes_call path bytes = record { method = post_method; path = path; body = raw_body bytes }

-- The endpoints that the client names.
abbrev pub health_call : Call
health_call = get_call (codes "/health")

abbrev pub request_magic_link_call : Text → Call
request_magic_link_call email =
    post_call (codes "/api/v1/auth/magic-link/request") (strings (("email", some email) ∷ []))

abbrev pub oauth_providers_call : Call
oauth_providers_call = get_call (codes "/api/v1/auth/oauth/providers")

abbrev pub verify_magic_link_call : Text → Text → Text → Option Text → Call
verify_magic_link_call email token device_name recovery_key =
    post_call (codes "/api/v1/auth/magic-link/verify") (
      strings (
        ("email", some email)
        ∷ ("token", some token)
        ∷ ("deviceName", some device_name)
        ∷ ("recoveryKey", recovery_key)
        ∷ []))

abbrev pub verify_oauth_desktop_code_call : Text → Call
verify_oauth_desktop_code_call code =
    post_call (codes "/api/v1/auth/oauth/device/verify") (strings (("code", some code) ∷ []))

abbrev pub list_accounts_call : Call
list_accounts_call = get_call (codes "/api/v1/accounts")

module _ (parse : Text → Result Text Value) (decimal : ℕ → Text) where
  -- The text under a key, if there is one.
  unfoldable pub str_at : String → Value → Option Text
  str_at key value = elim (get (codes key) value) [ none ↦ none | some v ↦ as_str v ]

  -- What a refusal says: its `message`, else its `error`, unless that is blank.
  unfoldable pub message_in : Text → Option Text
  message_in body = elim (parse body) [
    | err e ↦ none
    | ok value ↦ elim (or_else (str_at "message" value) (str_at "error" value)) [
      | none ↦ none
      | some message ↦ if is_empty (trim_text message) then none else some message
    ]
  ]

  unfoldable pub refusal : ℕ → Text → CloudError
  refusal code body = elim (message_in body) [
    | some message ↦ status code message
    | none ↦ status code (codes "body_len=" ++ decimal (byte_len body))
  ]

  unfoldable pub read_json : Response → Result CloudError Value
  read_json response =
      if not (is_success response.code)
      then elim response.text [
        | ok body ↦ err (refusal response.code body)
        | err e ↦ err (refusal response.code [])
      ]
      else elim response.text [
        | err e ↦ err (transport e)
        | ok body ↦
            if is_empty (trim_text body)
            then ok null
            else elim (parse body) [ ok value ↦ ok value | err e ↦ err (decode e) ]
      ]

  unfoldable pub send :
      (Request → Result Text Response) → CloudClient → Call → Result CloudError Value
  send http client call = elim (http (request_of client call)) [
    | err e ↦ err (transport e)
    | ok response ↦ read_json response
  ]
