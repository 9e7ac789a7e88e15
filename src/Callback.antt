-- ===== src/Callback.antt =====
-- The loopback listener for login links (apps/desktop/src-tauri/src/command/magic_link_callback.rs):
-- from a request's text to the event for the app and the response. Texts are code points. `decode`
-- is the urlencoding crate's, none where it fails; a failure to emit or to write ends the request.
pub mod Origins
mod Tests
use zca_desktop.Common.{
  ℕ, String, Bool, true, false, not, ◌&&◌, ◌||◌, Option, none, some, List, [], ◌∷◌, ◌++◌,
  if◌then◌else◌, eqb, map, select, unwrap_or, codes, is_whitespace, Text, to_ascii_lowercase,
  starts_with, split_first, split_by, split, drop_end, trim_text, same_text, drop, length,
}

pub data CallbackPayload : Type 0 where
  magic_link : (email token base_url : Text) → CallbackPayload
  oauth : (code base_url : Text) → CallbackPayload

unfoldable pub base_url_of : CallbackPayload → Text
base_url_of (magic_link email token base_url) = base_url
base_url_of (oauth code base_url) = base_url

pub record ParsedRequest : Type 0 where
  pub method : Text
  pub origin : Option Text
  pub payload : Option CallbackPayload

abbrev pub is_empty : Text → Bool
is_empty [] = true
is_empty (c ∷ s) = false

abbrev is_slash : ℕ → Bool
is_slash c = eqb c 47

-- `trim_end_matches('/')`
unfoldable pub trim_slashes : Text → Text
trim_slashes s = drop_end is_slash s

-- `split_once` at a text.
unfoldable pub split_at_text : Text → Text → Option (Text × Text)
split_at_text pattern [] = none
split_at_text pattern (c ∷ s) =
    let rest = split_at_text pattern s in
    if starts_with pattern (c ∷ s)
    then some ([], drop (length pattern) (c ∷ s))
    else elim rest [ none ↦ none | some r ↦ some (c ∷ r.0, r.1) ]

abbrev pub first_part : List Text → Text
first_part [] = []
first_part (part ∷ parts) = part

infixl 5 ◌>>=◌
abbrev ◌>>=◌ : {A B : Type 0} → Option A → (A → Option B) → Option B
none >>= f = none
some a >>= f = f a

-- A line that ended in a line feed, without its carriage return.
abbrev strip_cr : Text → Text
strip_cr [] = []
strip_cr (c ∷ []) = if eqb c 13 then [] else c ∷ []
strip_cr (c ∷ d ∷ s) = c ∷ strip_cr (d ∷ s)

abbrev ended : List Text → List Text
ended [] = []
ended (last ∷ []) = if is_empty last then [] else last ∷ []
ended (line ∷ next ∷ more) = strip_cr line ∷ ended (next ∷ more)

-- `str::lines`
unfoldable pub lines : Text → List Text
lines s = ended (split 10 s)

-- `str::split_whitespace`
unfoldable pub words : Text → List Text
words s = select (λ w. not (is_empty w)) (split_by is_whitespace s)

unfoldable pub normalize_base_url : Text → Option Text
normalize_base_url input =
    let base = trim_slashes (trim_text input) in
    if starts_with (codes "http://") base || starts_with (codes "https://") base
    then some base
    else none

unfoldable pub origin_from_base_url : Text → Option Text
origin_from_base_url base_url = elim (split_at_text (codes "://") base_url) [
  | none ↦ none
  | some (scheme, rest) ↦
      let host = trim_slashes (first_part (split 47 rest)) in
      if is_empty scheme || is_empty host then none else some (scheme ++ codes "://" ++ host)
]

unfoldable pub origin_allowed : Option Text → Text → Bool
origin_allowed none base_url = false
origin_allowed (some given) base_url =
    let origin = trim_text given in
    if is_empty origin
    then false
    else same_text (trim_slashes origin) (unwrap_or (origin_from_base_url base_url) [])

-- The origin of the last header line that names one.
unfoldable pub header_origin : Option Text → List Text → Option Text
header_origin found [] = found
header_origin found (line ∷ rest) =
    let here : Option Text = elim (split_first 58 line) [
      | none ↦ found
      | some (key, value) ↦
          if same_text (map to_ascii_lowercase key) (codes "origin")
          then some (trim_slashes (trim_text value))
          else found
    ] in
    header_origin here rest

module _ (decode : Text → Option Text) where
  -- The first part of the query with the name whose value decodes.
  unfoldable pub param_in : Text → List Text → Option Text
  param_in name [] = none
  param_in name (part ∷ parts) =
      let rest = param_in name parts in
      elim (split_first 61 part) [
        | none ↦ rest
        | some (key, value) ↦
            if same_text key name
            then elim (decode value) [ none ↦ rest | some v ↦ some v ]
            else rest
      ]

  unfoldable pub query_param : Text → String → Option Text
  query_param query name = param_in (codes name) (split 38 query)

  unfoldable pub parse_magic_link : Text → Option CallbackPayload
  parse_magic_link query = do
    email ← query_param query "email"
    token ← query_param query "token"
    raw ← query_param query "baseUrl"
    base_url ← normalize_base_url raw
    (if is_empty (trim_text email) || is_empty (trim_text token)
        then none
        else some (magic_link (trim_text email) (trim_text token) base_url))

  unfoldable pub parse_oauth : Text → Option CallbackPayload
  parse_oauth query = do
    code ← query_param query "code"
    raw ← query_param query "baseUrl"
    base_url ← normalize_base_url raw
    (if is_empty (trim_text code) then none else some (oauth (trim_text code) base_url))

  unfoldable pub parse_callback_path : Text → Option CallbackPayload
  parse_callback_path path = split_first 63 path >>= λ r.
      if same_text r.0 (codes "/auth/magic-link/callback")
      then parse_magic_link r.1
      else if same_text r.0 (codes "/auth/oauth/callback")
      then parse_oauth r.1
      else none

  abbrev request_line : List Text → List Text → Option ParsedRequest
  request_line (method ∷ path ∷ more) headers = some (record {
    method = method;
    origin = header_origin none headers;
    payload = parse_callback_path path;
  })
  request_line _ headers = none

  unfoldable pub parse_request : Text → Option ParsedRequest
  parse_request raw = elim (lines raw) [
    | [] ↦ none
    | line ∷ headers ↦ request_line (words line) headers
  ]

-- What a request leads to: the event for the app, the status, and the origin that may read it.
pub record Outcome : Type 0 where
  pub event : Option CallbackPayload
  pub status : ℕ
  pub cors_origin : Option Text

abbrev refusal : ℕ → Outcome
refusal status = record { event = none; status = status; cors_origin = none }

unfoldable pub answer_get : Option Text → Option CallbackPayload → Outcome
answer_get origin none = refusal 404
answer_get origin (some payload) =
    if origin_allowed origin (base_url_of payload)
    then record { event = some payload; status = 200; cors_origin = origin }
    else refusal 403

unfoldable pub preflight_allowed : Option Text → Option CallbackPayload → Bool
preflight_allowed origin none = false
preflight_allowed origin (some payload) = origin_allowed origin (base_url_of payload)

unfoldable pub answer : ParsedRequest → Outcome
answer request =
    if same_text request.method (codes "OPTIONS")
    then if preflight_allowed request.origin request.payload
      then record { event = none; status = 204; cors_origin = request.origin }
      else refusal 403
    else if not (same_text request.method (codes "GET"))
    then refusal 405
    else answer_get request.origin request.payload

-- `handle_connection`: none for a request that is not parsed, which gets no response.
unfoldable pub handle_connection : (Text → Option Text) → Text → Option Outcome
handle_connection decode raw = elim (parse_request decode raw) [
  | none ↦ none
  | some request ↦ some (answer request)
]
