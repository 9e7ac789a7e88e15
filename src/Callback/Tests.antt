-- ===== src/Callback/Tests.antt =====
-- A delivered login at a concrete request.
use zca_desktop.Common.{
  ◌≡◌, refl, some, ◌∷◌, ◌++◌, codes, Text, is_whitespace, to_ascii_lowercase, starts_with,
  split_first, split_by, drop_while, drop_end, trim_text, same_text, select,
}
use zca_desktop.Callback.{
  CallbackPayload, oauth, base_url_of, ParsedRequest, Outcome, trim_slashes, split_at_text, lines,
  words, normalize_base_url, origin_from_base_url, origin_allowed, header_origin, param_in,
  query_param, parse_magic_link, parse_oauth, parse_callback_path, parse_request, answer_get,
  answer, handle_connection,
}
use zca_desktop.Callback.Origins.{ComesFrom, delivered-origin}

abbrev raw : Text
raw =
    codes "GET /auth/oauth/callback?code=x&baseUrl=http://h HTTP/1.1"
    ++ 13 ∷ 10 ∷ codes "origin: http://h"

abbrev payload : CallbackPayload
payload = oauth (codes "x") (codes "http://h")

abbrev outcome : Outcome
outcome = record { event = some payload; status = 200; cors_origin = some (codes "http://h") }

handled : handle_connection (λ v. some v) raw ≡ some outcome
unfolding handle_connection parse_request lines split_by words select is_whitespace header_origin
    split_first same_text to_ascii_lowercase trim_slashes drop_end drop_while trim_text
    parse_callback_path parse_oauth parse_magic_link query_param param_in normalize_base_url
    starts_with answer answer_get origin_allowed origin_from_base_url split_at_text base_url_of
handled = refl

delivered-origin_example :
    (request : ParsedRequest) × (parse_request (λ v. some v) raw ≡ some request)
    × (request.method ≡ codes "GET")
    × (request.payload ≡ some payload)
    × (outcome.status ≡ 200)
    × ComesFrom request.origin (base_url_of payload)
delivered-origin_example = delivered-origin (λ v. some v) raw outcome payload handled refl
