-- ===== src/Redact/Tests.antt =====
-- The theorems on redaction at concrete texts.
use zca_desktop.Common.{
  ℕ, ◌≡◌, refl, true, [], ◌∷◌, any, codes, Text, to_ascii_lowercase, starts_with, utf8_len,
}
use zca_desktop.Redact.{
  Value, string, object, no_fields, field, contains, is_secret_key, value_text_len, redact_json,
}
use zca_desktop.Redact.Hiding.{objects, none_left, secret_field, redact-Alike}

abbrev strokes : ℕ → Text
strokes n = n ∷ []

abbrev login : Text → Value
login secret = object (field (codes "Token") (string secret) no_fields)

token_is_secret : is_secret_key (codes "Token") ≡ true
unfolding is_secret_key any contains starts_with to_ascii_lowercase
token_is_secret = refl

same_length : value_text_len (string (codes "abc")) ≡ value_text_len (string (codes "xyz"))
unfolding value_text_len utf8_len
same_length = refl

redact-Alike_example :
    redact_json strokes (login (codes "abc")) ≡ redact_json strokes (login (codes "xyz"))
redact-Alike_example =
    redact-Alike strokes (login (codes "abc")) (login (codes "xyz"))
      (objects (secret_field (codes "Token") token_is_secret same_length none_left))
