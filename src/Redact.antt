-- ===== src/Redact.antt =====
-- The redaction of secrets in logs (apps/desktop/src-tauri/src/config/redact.rs). Texts are their
-- code points; `decimal` writes a number, and a JSON scalar that is no text is what it prints.
pub mod Hiding
pub mod Pairs
mod Tests
use zca_desktop.Common.{
  ℕ, ◌+◌, String, Bool, true, false, not, ◌&&◌, ◌||◌, List, [], ◌∷◌, ◌++◌, if◌then◌else◌, leb, eqb,
  any, map, Text, starts_with, to_ascii_lowercase, split_first, split, join, drop_while, drop_end,
  trim_text, codes, byte_len, is_whitespace, Option, none, some, map_option,
}

mutual
  pub data Value : Type 0 where
    scalar : (printed : Text) → Value
    string : Text → Value
    array : Items → Value
    object : Fields → Value

  pub data Items : Type 0 where
    no_items : Items
    item : Value → Items → Items

  pub data Fields : Type 0 where
    no_fields : Fields
    field : (key : Text) → Value → Fields → Fields

abbrev pub secret_key_markers : List String
secret_key_markers =
    "imei" ∷ "cookie" ∷ "zpw_enk" ∷ "enk" ∷ "secret" ∷ "secret_key" ∷ "secretkey" ∷ "token"
    ∷ "zpsid" ∷ "zpw_sek" ∷ "session" ∷ "password" ∷ []

-- `trim_matches('"')`
unfoldable pub trim_quotes : Text → Text
trim_quotes s = drop_end (eqb 34) (drop_while (eqb 34) s)

-- `str::contains`
unfoldable pub contains : Text → Text → Bool
contains pattern [] = starts_with pattern []
contains pattern (c ∷ s) = starts_with pattern (c ∷ s) || contains pattern s

unfoldable pub is_secret_key : Text → Bool
is_secret_key key =
    let k = map to_ascii_lowercase key in any (λ m. contains (codes m) k) secret_key_markers

unfoldable pub count_items : Items → ℕ
count_items no_items = 0
count_items (item v vs) = 1 + count_items vs

unfoldable pub count_fields : Fields → ℕ
count_fields no_fields = 0
count_fields (field k v fs) = 1 + count_fields fs

unfoldable pub value_text_len : Value → ℕ
value_text_len (scalar printed) = byte_len printed
value_text_len (string s) = byte_len s
value_text_len (array vs) = count_items vs
value_text_len (object fs) = count_fields fs

module _ (decimal : ℕ → Text) where
  unfoldable pub mask : ℕ → Text
  mask value_len = codes "***redacted(" ++ decimal value_len ++ codes ")***"

  unfoldable mutual
    pub redact_json : Value → Value
    redact_json (scalar printed) = scalar printed
    redact_json (string s) = string s
    redact_json (array vs) = array (redact_items vs)
    redact_json (object fs) = object (redact_fields fs)

    pub redact_items : Items → Items
    redact_items no_items = no_items
    redact_items (item v vs) = item (redact_json v) (redact_items vs)

    pub redact_fields : Fields → Fields
    redact_fields no_fields = no_fields
    redact_fields (field k v fs) =
        let shown = redact_json v in
        let rest = redact_fields fs in
        if is_secret_key k
        then field k (string (mask (value_text_len v))) rest
        else field k shown rest

  -- The segment masked at its first separator, if the key before it is secret.
  unfoldable pub masked_at : ℕ → Text → Option Text
  masked_at sep segment = elim (split_first sep segment) [
    | none ↦ none
    | some (key_part, value) ↦
        if is_secret_key (trim_text (trim_quotes (trim_text key_part)))
        then some (key_part ++ sep ∷ mask (byte_len (trim_text value)))
        else none
  ]

  -- At `=`, else at `:`.
  unfoldable pub mask_pair : Text → Text
  mask_pair segment = elim (masked_at 61 segment) [
    | some masked ↦ masked
    | none ↦ elim (masked_at 58 segment) [ some masked ↦ masked | none ↦ segment ]
  ]

  unfoldable pub redact_pairs : Text → Text
  redact_pairs raw = join 59 (map mask_pair (split 59 raw))

  -- `from_str` and `to_string` are serde_json's.
  unfoldable pub redact_str : (Text → Option Value) → (Value → Text) → Text → Text
  redact_str from_str to_string raw = elim (from_str raw) [
    | some value ↦ to_string (redact_json value)
    | none ↦ redact_pairs raw
  ]
