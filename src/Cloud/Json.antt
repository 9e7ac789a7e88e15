-- ===== src/Cloud/Json.antt =====
-- JSON values (serde_json), as the client uses them: an object's keys are unique, so the first
-- field under a key is the field.
use zca_desktop.Common.{
  String, true, Option, none, some, List, [], ◌∷◌, if◌then◌else◌, Text, codes, ◌≡◌, ◌↔◌, refl,
  Equality, arith, same_text,
}
use zca_desktop.Redact.{Value, scalar, string, object, Fields, no_fields, field}

abbrev pub null : Value
null = scalar (codes "null")

unfoldable pub field_at : Text → Fields → Option Value
field_at key no_fields = none
field_at key (field k v rest) =
    let later = field_at key rest in if same_text k key then some v else later

-- `Value::get`, `as_str` and, on a key that is there, `Map::insert`.
unfoldable pub get : Text → Value → Option Value
get key (object fs) = field_at key fs
get key _ = none

unfoldable pub as_str : Value → Option Text
as_str (string s) = some s
as_str _ = none

unfoldable pub put_field : Text → Value → Fields → Fields
put_field key v no_fields = no_fields
put_field key v (field k w rest) =
    let later = put_field key v rest in if same_text k key then field k v rest else field k w later

unfoldable pub replace : Text → Value → Value → Value
replace key v (object fs) = object (put_field key v fs)
replace key v value = value

-- An object of texts, `null` where there is none.
abbrev pub strings : List (String × Option Text) → Value
strings entries = object (fields entries)
  where
    fields : List (String × Option Text) → Fields
    fields [] = no_fields
    fields ((k, none) ∷ rest) = field (codes k) null (fields rest)
    fields ((k, some s) ∷ rest) = field (codes k) (string s) (fields rest)

pub same_text_iff : (s t : Text) → (same_text s t ≡ true) ↔ (s ≡ t)
unfolding same_text
same_text_iff [] [] = (λ h. refl, λ h. refl)
same_text_iff [] (d ∷ t) = (λ h. cc, λ h. cc)
same_text_iff (c ∷ s) [] = (λ h. cc, λ h. cc)
same_text_iff (c ∷ s) (d ∷ t) = ground (arith, same_text_iff s t)

instance abbrev pub text_list_equality : Equality Text
text_list_equality = record { equal = same_text; equal_iff = same_text_iff }
