-- ===== src/Redact/Hiding.antt =====
-- What a redacted document (config/redact.rs) tells of the secrets: their lengths.
use zca_desktop.Common.{Text, ℕ, ◌≡◌, refl, ap, true, false}
use zca_desktop.Redact.{
  Value, scalar, string, array, object, Items, no_items, item, Fields, no_fields, field,
  is_secret_key, value_text_len, mask, redact_json, redact_items, redact_fields,
}

-- Two documents that differ only in the values under secret keys, where the lengths agree.
mutual
  pub data Alike : Value → Value → Type 0 where
    same_scalar : (printed : Text) → Alike (scalar printed) (scalar printed)
    same_string : (s : Text) → Alike (string s) (string s)
    arrays : {vs ws : Items} → AlikeItems vs ws → Alike (array vs) (array ws)
    objects : {fs gs : Fields} → AlikeFields fs gs → Alike (object fs) (object gs)

  pub data AlikeItems : Items → Items → Type 0 where
    no_more : AlikeItems no_items no_items
    items :
        {v w : Value} {vs ws : Items}
        → Alike v w
        → AlikeItems vs ws
        → AlikeItems (item v vs) (item w ws)

  pub data AlikeFields : Fields → Fields → Type 0 where
    none_left : AlikeFields no_fields no_fields
    open_field :
        (k : Text) {v w : Value} {fs gs : Fields}
        → is_secret_key k ≡ false
        → Alike v w
        → AlikeFields fs gs
        → AlikeFields (field k v fs) (field k w gs)
    secret_field :
        (k : Text) {v w : Value} {fs gs : Fields}
        → is_secret_key k ≡ true
        → value_text_len v ≡ value_text_len w
        → AlikeFields fs gs
        → AlikeFields (field k v fs) (field k w gs)

item_eq : {v w : Value} {vs ws : Items} → v ≡ w → vs ≡ ws → item v vs ≡ item w ws
item_eq p q = cc

field_eq : {k : Text} {v w : Value} {fs gs : Fields} → v ≡ w → fs ≡ gs → field k v fs ≡ field k w gs
field_eq p q = cc

module _ (decimal : ℕ → Text) where
  mutual
    unfolding redact_json redact_items redact_fields

    redact_json-Alike : {v w : Value} → Alike v w → redact_json decimal v ≡ redact_json decimal w
    redact_json-Alike (same_scalar p) = refl
    redact_json-Alike (same_string s) = refl
    redact_json-Alike (arrays h) = ap array (redact_items-AlikeItems h)
    redact_json-Alike (objects h) = ap object (redact_fields-AlikeFields h)

    redact_items-AlikeItems :
        {vs ws : Items} → AlikeItems vs ws → redact_items decimal vs ≡ redact_items decimal ws
    redact_items-AlikeItems no_more = refl
    redact_items-AlikeItems (items h k) = item_eq (redact_json-Alike h) (redact_items-AlikeItems k)

    redact_fields-AlikeFields :
        {fs gs : Fields} → AlikeFields fs gs → redact_fields decimal fs ≡ redact_fields decimal gs
    redact_fields-AlikeFields none_left = refl
    redact_fields-AlikeFields (open_field k plain h rest) =
        rw plain (field_eq (redact_json-Alike h) (redact_fields-AlikeFields rest))
    redact_fields-AlikeFields (secret_field k secret len rest) =
        rw secret
          (field_eq (ap (λ n. string (mask decimal n)) len) (redact_fields-AlikeFields rest))

-- Documents that differ only in the values under secret keys are redacted to the same document, when
-- the lengths that the masks tell agree.
pub redact-Alike :
    (decimal : ℕ → Text) (v w : Value) → Alike v w → redact_json decimal v ≡ redact_json decimal w
redact-Alike decimal v w h = redact_json-Alike decimal h
