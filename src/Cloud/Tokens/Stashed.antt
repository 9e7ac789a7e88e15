-- ===== src/Cloud/Tokens/Stashed.antt =====
-- What the webview gets of a device token, and what the sentinel stands for afterwards.
use zca_desktop.Common.{
  ℕ, ◌≡◌, refl, sym, ap, ◌∙◌, String, Option, some, List, Text, codes, trim_text, same_text, ok,
  ==_refl, arith, Result-cases, Option-cases, Bool-cases, inl, inr, ok-injective, subst, drop_while,
  drop_end, is_whitespace,
}
use zca_desktop.Common.Map.{get-put}
use zca_desktop.Redact.{Value, string, object, array, scalar, Fields, no_fields, field}
use zca_desktop.Cloud.{CloudError, validate_base, new_client, with_token}
use zca_desktop.Cloud.Json.{text_list_equality, field_at, get, as_str, put_field, replace}
use zca_desktop.Cloud.Tokens.{
  keychain_sentinel, Keyring, normalized_base_url, get_secret, set_secret, save_cloud_device_token,
  stored_token, load_cloud_device_token, resolve_device_token, authed_client, device_token_in,
  redacted, stash_token_and_redact,
}

field_at-put_field :
    (key : Text) (v w : Value) (fs : Fields)
    → field_at key fs ≡ some w
    → field_at key (put_field key v fs) ≡ some v
unfolding field_at put_field
field_at-put_field key v w no_fields h = absurd (cc h)
field_at-put_field key v w (field k u fs) h = elim (Bool-cases (same_text k key)) [
  | inl same ↦ rw (put_field, same, field_at, same) refl
  | inr other ↦ ground (arith, other, field_at-put_field key v w fs)
]

get-replace :
    (key : Text) (v w : Value) (value : Value)
    → get key value ≡ some w
    → get key (replace key v value) ≡ some v
unfolding get replace
get-replace key v w (object fs) h = field_at-put_field key v w fs h
get-replace key v w (string s) h = absurd (cc h)
get-replace key v w (array vs) h = absurd (cc h)
get-replace key v w (scalar s) h = absurd (cc h)

validate-normalized :
    (base_url base : Text)
    → normalized_base_url base_url ≡ ok base
    → validate_base base_url ≡ ok base
unfolding normalized_base_url validate_base
validate-normalized base_url base h = ground (arith, h)

redacted_lem :
    (resp : Value) (token : Text)
    → device_token_in resp ≡ some token
    → device_token_in (redacted resp) ≡ some keychain_sentinel
unfolding device_token_in redacted as_str
redacted_lem resp token h = elim (Option-cases (get (codes "deviceToken") resp)) [
  | inl gone ↦ absurd (cc (rw (device_token_in, gone) at h))
  | inr (v, there) ↦
      rw
        (
          device_token_in,
          redacted,
          get-replace (codes "deviceToken") (string keychain_sentinel) v resp there,
        )
        refl
]

module _ (to_vec : Text → Option (List ℕ)) (from_slice : List ℕ → Option Text) where
  -- The token loads under every spelling of the base URL.
  load-save :
      (base_url other base token : Text) (bytes : List ℕ) (k k' : Keyring)
      → normalized_base_url base_url ≡ ok base
      → normalized_base_url other ≡ ok base
      → to_vec token ≡ some bytes
      → from_slice bytes ≡ some token
      → save_cloud_device_token to_vec from_slice base_url token k ≡ ok k'
      → load_cloud_device_token to_vec from_slice other k' ≡ ok (some token)
  unfolding save_cloud_device_token load_cloud_device_token set_secret get_secret stored_token
  load-save base_url other base token bytes k k' e e' into from h = elim (Bool-cases k.locked) [
    | inl locked ↦ absurd (cc (rw (save_cloud_device_token, e, into, set_secret, locked) at h))
    | inr open_keyring ↦
        subst (λ q. load_cloud_device_token to_vec from_slice other q ≡ ok (some token))
          (ok-injective (rw (save_cloud_device_token, e, into, set_secret, open_keyring) at h))
          (rw
            (
              load_cloud_device_token,
              e',
              get_secret,
              get-put base base bytes k.entries,
              ==_refl base,
            )
            (rw (stored_token, from) refl))
  ]

  sentinel_client :
      (say : CloudError → String) (other base token : Text) (k : Keyring)
      → validate_base other ≡ ok base
      → load_cloud_device_token to_vec from_slice other k ≡ ok (some token)
      → authed_client to_vec from_slice say other keychain_sentinel k
        ≡ ok (record { base_url = base; device_token = some token })
  unfolding authed_client resolve_device_token with_token new_client trim_text drop_while drop_end
      is_whitespace same_text
  sentinel_client say other base token k valid loads =
      rw (authed_client, resolve_device_token, loads, with_token, new_client, valid) refl

  -- `base_url` and `other` are spellings of one base URL. Once a login has answered with a token, the
  -- webview holds the sentinel in its place, and the sentinel, under either spelling, makes a client
  -- of that base URL with that token.
  pub stash-authed_client :
      (say : CloudError → String) (base_url other base token : Text) (bytes : List ℕ)
      (resp shown : Value) (k k' : Keyring)
      → normalized_base_url base_url ≡ ok base
      → normalized_base_url other ≡ ok base
      → to_vec token ≡ some bytes
      → from_slice bytes ≡ some token
      → device_token_in resp ≡ some token
      → stash_token_and_redact to_vec from_slice base_url resp k ≡ ok (shown, k')
      → (device_token_in shown ≡ some keychain_sentinel)
        × (authed_client to_vec from_slice say other keychain_sentinel k'
            ≡ ok (record { base_url = base; device_token = some token }))
  unfolding stash_token_and_redact
  stash-authed_client say base_url other base token bytes resp shown k k' e e' into from given h =
      elim (Result-cases (save_cloud_device_token to_vec from_slice base_url token k)) [
        | inr (x, fails) ↦ absurd (cc (rw (stash_token_and_redact, given, fails) at h))
        | inl (k1, saved) ↦
            let w = ok-injective (rw (stash_token_and_redact, given, saved) at h) in
            (
              ap (λ q. device_token_in q.0) (sym w) ∙ redacted_lem resp token given,
              sentinel_client say other base token k' (validate-normalized other base e') (
                  subst (λ q. load_cloud_device_token to_vec from_slice other q ≡ ok (some token))
                    (ap (λ q. q.1) w)
                    (load-save base_url other base token bytes k k1 e e' into from saved)),
            )
      ]
