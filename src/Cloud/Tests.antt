-- ===== src/Cloud/Tests.antt =====
-- The theorems on the cloud client at concrete inputs: JSON texts are left as they are.
use zca_desktop.Common.{
  String, ◌≡◌, refl, false, none, some, [], ◌∷◌, ◌++◌, Text, codes, map, ok, err, is_whitespace,
  drop_while, drop_end, starts_with, same_text, trim_text,
}
use zca_desktop.Common.Map
use zca_desktop.Redact.{Value, string, no_fields, field, object}
use zca_desktop.Callback.{trim_slashes}
use zca_desktop.Cloud.{
  CloudError, CloudClient, validate_base, new_client, with_token, request_of, Request,
}
use zca_desktop.Cloud.Json.{field_at, get, as_str, put_field, replace}
use zca_desktop.Cloud.Frames.{split_frame, drain_sse_events}
use zca_desktop.Cloud.Frames.Chunks.{concat, drain_finishes}
use zca_desktop.Cloud.Tokens.{
  keychain_sentinel, Keyring, normalized_base_url, set_secret, save_cloud_device_token,
  stored_token, get_secret, load_cloud_device_token, resolve_device_token, authed_client,
  device_token_in, redacted, stash_token_and_redact,
}
use zca_desktop.Cloud.Tokens.Stashed.{stash-authed_client}
use zca_desktop.Cloud.Commands.{revoke_device, call_of, command_request, command_request-target}
use zca_desktop.Cloud.Realtime.{
  connected, event, Stream, cloud_start_realtime, arrived, farewell, start_realtime-events,
}

-- Two frames, and a third that is not complete, cut within a line and within the end of a frame.
abbrev opened : Stream
opened = record {
  code = 200;
  items =
      ok (codes "data: a\n")
      ∷ ok (codes "\ndata")
      ∷ ok (codes ": b\n\ndata: c")
      ∷ err (codes "reset")
      ∷ [];
}

drain_finishes_example :
    split_frame (drain_sse_events {Json = Text} some (codes "data: a\n\ndata: c")).1 ≡ none
drain_finishes_example = drain_finishes {Json = Text} some (codes "data: a\n\ndata: c")

start_realtime-events_example :
    cloud_start_realtime {Json = Text} some (λ bytes. bytes) (ok opened)
    ≡ connected
      ∷ (map event
            (drain_sse_events {Json = Text} some
              (concat (arrived {Json = Text} some (λ b. b) opened.items))).0
          ++ farewell some (λ b. b) opened.items)
unfolding zca_desktop.Cloud.is_success
start_realtime-events_example =
    start_realtime-events {Json = Text} some (λ bytes. bytes) opened refl

abbrev no_entries : Keyring
no_entries = record { entries = []; locked = false }

abbrev answer : Value
answer = object (field (codes "deviceToken") (string (codes "t")) no_fields)

abbrev shown : Value
shown = object (field (codes "deviceToken") (string keychain_sentinel) no_fields)

abbrev kept : Keyring
kept = record { entries = (codes "http://a", codes "t") ∷ []; locked = false }

spelling : normalized_base_url (codes "http://a/") ≡ ok (codes "http://a")
unfolding normalized_base_url trim_slashes trim_text drop_while drop_end is_whitespace starts_with
spelling = refl

plain : normalized_base_url (codes "http://a") ≡ ok (codes "http://a")
unfolding normalized_base_url trim_slashes trim_text drop_while drop_end is_whitespace starts_with
plain = refl

given : device_token_in answer ≡ some (codes "t")
unfolding device_token_in get field_at as_str same_text
given = refl

stashed : stash_token_and_redact some some (codes "http://a/") answer no_entries ≡ ok (shown, kept)
unfolding stash_token_and_redact device_token_in get field_at as_str same_text redacted replace
    put_field save_cloud_device_token normalized_base_url trim_slashes trim_text drop_while drop_end
    is_whitespace starts_with set_secret Map.put
stashed = refl

abbrev say : CloudError → String
say e = "refused"

stash-authed_client_example :
    (device_token_in shown ≡ some keychain_sentinel)
    × (authed_client some some say (codes "http://a") keychain_sentinel kept
        ≡ ok (record { base_url = codes "http://a"; device_token = some (codes "t") }))
stash-authed_client_example =
    stash-authed_client some some say (codes "http://a/") (codes "http://a") (codes "http://a")
      (codes "t") (codes "t") answer shown no_entries kept spelling plain refl refl given stashed

abbrev client : CloudClient
client = record { base_url = codes "http://a"; device_token = some (codes "t") }

abbrev request : Request
request = request_of client (call_of (revoke_device (codes "7")))

requested :
    command_request some some say
      (codes "http://a")
      keychain_sentinel
      kept
      (revoke_device (codes "7"))
    ≡ ok request
unfolding command_request authed_client resolve_device_token load_cloud_device_token get_secret
    stored_token normalized_base_url with_token new_client validate_base trim_slashes trim_text
    drop_while drop_end is_whitespace starts_with same_text Map.get
requested = refl

command_request-target_example :
    (base : Text) × (rest : Text) × (token : Text) × (normalized_base_url (codes "http://a")
      ≡ ok base)
    × (request.target ≡ base ++ (codes "/api/v1/" ++ rest))
    × (resolve_device_token some some (codes "http://a") keychain_sentinel kept ≡ ok token)
    × (request.bearer ≡ some token)
command_request-target_example =
    command_request-target some some say (codes "http://a") keychain_sentinel kept
      (revoke_device (codes "7")) request requested
