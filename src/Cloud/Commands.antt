-- ===== src/Cloud/Commands.antt =====
-- The commands for the webview (apps/desktop/src-tauri/src/command/cloud.rs): a call of the contract
-- by a client that carries the device token.
use zca_desktop.Common.{
  ℕ, ◌≡◌, refl, sym, ap, ◌∙◌, String, Option, none, some, List, [], ◌∷◌, ◌++◌, unwrap_or, Text,
  codes, starts_with, Result, ok, ◌>>=◌, arith, Result-cases, inl, inr, ok-injective,
}
use zca_desktop.Redact.{Value}
use zca_desktop.Cloud.{
  CloudError, CloudClient, validate_base, new_client, with_token, ensure_leading_slash, url, Call,
  Request, request_of, get_call, post_call, post_empty_call, delete_call, post_bytes_call,
}
use zca_desktop.Cloud.Json.{strings}
use zca_desktop.Cloud.Tokens.{Keyring, normalized_base_url, resolve_device_token, authed_client}

-- The commands that need a token, with their arguments. An id and a limit are as they print.
pub data CloudCommand : Type 0 where
  register_device : (name recovery_key : Text) → CloudCommand
  list_devices list_accounts start_account_qr : CloudCommand
  revoke_device : (device_id : Text) → CloudCommand
  get_qr_status : (flow_id : Text) → CloudCommand
  delete_account list_contacts : (account_id : Text) → CloudCommand
  list_conversations : (account_id : Option Text) → CloudCommand
  list_messages : (conversation_id : Text) → (limit : Option Text) → CloudCommand
  send_text : (account_id thread_id text : Text) → (thread_kind : Option Text) → CloudCommand
  send_sticker send_reaction send_file : (account_id : Text) → Value → CloudCommand
  init_file : Value → CloudCommand
  upload_file_blob : (file_id : Text) → List ℕ → CloudCommand
  start_realtime : CloudCommand
  download_file_blob : (file_id : Text) → CloudCommand

-- The path after `/api/v1/`, and the rest of the call.
abbrev pub under_api : (Text → Call) → Text → Call
under_api call path = call (codes "/api/v1/" ++ path)

unfoldable pub call_of : CloudCommand → Call
call_of (register_device name recovery_key) =
    under_api
      (λ p. post_call p (strings (("name", some name) ∷ ("recoveryKey", some recovery_key) ∷ [])))
      (codes "devices")
call_of list_devices = under_api get_call (codes "devices")
call_of list_accounts = under_api get_call (codes "accounts")
call_of start_account_qr = under_api post_empty_call (codes "accounts/qr/start")
call_of (revoke_device device_id) = under_api delete_call (codes "devices/" ++ device_id)
call_of (get_qr_status flow_id) = under_api get_call (codes "accounts/qr/" ++ flow_id)
call_of (delete_account account_id) = under_api delete_call (codes "accounts/" ++ account_id)
call_of (list_contacts account_id) =
    under_api get_call (codes "accounts/" ++ (account_id ++ codes "/contacts"))
call_of (list_conversations none) = under_api get_call (codes "conversations")
call_of (list_conversations (some account_id)) =
    under_api get_call (codes "conversations?accountId=" ++ account_id)
call_of (list_messages conversation_id limit) = under_api get_call (
    codes "conversations/"
    ++ (conversation_id ++ (codes "/messages?limit=" ++ unwrap_or limit (codes "100"))))
call_of (send_text account_id thread_id text thread_kind) =
    under_api
      (λ p. post_call p (
        strings
          (("threadId", some thread_id) ∷ ("text", some text) ∷ ("threadKind", thread_kind) ∷ [])))
      (codes "accounts/" ++ (account_id ++ codes "/send/text"))
call_of (send_sticker account_id payload) =
    under_api (λ p. post_call p payload)
      (codes "accounts/" ++ (account_id ++ codes "/send/sticker"))
call_of (send_reaction account_id payload) =
    under_api (λ p. post_call p payload)
      (codes "accounts/" ++ (account_id ++ codes "/send/reaction"))
call_of (send_file account_id payload) =
    under_api (λ p. post_call p payload) (codes "accounts/" ++ (account_id ++ codes "/send/file"))
call_of (init_file payload) = under_api (λ p. post_call p payload) (codes "files/init")
call_of (upload_file_blob file_id bytes) =
    under_api (λ p. post_bytes_call p bytes) (codes "files/" ++ (file_id ++ codes "/blob"))
call_of start_realtime = under_api get_call (codes "realtime")
call_of (download_file_blob file_id) =
    under_api get_call (codes "files/" ++ (file_id ++ codes "/blob"))

-- The path of a command's call is under `/api/v1/`.
call_of-under_api :
    (command : CloudCommand) → (rest : Text) × ((call_of command).path ≡ codes "/api/v1/" ++ rest)
unfolding call_of
call_of-under_api (register_device name recovery_key) = (_, refl)
call_of-under_api list_devices = (_, refl)
call_of-under_api list_accounts = (_, refl)
call_of-under_api start_account_qr = (_, refl)
call_of-under_api (revoke_device device_id) = (_, refl)
call_of-under_api (get_qr_status flow_id) = (_, refl)
call_of-under_api (delete_account account_id) = (_, refl)
call_of-under_api (list_contacts account_id) = (_, refl)
call_of-under_api (list_conversations none) = (_, refl)
call_of-under_api (list_conversations (some account_id)) = (_, refl)
call_of-under_api (list_messages conversation_id limit) = (_, refl)
call_of-under_api (send_text account_id thread_id text thread_kind) = (_, refl)
call_of-under_api (send_sticker account_id payload) = (_, refl)
call_of-under_api (send_reaction account_id payload) = (_, refl)
call_of-under_api (send_file account_id payload) = (_, refl)
call_of-under_api (init_file payload) = (_, refl)
call_of-under_api (upload_file_blob file_id bytes) = (_, refl)
call_of-under_api start_realtime = (_, refl)
call_of-under_api (download_file_blob file_id) = (_, refl)

normalized-validate :
    (base_url base : Text)
    → validate_base base_url ≡ ok base
    → normalized_base_url base_url ≡ ok base
unfolding normalized_base_url validate_base
normalized-validate base_url base h = ground (arith, h)

slashed :
    (client : CloudClient) (path rest : Text)
    → path ≡ codes "/api/v1/" ++ rest
    → url client path ≡ client.base_url ++ (codes "/api/v1/" ++ rest)
unfolding url ensure_leading_slash starts_with
slashed client path rest h = rw h refl

module _ (to_vec : Text → Option (List ℕ)) (from_slice : List ℕ → Option Text)
    (say : CloudError → String) where
  -- A command's request, before it is sent.
  unfoldable pub command_request : Text → Text → Keyring → CloudCommand → Result String Request
  command_request base_url device_token k command =
      authed_client to_vec from_slice say base_url device_token k >>= λ client.
      ok (request_of client (call_of command))

  -- A command's request goes to the API of the base URL that it was given, and carries the token that
  -- the given one resolves to under that base URL.
  pub command_request-target :
      (base_url device_token : Text) (k : Keyring) (command : CloudCommand) (request : Request)
      → command_request base_url device_token k command ≡ ok request
      → (base rest token : Text) × (normalized_base_url base_url ≡ ok base)
        × (request.target ≡ base ++ (codes "/api/v1/" ++ rest))
        × (resolve_device_token to_vec from_slice base_url device_token k ≡ ok token)
        × (request.bearer ≡ some token)
  unfolding command_request authed_client with_token new_client request_of
  command_request-target base_url device_token k command request h =
      elim (Result-cases (resolve_device_token to_vec from_slice base_url device_token k)) [
        | inr (x, fails) ↦ absurd (cc (rw (command_request, authed_client, fails) at h))
        | inl (token, resolved) ↦ elim (Result-cases (validate_base base_url)) [
          | inr (x, fails) ↦ absurd (
              cc
                (rw (command_request, authed_client, resolved, with_token, new_client, fails) at h))
          | inl (base, valid) ↦
              let client : CloudClient = record { base_url = base; device_token = some token } in
              let e = ok-injective (
                rw (command_request, authed_client, resolved, with_token, new_client, valid) at
                  h) in
              let (rest, under) = call_of-under_api command in
              (
                base,
                rest,
                token,
                normalized-validate base_url base valid,
                ap (λ r. r.target) (sym e) ∙ slashed client (call_of command).path rest under,
                resolved,
                ap (λ r. r.bearer) (sym e),
              )
        ]
      ]
