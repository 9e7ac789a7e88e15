-- ===== src/Server/Realtime/Uploads.antt =====
-- Waiting for the URL of an uploaded file (`wait_for_upload_file_url` of zalo_host.rs), which a session
-- stores when it handles the event of the upload.
use Prim.Native.String
use zca_desktop.Common.{
  ℕ, zero, suc, ◌≡◌, ◌⊎◌, refl, ap, ◌∙◌, String, true, false, Option, none, some, Result, ok, err,
  if◌then◌else◌, ◌==◌, ==_refl, eq_of_==, sym, text_equality, Bool-cases, inl, inr,
}
use zca_desktop.Common.Map
use zca_desktop.Common.Map.{Map, get-put}
use zca_desktop.Server.Realtime.{HostedUploadEvent, upload}
use zca_desktop.Server.Realtime.Mirror.{is_blank}
use zca_desktop.Server.Realtime.Persisting.{Services}
use zca_desktop.Server.Realtime.Handling.{World, Context, upload_key, handle_hosted_realtime_event}

abbrev pub Urls : Type 0
Urls = Map String String

abbrev pub unknown_file_id : String
unknown_file_id = "__unknown_file_id__"

-- The entry of a key is taken out of the map; a blank URL is given up.
unfoldable pub take_under : String → Urls → Option String × Urls
take_under key urls = elim (Map.get key urls) [
  | none ↦ (none, urls)
  | some url ↦ (if is_blank url then none else some url, Map.remove key urls)
]

-- A round under the lock: the file's own entry, and else the one of no file.
unfoldable pub take_url : String → String → Urls → Option String × Urls
take_url key unknown_key urls =
    let own = take_under key urls in
    elim own.0 [ some url ↦ own | none ↦ take_under unknown_key own.1 ]

-- The rounds that are left; `meanwhile` is what the other tasks do during the sleep after a round.
unfoldable pub wait_rounds :
    ℕ → String → String → (ℕ → Urls → Urls) → Urls → Result String String × Urls
wait_rounds zero key unknown_key meanwhile urls =
    (err "timed out waiting for attachment upload file_url callback", urls)
wait_rounds (suc n) key unknown_key meanwhile urls =
    let (taken, rest) = take_url key unknown_key urls in
    elim taken [
      | some url ↦ (ok url, rest)
      | none ↦ wait_rounds n key unknown_key meanwhile (meanwhile n rest)
    ]

unfoldable pub wait_for_upload_file_url :
    Option String → String → (ℕ → Urls → Urls) → Urls → Result String String × Urls
wait_for_upload_file_url key_prefix file_id meanwhile urls =
    if is_blank file_id
    then (err "attachment upload returned empty file_id", urls)
    else elim key_prefix [
      | none ↦ (err "attachment upload file_url callback store is unavailable", urls)
      | some prefix ↦
          wait_rounds 150 (String.◌++◌ prefix (String.◌++◌ ":" file_id))
            (String.◌++◌ prefix (String.◌++◌ ":" unknown_file_id)) meanwhile urls
    ]

take_under-some :
    (key url : String) (urls : Urls)
    → Map.get key urls ≡ some url
    → is_blank url ≡ false
    → take_under key urls ≡ (some url, Map.remove key urls)
unfolding take_under
take_under-some key url urls there full = rw (take_under, there, full) refl

take_under-none :
    (key : String) (urls : Urls) → Map.get key urls ≡ none → take_under key urls ≡ (none, urls)
unfolding take_under
take_under-none key urls gone = rw (take_under, gone) refl

take_url-own :
    (key unknown_key url : String) (urls : Urls)
    → Map.get key urls ≡ some url
    → is_blank url ≡ false
    → (take_url key unknown_key urls).0 ≡ some url
unfolding take_url
take_url-own key unknown_key url urls there full =
    let e = take_under-some key url urls there full in rw (take_url, e, e) refl

take_url-else :
    (key unknown_key : String) (urls : Urls)
    → Map.get key urls ≡ none
    → take_url key unknown_key urls ≡ take_under unknown_key urls
unfolding take_url
take_url-else key unknown_key urls gone =
    let e = take_under-none key urls gone in rw (take_url, e, e) refl

-- An URL that is there is taken, under the file's key, or under the other while nothing is there for
-- the file.
take_url-there :
    (key unknown_key url : String) (urls : Urls) (k : String)
    → (k ≡ key) ⊎ (k ≡ unknown_key)
    → Map.get k urls ≡ some url
    → (k == key ≡ false → Map.get key urls ≡ none)
    → is_blank url ≡ false
    → (take_url key unknown_key urls).0 ≡ some url
take_url-there key unknown_key url urls k which there gone full = elim (Bool-cases (k == key)) [
  | inl same ↦
      take_url-own key unknown_key url urls
        (ap (λ q. Map.get q urls) (sym (eq_of_== k key same)) ∙ there) full
  | inr other ↦ elim which [
    | inl own ↦ absurd (cc (rw (own, ==_refl {A = String} key) at other))
    | inr unknown ↦
        ap (λ r. r.0)
          (take_url-else key unknown_key urls (gone other)
            ∙ take_under-some unknown_key url urls (ap (λ q. Map.get q urls) (sym unknown) ∙ there)
                full)
  ]
]

wait_rounds-ok :
    (n : ℕ) (key unknown_key url : String) (meanwhile : ℕ → Urls → Urls) (urls : Urls)
    → (take_url key unknown_key urls).0 ≡ some url
    → (wait_rounds (suc n) key unknown_key meanwhile urls).0 ≡ ok url
unfolding wait_rounds
wait_rounds-ok n key unknown_key url meanwhile urls h = rw (wait_rounds, h) refl

wait_rounds-again :
    (n : ℕ) (key unknown_key : String) (meanwhile : ℕ → Urls → Urls) (urls : Urls)
    → Map.get key urls ≡ none
    → Map.get unknown_key urls ≡ none
    → wait_rounds (suc n) key unknown_key meanwhile urls
      ≡ wait_rounds n key unknown_key meanwhile (meanwhile n urls)
unfolding wait_rounds
wait_rounds-again n key unknown_key meanwhile urls gone gone' =
    let e = take_url-else key unknown_key urls gone ∙ take_under-none unknown_key urls gone' in
    rw (wait_rounds, e, e) refl

-- The keys of a session's map, for a file that is waited for and for no file.
abbrev pub own_key : Services → Context → String → String
own_key o ctx file_id = String.◌++◌ (o.print ctx.account_id) (String.◌++◌ ":" file_id)

abbrev pub unknown_key_of : Services → Context → String
unknown_key_of o ctx = own_key o ctx unknown_file_id

upload_key-cases :
    (o : Services) (ctx : Context) (x : HostedUploadEvent) (file_id : String)
    → (x.file_id ≡ file_id) ⊎ (is_blank x.file_id ≡ true)
    → is_blank file_id ≡ false
    → (upload_key o ctx x.file_id ≡ own_key o ctx file_id)
      ⊎ (upload_key o ctx x.file_id ≡ unknown_key_of o ctx)
upload_key-cases o ctx x file_id (inl same) named = inl (rw (same, named) refl)
upload_key-cases o ctx x file_id (inr blank) named = inr (rw blank refl)

handle-upload :
    (o : Services) (ctx : Context) (x : HostedUploadEvent) (w : World)
    → is_blank x.file_url ≡ false
    → (handle_hosted_realtime_event o ctx (upload x) w).upload_file_urls
      ≡ Map.put (upload_key o ctx x.file_id) x.file_url w.upload_file_urls
unfolding handle_hosted_realtime_event
handle-upload o ctx x w full = rw (handle_hosted_realtime_event, full) refl

-- From `urls`, with so many rounds left, the rounds find nothing until so many are left at `later`.
pub data Sleeps (key unknown_key : String) (meanwhile : ℕ → Urls → Urls)
    : ℕ → Urls → ℕ → Urls → Type 0 where
  awake : {n : ℕ} {urls : Urls} → Sleeps key unknown_key meanwhile n urls n urls
  asleep :
      {n m : ℕ} {urls later : Urls}
      → Map.get key urls ≡ none
      → Map.get unknown_key urls ≡ none
      → Sleeps key unknown_key meanwhile n (meanwhile n urls) m later
      → Sleeps key unknown_key meanwhile (suc n) urls m later

wait_rounds-Sleeps :
    (key unknown_key : String) (meanwhile : ℕ → Urls → Urls) {n m : ℕ} {urls later : Urls}
    → Sleeps key unknown_key meanwhile n urls m later
    → wait_rounds n key unknown_key meanwhile urls ≡ wait_rounds m key unknown_key meanwhile later
wait_rounds-Sleeps key unknown_key meanwhile awake = refl
wait_rounds-Sleeps key unknown_key meanwhile (asleep {n} {m} {urls} {later} gone gone' rest) =
    wait_rounds-again n key unknown_key meanwhile urls gone gone'
    ∙ wait_rounds-Sleeps key unknown_key meanwhile rest

-- A send that waits for the URL of a file has found nothing so far when its session handles an upload
-- event that names the file, or that names none, and no URL was there for the file. Whatever `others`
-- the other tasks do after the event, if they leave the entry of the event, and put none for the file,
-- before the send wakes up and has a round left, the send gets the URL of the event.
pub wait-handled :
    (o : Services) (ctx : Context) (x : HostedUploadEvent) (w : World) (file_id : String) (n : ℕ)
    (meanwhile : ℕ → Urls → Urls) (others : Urls → Urls) (urls : Urls)
    → is_blank file_id ≡ false
    → is_blank x.file_url ≡ false
    → (x.file_id ≡ file_id) ⊎ (is_blank x.file_id ≡ true)
    → Map.get (own_key o ctx file_id) w.upload_file_urls ≡ none
    → let after = (handle_hosted_realtime_event o ctx (upload x) w).upload_file_urls in
      Map.get (upload_key o ctx x.file_id) (others after)
        ≡ Map.get (upload_key o ctx x.file_id) after
      → Map.get (own_key o ctx file_id) (others after) ≡ Map.get (own_key o ctx file_id) after
      → Sleeps
          (own_key o ctx file_id)
          (unknown_key_of o ctx)
          meanwhile
          150
          urls
          (suc n)
          (others after)
      → (wait_for_upload_file_url (some (o.print ctx.account_id)) file_id meanwhile urls).0
        ≡ ok x.file_url
unfolding wait_for_upload_file_url
wait-handled o ctx x w file_id n meanwhile others urls named full which gone left none_else sleeps =
    let key = own_key o ctx file_id in
    let unknown_key = unknown_key_of o ctx in
    let k = upload_key o ctx x.file_id in
    let after = (handle_hosted_realtime_event o ctx (upload x) w).upload_file_urls in
    let stored = handle-upload o ctx x w full in
    rw (wait_for_upload_file_url, named)
      (ap (λ r. r.0) (wait_rounds-Sleeps key unknown_key meanwhile sleeps)
        ∙ wait_rounds-ok n key unknown_key x.file_url meanwhile (others after) (
            take_url-there key unknown_key x.file_url (others after) k
              (upload_key-cases o ctx x file_id which named)
              (left
                ∙ ap (Map.get k) stored
                ∙ get-put k k x.file_url w.upload_file_urls
                ∙ rw (==_refl {A = String} k) refl)
              (λ other.
                none_else
                ∙ ap (Map.get key) stored
                ∙ get-put k key x.file_url w.upload_file_urls
                ∙ rw other gone)
              full))
