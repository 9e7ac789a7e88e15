-- ===== src/Server/Realtime/Mirror/Bounds.antt =====
-- What a fetch of media that succeeds has checked.
use zca_desktop.Common.{◌≤◌, ◌≡◌, length, ok, arith, Result-cases, inl, inr}
use zca_desktop.Server.{Bytes}
use zca_desktop.Server.Hosted.Addresses.{MediaUrl, ensure_public_host}
use zca_desktop.Server.Realtime.Mirror.{Web, MediaResponse, read_media, fetch_remote_media}

read_media-le :
    (web : Web) (response : MediaResponse) (bytes : Bytes)
    → read_media web response ≡ ok bytes
    → length bytes ≤ web.max_bytes
unfolding read_media
read_media-le web response bytes h = ground arith

read_media-body :
    (web : Web) (response : MediaResponse) (bytes : Bytes)
    → read_media web response ≡ ok bytes
    → response.body ≡ ok bytes
unfolding read_media
read_media-body web response bytes h = ground arith

-- Media that is fetched is the body of the response to a GET of the URL, is no longer than the limit,
-- and the guard of addresses lets the host of that URL pass.
pub fetch_remote_media-bounds :
    (web : Web) (url : MediaUrl) (bytes : Bytes)
    → fetch_remote_media web url ≡ ok bytes
    → (response : MediaResponse) × (web.get url ≡ ok response)
      × (response.body ≡ ok bytes)
      × (length bytes ≤ web.max_bytes)
      × (ensure_public_host web.names url ≡ ok tt)
unfolding fetch_remote_media
fetch_remote_media-bounds web url bytes h = elim (Result-cases (ensure_public_host web.names url)) [
  | inr (e, blocked) ↦ absurd (cc (rw (fetch_remote_media, blocked) at h))
  | inl (tt, public) ↦ elim (Result-cases (web.get url)) [
    | inr (e, fails) ↦ absurd (cc (rw (fetch_remote_media, public, fails) at h))
    | inl (response, got) ↦
        let reads : read_media web response ≡ ok bytes =
          rw (fetch_remote_media, public, got) at h in
        (
          response,
          got,
          read_media-body web response bytes reads,
          read_media-le web response bytes reads,
          public,
        )
  ]
]
