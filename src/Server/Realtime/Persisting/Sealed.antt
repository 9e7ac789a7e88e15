-- ===== src/Server/Realtime/Persisting/Sealed.antt =====
-- The ciphertext columns of a message read back as what was sealed into them.
use zca_desktop.Common as Results
use zca_desktop.Common.{
  ℕ, ◌≡◌, refl, sym, ap, ◌∙◌, String, Bool, true, false, Option, none, some, if◌then◌else◌, length,
  Result, ok, err, ok_or, arith, Result-cases, Option-cases, Bool-cases, inl, inr, ok-injective,
  subst,
}
use zca_desktop.Server.{Bytes, Library}
use zca_desktop.Server.Keys.{seal, Opens, open_sealed-seal, nonce_len}
use zca_desktop.Server.Realtime.{MessageRichPayload, is_empty, Codec, ReadsRich}
use zca_desktop.Server.Realtime.Persisting.{
  RichCiphertext, encrypt_optional, encrypted_rich, open_columns, read_as,
}

-- A rich payload with nothing in it is stored as none.
unfoldable pub shown_rich : Option MessageRichPayload → Option MessageRichPayload
shown_rich none = none
shown_rich (some r) = if is_empty r then none else some r

module _ (lib : Library) (opens : Opens lib) (key nonce : Bytes)
    (hn : length nonce ≡ nonce_len) where
  pub open-encrypt_optional :
      (plain : Option Bytes) (sealed : RichCiphertext)
      → encrypt_optional lib key nonce plain ≡ ok sealed
      → open_columns lib key sealed.1 sealed.0 ≡ ok plain
  unfolding encrypt_optional open_columns
  open-encrypt_optional none sealed h =
      ap (λ c. open_columns lib key c.1 c.0) (sym (ok-injective h))
  open-encrypt_optional (some text) sealed h = elim (Result-cases (seal lib key nonce text)) [
    | inr (e, fails) ↦ absurd (cc (rw fails at h))
    | inl ((n, c), e) ↦
        ap (λ q. open_columns lib key q.1 q.0) (sym (ok-injective (rw e at h)))
        ∙ ap (λ r. Results.◌>>=◌ r (λ t. ok (some t)))
            (open_sealed-seal lib key nonce text opens hn e)
  ]

  pub rich-encrypted_rich :
      (codec : Codec)
      → (rich : Option MessageRichPayload) → ReadsRich codec rich
      → (sealed : RichCiphertext) → encrypted_rich lib codec key nonce rich ≡ ok sealed
      → Results.◌>>=◌ (open_columns lib key sealed.1 sealed.0) (read_as codec.from_slice)
        ≡ ok (shown_rich rich)
  unfolding encrypted_rich read_as shown_rich open_columns
  rich-encrypted_rich codec none trips sealed h =
      ap (λ c. Results.◌>>=◌ (open_columns lib key c.1 c.0) (read_as codec.from_slice))
        (sym (ok-injective h))
  rich-encrypted_rich codec (some r) trips sealed h = elim (Bool-cases (is_empty r)) [
    | inl empty ↦ rw empty (
        ap (λ c. Results.◌>>=◌ (open_columns lib key c.1 c.0) (read_as codec.from_slice))
          (sym (ok-injective (rw empty at h))))
    | inr full ↦ elim (Option-cases (codec.to_vec r)) [
      | inl fails ↦ absurd (cc (rw (full, fails) at h))
      | inr (json, e) ↦
          rw
            (
              open-encrypt_optional (some json) sealed (rw (full, e) at h),
              read_as,
              trips json e,
              shown_rich,
              full,
            )
            refl
    ]
  ]

-- A payload that is not empty fills both columns.
pub encrypted_rich-some :
    (lib : Library) (codec : Codec) (key nonce : Bytes) (r : MessageRichPayload)
    (sealed : RichCiphertext)
    → is_empty r ≡ false
    → encrypted_rich lib codec key nonce (some r) ≡ ok sealed
    → (n : Bytes) × (c : Bytes) × (sealed ≡ (some n, some c))
unfolding encrypted_rich encrypt_optional
encrypted_rich-some lib codec key nonce r sealed full h = elim (Option-cases (codec.to_vec r)) [
  | inl fails ↦ absurd (cc (rw (full, fails) at h))
  | inr (json, e) ↦ elim (Result-cases (seal lib key nonce json)) [
    | inr (x, fails) ↦ absurd (cc (rw (full, e, fails) at h))
    | inl ((n, c), sealed') ↦ (n, c, sym (ok-injective (rw (full, e, sealed') at h)))
  ]
]
