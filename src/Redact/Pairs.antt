-- ===== src/Redact/Pairs.antt =====
-- What `redact_pairs` (config/redact.rs) leaves as it is.
use zca_desktop.Common.{
  Text, split_first, split_by, split, join, trim_text, ℕ, ◌≡◌, refl, false, Option, none, some, [],
  ◌∷◌, map_option, eqb, Bool-cases, inl, inr,
}
use zca_desktop.Redact.{is_secret_key, trim_quotes, masked_at, mask_pair, redact_pairs}

map_option-none {ℓ κ} :
    {A : Type ℓ} {B : Type κ} (f : A → B) (o : Option A) → map_option f o ≡ none → o ≡ none
map_option-none f none h = refl
map_option-none f (some a) h = absurd (cc h)

split-whole : (sep : ℕ) (s : Text) → split_first sep s ≡ none → split sep s ≡ s ∷ []
unfolding split_first split_by
split-whole sep [] h = refl
split-whole sep (c ∷ s) h = elim (Bool-cases (eqb c sep)) [
  | inl same ↦ absurd (cc (rw same at h))
  | inr other ↦
      rw (other, split-whole sep s (map_option-none _ (split_first sep s) (rw other at h))) refl
]

-- A text with no `;` and no `:` whose first key is not secret is left as it is, so the pairs after
-- an `&` are never masked.
pub redact_pairs-eq_self :
    (decimal : ℕ → Text) (s key value : Text)
    → split_first 59 s ≡ none
    → split_first 58 s ≡ none
    → split_first 61 s ≡ some (key, value)
    → is_secret_key (trim_text (trim_quotes (trim_text key))) ≡ false
    → redact_pairs decimal s ≡ s
unfolding redact_pairs join mask_pair masked_at
redact_pairs-eq_self decimal s key value semicolon colon equals plain =
    rw (split-whole 59 s semicolon) (kept)
  where
    kept : mask_pair decimal s ≡ s
    kept = rw (equals, mask_pair, masked_at, plain, colon) refl
