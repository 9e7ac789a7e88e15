-- ===== src/Server/Hosted/Restoring/Listed.antt =====
-- The list of a restart (`active_account_credentials` of db.rs) against the table.
use zca_desktop.Common.{
  ℕ, ◌≡◌, refl, sym, String, Bool, true, false, Option, none, some, List, [], ◌∷◌, if◌then◌else◌,
  is_some, All, ◌==◌, ==_refl, number_equality, text_equality, Bool-cases, inl, inr, subst, arith,
}
use zca_desktop.Common.Table.{find, HasUniqueKeys}
use zca_desktop.Common.Table.Selecting.{All-imp}
use zca_desktop.Server.{CloudAccountRow}
use zca_desktop.Server.Accounts.{account_id, AccountCredential, credential_of, credentials_in}

abbrev pub credential_id : AccountCredential → ℕ
credential_id c = c.id

credential_of-id :
    (r : CloudAccountRow) (c : AccountCredential) → credential_of r ≡ some c → c.id ≡ r.id
unfolding credential_of
credential_of-id r c h = ground (arith, h)

-- A row adds its credentials to the list, or nothing.
credentials_in-cases :
    (P : List AccountCredential → Type 0) (st : String) (r : CloudAccountRow)
    (rows : List CloudAccountRow)
    → P (credentials_in st rows)
    → ((c : AccountCredential) → c.id ≡ r.id → P (c ∷ credentials_in st rows))
    → P (credentials_in st (r ∷ rows))
unfolding credentials_in
credentials_in-cases P st r rows nothing adds = by (credential_of r) refl (r.state == st)
  where
    by :
        (o : Option AccountCredential)
        → credential_of r ≡ o
        → (b : Bool)
        → P (
            if b
            then elim o [ none ↦ credentials_in st rows | some c ↦ c ∷ credentials_in st rows ]
            else credentials_in st rows)
    by o e false = nothing
    by none e true = nothing
    by (some c) e true = adds c (credential_of-id r c e)

-- The listed accounts have a row each.
pub credentials_in-rows :
    (st : String) (rows : List CloudAccountRow)
    → All (λ c. is_some (find account_id c.id rows) ≡ true) (credentials_in st rows)
unfolding find
credentials_in-rows st [] = unfold credentials_in in tt
credentials_in-rows st (r ∷ rows) =
    let rest : All (λ c. is_some (find account_id c.id (r ∷ rows)) ≡ true)
        (credentials_in st rows) =
      All-imp (credentials_in st rows) (λ c h. here c.id h (r.id == c.id))
        (credentials_in-rows st rows) in
    credentials_in-cases (All (λ c. is_some (find account_id c.id (r ∷ rows)) ≡ true)) st r rows
      rest (λ c e. (rw (e, ==_refl r.id) refl, rest))
  where
    here :
        (i : ℕ)
        → is_some (find account_id i rows) ≡ true
        → (b : Bool) → is_some (if b then some r else find account_id i rows) ≡ true
    here i h true = refl
    here i h false = h

credentials_in-none :
    (st : String) (i : ℕ) (rows : List CloudAccountRow)
    → find account_id i rows ≡ none
    → find credential_id i (credentials_in st rows) ≡ none
unfolding find
credentials_in-none st i [] h = unfold credentials_in in refl
credentials_in-none st i (r ∷ rows) h = elim (Bool-cases (r.id == i)) [
  | inl same ↦ absurd (cc (rw same at h))
  | inr other ↦
      let rest = credentials_in-none st i rows (rw other at h) in
      credentials_in-cases (λ l. find credential_id i l ≡ none) st r rows rest
        (λ c e. rw (e, other) rest)
]

pub credentials_in-HasUniqueKeys :
    (st : String) (rows : List CloudAccountRow)
    → HasUniqueKeys account_id rows
    → HasUniqueKeys credential_id (credentials_in st rows)
credentials_in-HasUniqueKeys st [] h = unfold credentials_in in tt
credentials_in-HasUniqueKeys st (r ∷ rows) h =
    let rest = credentials_in-HasUniqueKeys st rows h.1 in
    credentials_in-cases (HasUniqueKeys credential_id) st r rows rest (λ c e. (
      subst (λ i. find credential_id i (credentials_in st rows) ≡ none) (sym e)
          (credentials_in-none st r.id rows h.0),
      rest,
    ))
