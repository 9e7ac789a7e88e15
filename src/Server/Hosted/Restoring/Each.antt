-- ===== src/Server/Hosted/Restoring/Each.antt =====
-- What becomes of each account at a restart (sessions.rs), whatever becomes of the others.
use zca_desktop.Common.{
  ℕ, ◌≡◌, refl, ap, ◌∙◌, String, Bool, true, false, ◌&&◌, Option, none, some, if◌then◌else◌,
  is_some, is_ok, map_option, Result, ok, err, ◌==◌, number_equality, Bool-cases, inl, inr,
}
use zca_desktop.Common.Map.{get-put}
use zca_desktop.Common.Table.{find, find-update, update}
use zca_desktop.Server.{AppError, Db, CloudAccountRow}
use zca_desktop.Server.Accounts.{
  account_id, AccountCredential, in_state, update_account_state, set_hosted_session_state,
  set_account_state, mark_account_active,
}
use zca_desktop.Server.Hosted.{HostedSession, HostedSessionManager, online, upsert_session, state}
use zca_desktop.Server.Hosted.Restoring.{Outside, settle}
use zca_desktop.Server.Hosted.Restoring.Outcomes.{account_state, finish}

-- Nothing changed that a restart reads of the tables.
abbrev pub IsSame : Db → Db → Type 0
IsSame s t =
    (t.users ≡ s.users)
    × ((i : ℕ)
        → is_some (find account_id i t.cloud_accounts)
          ≡ is_some (find account_id i s.cloud_accounts))

session-keeps :
    (now i : ℕ) (st : String) (e : Option String) (s : Db)
    → let t = (set_hosted_session_state now i st e s).1 in
      (t.cloud_accounts ≡ s.cloud_accounts) × (t.users ≡ s.users)
unfolding set_hosted_session_state
session-keeps now i st e s = elim (Bool-cases (is_some (find account_id i s.cloud_accounts))) [
  | inl there ↦ rw there (refl, refl)
  | inr missing ↦ rw missing (refl, refl)
]

-- An account's state that was set, with whatever session state beside it.
abbrev SetTo : ℕ → ℕ → String → Db → Db → Type 0
SetTo now i st s s' =
    (session : String) × (e : Option String) × (s'
      ≡ (set_hosted_session_state now i session e (update_account_state now i st s).1).1)

kept_some :
    {A : Type 0} (f : A → A) (x : Option A) (b : Bool)
    → is_some (if b then map_option f x else x) ≡ is_some x
kept_some f none true = refl
kept_some f (some a) true = refl
kept_some f x false = refl

state_set :
    (now : ℕ) (st : String) (x : Option CloudAccountRow) (b : Bool)
    → map_option (λ r. r.state) (if b then map_option (in_state now st) x else x) ≡ (
        if b
        then map_option (λ y. st) (map_option (λ r. r.state) x)
        else map_option (λ r. r.state) x)
unfolding in_state
state_set now st none true = refl
state_set now st (some r) true = refl
state_set now st x false = refl

module _ (now i : ℕ) (st : String) (s s' : Db) where
  SetTo-rows :
      SetTo now i st s s'
      → (s'.cloud_accounts ≡ update account_id i (in_state now st) s.cloud_accounts)
        × (s'.users ≡ s.users)
  unfolding update_account_state
  SetTo-rows (session, e, eq) =
      let kept = session-keeps now i session e (update_account_state now i st s).1 in
      (ap (λ d. d.cloud_accounts) eq ∙ kept.0, ap (λ d. d.users) eq ∙ kept.1)

  SetTo-find :
      (j : ℕ)
      → SetTo now i st s s'
      → find account_id j s'.cloud_accounts ≡ (
          if i == j
          then map_option (in_state now st) (find account_id j s.cloud_accounts)
          else find account_id j s.cloud_accounts)
  SetTo-find j set =
      ap (find account_id j) (SetTo-rows set).0
      ∙ find-update account_id i (in_state now st) (λ r. unfold in_state in refl) j s.cloud_accounts

  SetTo-IsSame : SetTo now i st s s' → IsSame s s'
  SetTo-IsSame set = (
    (SetTo-rows set).1,
    λ j.
        ap is_some (SetTo-find j set)
        ∙ kept_some (in_state now st) (find account_id j s.cloud_accounts) (i == j),
  )

  SetTo-state :
      (j : ℕ)
      → SetTo now i st s s'
      → account_state j s'
        ≡ (if i == j then map_option (λ x. st) (account_state j s) else account_state j s)
  SetTo-state j set =
      ap (map_option (λ r. r.state)) (SetTo-find j set)
      ∙ state_set now st (find account_id j s.cloud_accounts) (i == j)

live_set :
    (x : HostedSession) (y z : Option HostedSession) (b : Bool)
    → y ≡ (if b then some x else z)
    → map_option (λ v. v.state) y ≡ (if b then some x.state else map_option (λ v. v.state) z)
live_set x y z true e = ap (map_option (λ v. v.state)) e
live_set x y z false e = ap (map_option (λ v. v.state)) e

module _ (o : Outside) (now : ℕ) where
  -- What settling one account leaves.
  pub record Settled (a : AccountCredential) (good : Bool) (m m' : HostedSessionManager) (s s' : Db)
      (n : ℕ) : Type 0 where
    pub counted : n ≡ (if good then 1 else 0)
    pub same : IsSame s s'
    pub in_table :
        (i : ℕ)
        → account_state i s' ≡ (
            if a.id == i
            then map_option (λ x. if good then "active" else "reauth-needed") (account_state i s)
            else account_state i s)
    pub live : (i : ℕ) → state i m' ≡ (if good && (a.id == i) then some online else state i m)

  pub settle-Settled :
      (a : AccountCredential) (m : HostedSessionManager) (s : Db) (r : Result AppError (ℕ × ℕ))
      → let (n, m', s') = settle o now a m (finish o now a s r) in Settled a (is_ok r) m m' s s' n
  unfolding settle finish
  settle-Settled a m s (ok (api, listener)) =
      let set : SetTo now a.id "active" s (mark_account_active now a.id none s).1 =
        ("online", none, unfold mark_account_active update_account_state in refl) in
      record {
        counted = refl;
        same = SetTo-IsSame now a.id "active" s _ set;
        in_table = λ i. SetTo-state now a.id "active" s _ i set;
        live = λ i.
            unfold state upsert_session in live_set _ _ _ (a.id == i) (get-put a.id i _ m.sessions);
      }
  settle-Settled a m s (err e) =
      let set : SetTo now a.id "reauth-needed" s
          (set_account_state now a.id "reauth-needed" (some (o.to_string e)) s).1 =
        (
          "reauth-needed",
          some (o.to_string e),
          unfold set_account_state update_account_state in refl,
        ) in
      record {
        counted = refl;
        same = SetTo-IsSame now a.id "reauth-needed" s _ set;
        in_table = λ i. SetTo-state now a.id "reauth-needed" s _ i set;
        live = λ i. refl;
      }
