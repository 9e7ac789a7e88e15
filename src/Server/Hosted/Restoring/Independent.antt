-- ===== src/Server/Hosted/Restoring/Independent.antt =====
-- `restore_active_sessions` (sessions.rs): each account's outcome is its own.
use zca_desktop.Common.{
  ℕ, ◌+◌, ◌≡◌, refl, sym, ap, ◌∙◌, String, Bool, true, false, ◌&&◌, Option, none, some, List, [],
  ◌∷◌, if◌then◌else◌, is_ok, map_option, Result, ok, err, length, select, All, ◌==◌, eq_of_==,
  number_equality, Bool-cases, inl, inr, arith, subst, text_equality,
}
use zca_desktop.Common.Table.{find, HasUniqueKeys}
use zca_desktop.Server.{AppError, Db, user_id}
use zca_desktop.Server.Accounts.{account_id, AccountCredential, credentials_in}
use zca_desktop.Server.Hosted.{HostedSessionManager, HostedSessionState, online, state}
use zca_desktop.Server.Hosted.Restoring.{
  Outside, restore_one_account, settle, restore_each, restore_active_sessions,
}
use zca_desktop.Server.Hosted.Restoring.Outcomes.{
  account_state, HasRow, attempt, finish, restore_one-eq,
}
use zca_desktop.Server.Hosted.Restoring.Each.{IsSame, Settled, settle-Settled}
use zca_desktop.Server.Hosted.Restoring.Listed.{
  credential_id, credentials_in-rows, credentials_in-HasUniqueKeys,
}

module _ (o : Outside) (now : ℕ) where
  -- Whether an account is restored, by the tables at the start.
  abbrev pub restores : Db → AccountCredential → Bool
  restores s a = is_ok (restore_one_account o now a s).0

  -- The state of an account, and of its session, after a restart that came upon it or not.
  abbrev pub state_after : Db → Option AccountCredential → Option String → Option String
  state_after s none before = before
  state_after s (some a) before =
      map_option (λ x. if restores s a then "active" else "reauth-needed") before

  abbrev pub live_after :
      Db → Option AccountCredential → Option HostedSessionState → Option HostedSessionState
  live_after s none before = before
  live_after s (some a) before = if restores s a then some online else before

  restores-attempt :
      (a : AccountCredential) (s t : Db)
      → HasRow a.id s
      → IsSame s t
      → is_ok (attempt o now a (find user_id a.user_id t.users)) ≡ restores s a
  unfolding finish
  restores-attempt a s t row same =
      ap (λ users. is_ok (attempt o now a (find user_id a.user_id users))) same.0
      ∙ sym (
          ap (λ r. is_ok r.0) (restore_one-eq o now a s row)
          ∙ of_result (attempt o now a (find user_id a.user_id s.users)))
    where
      of_result : (r : Result AppError (ℕ × ℕ)) → is_ok (finish o now a s r).0 ≡ is_ok r
      of_result (ok v) = refl
      of_result (err e) = refl

  step :
      (a : AccountCredential) (m : HostedSessionManager) (s t : Db)
      → HasRow a.id s
      → IsSame s t
      → let (n, m', t') = settle o now a m (restore_one_account o now a t) in
        Settled o now a (restores s a) m m' t t' n
  step a m s t row same =
      let r = attempt o now a (find user_id a.user_id t.users) in
      subst
        (λ good.
          let (n, m', t') = settle o now a m (restore_one_account o now a t) in
          Settled o now a good m m' t t' n)
        (restores-attempt a s t row same)
        (subst (λ x. let (n, m', t') = settle o now a m x in Settled o now a (is_ok r) m m' t t' n)
          (sym (restore_one-eq o now a t (same.1 a.id ∙ row))) (settle-Settled o now a m t r))

  -- The two steps of one account's projection are one.
  state_after-step :
      (s : Db) (a : AccountCredential) (accounts : List AccountCredential) (i : ℕ)
      (before between : Option String)
      → find credential_id a.id accounts ≡ none
      → between ≡ (
          if a.id == i
          then map_option (λ x. if restores s a then "active" else "reauth-needed") before
          else before)
      → state_after s (find credential_id i accounts) between
        ≡ state_after s (find credential_id i (a ∷ accounts)) before
  unfolding find
  state_after-step s a accounts i before between fresh e = elim (Bool-cases (a.id == i)) [
    | inl same ↦
        let fresh' : find credential_id i accounts ≡ none = rw (← eq_of_== a.id i same) fresh in
        rw (fresh', same) (e ∙ rw same refl)
    | inr other ↦ rw (e, other) refl
  ]

  live_after-step :
      (s : Db) (a : AccountCredential) (accounts : List AccountCredential) (i : ℕ)
      (before between : Option HostedSessionState)
      → find credential_id a.id accounts ≡ none
      → between ≡ (if restores s a && (a.id == i) then some online else before)
      → live_after s (find credential_id i accounts) between
        ≡ live_after s (find credential_id i (a ∷ accounts)) before
  unfolding find
  live_after-step s a accounts i before between fresh e = elim (Bool-cases (a.id == i)) [
    | inl same ↦
        let fresh' : find credential_id i accounts ≡ none = rw (← eq_of_== a.id i same) fresh in
        rw (fresh', same) (e ∙ both (restores s a) (a.id == i) same)
    | inr other ↦
        let e' : between ≡ before = e ∙ neither (restores s a) (a.id == i) other in
        rw (e', other) refl
  ]
    where
      both :
          (g b : Bool)
          → b ≡ true
          → (if g && b then some online else before) ≡ (if g then some online else before)
      both g b h = ground (arith, h)

      neither : (g b : Bool) → b ≡ false → (if g && b then some online else before) ≡ before
      neither g b h = ground (arith, h)

  pub restore_each-lem :
      (accounts : List AccountCredential) (m : HostedSessionManager) (s t : Db)
      → All (λ a. HasRow a.id s) accounts
      → HasUniqueKeys credential_id accounts
      → IsSame s t
      → let (n, m', t') = restore_each o now accounts m t in
        (n ≡ length (select (restores s) accounts))
        × ((i : ℕ)
            → account_state i t'
              ≡ state_after s (find credential_id i accounts) (account_state i t))
        × ((i : ℕ) → state i m' ≡ live_after s (find credential_id i accounts) (state i m))
  unfolding restore_each find select
  restore_each-lem [] m s t rows unique same = (refl, λ i. refl, λ i. refl)
  restore_each-lem (a ∷ accounts) m s t rows unique same =
      let one = step a m s t rows.0 same in
      let (n, m', t') = settle o now a m (restore_one_account o now a t) in
      let rest = restore_each-lem accounts m' s t' rows.1 unique.1 (then_same t' one.same) in
      (
        counted (restores s a) one.counted rest.0,
        λ i. rest.1 i ∙ state_after-step s a accounts i _ _ unique.0 (one.in_table i),
        λ i. rest.2 i ∙ live_after-step s a accounts i _ _ unique.0 (one.live i),
      )
    where
      then_same : (t' : Db) → IsSame t t' → IsSame s t'
      then_same t' after = (after.0 ∙ same.0, λ i. after.1 i ∙ same.1 i)

      counted :
          {n k : ℕ} (good : Bool)
          → n ≡ (if good then 1 else 0)
          → k ≡ length (select (restores s) accounts)
          → n + k
            ≡ length
                (if good then a ∷ select (restores s) accounts else select (restores s) accounts)
      counted good e f = ground (arith, e, f)

-- A restart counts the accounts that it restores, when the ids in the table are unique.
pub restored-count :
    (o : Outside) (now : ℕ) (m : HostedSessionManager) (s : Db)
    → HasUniqueKeys account_id s.cloud_accounts
    → (restore_active_sessions o now m s).0
      ≡ length (select (restores o now s) (credentials_in "active" s.cloud_accounts))
unfolding restore_active_sessions
restored-count o now m s unique =
    (restore_each-lem o now (credentials_in "active" s.cloud_accounts) m s s
      (credentials_in-rows "active" s.cloud_accounts)
      (credentials_in-HasUniqueKeys "active" s.cloud_accounts unique) (refl, λ i. refl)).0

-- Whatever becomes of the others, after a restart an account in its list is active with an online
-- session if it is restored by the tables at the start, and else waits for a new login with its
-- session as before; an account that is not in the list is as before. The ids in the table are
-- unique.
pub restored-each :
    (o : Outside) (now : ℕ) (m : HostedSessionManager) (s : Db) (i : ℕ)
    → HasUniqueKeys account_id s.cloud_accounts
    → let (n, m', t) = restore_active_sessions o now m s in
      let listed = find credential_id i (credentials_in "active" s.cloud_accounts) in
      (account_state i t ≡ state_after o now s listed (account_state i s))
      × (state i m' ≡ live_after o now s listed (state i m))
unfolding restore_active_sessions
restored-each o now m s i unique =
    let all =
      restore_each-lem o now (credentials_in "active" s.cloud_accounts) m s s
        (credentials_in-rows "active" s.cloud_accounts)
        (credentials_in-HasUniqueKeys "active" s.cloud_accounts unique) (refl, λ i. refl) in
    (all.1 i, all.2 i)
