-- ===== src/Startup/Restoring.antt =====
-- The loop of `restore_sessions` (command/mod.rs), by account.
use zca_desktop.Common.{
  ℕ, ◌≡◌, refl, ◌∙◌, Bool, true, false, not, ◌&&◌, ◌||◌, Option, none, some, List, [], ◌∷◌,
  text_equality, map_option, is_some, if◌then◌else◌, ◌==◌, any, Option-cases, inl, inr, arith,
}
use zca_desktop.Common.Table.{find, find-update}
use zca_desktop.Types.{AccountId, AccountProfile}
use zca_desktop.Session.Manager.{get}
use zca_desktop.Session.Manager.Sending.{get-insert}
use zca_desktop.Store.{Db, AccountRow, account_key}
use zca_desktop.Store.Crypto.{Primitives, Entry}
use zca_desktop.Store.Accounts.{SavedAccount, load_accounts, mark_reauth, mark_reauth_needed}
use zca_desktop.Startup.{
  Zalo, Desktop, Draw, listen, after_login, login_and_listen, restored_or_marked, push_profile,
  restore_all, restore_sessions,
}

-- The row of an account, if there is a store.
unfoldable pub account_row : {H : Type 0} → AccountId → Desktop H → Option AccountRow
account_row k d = elim d.store [ none ↦ none | some db ↦ find account_key k db.accounts ]

-- A row marked twice is marked.
marked_again :
    (x y : Bool) (o : Option AccountRow)
    → (if y
        then map_option mark_reauth (if x then map_option mark_reauth o else o)
        else (if x then map_option mark_reauth o else o))
      ≡ (if x || y then map_option mark_reauth o else o)
unfolding mark_reauth
marked_again true true none = refl
marked_again true true (some r) = refl
marked_again true false o = refl
marked_again false y o = refl

module _ {C H : Type 0} (p : Primitives C) (z : Zalo C H) where
  -- The profile with which a saved account comes online, if it logs in and its listener starts.
  unfoldable pub came_online : SavedAccount C → Option AccountProfile
  came_online s = elim (z.login_with s.credentials) [
    | none ↦ none
    | some api ↦ if is_some (z.start_message_listener api) then some (z.profile_of api) else none
  ]

  abbrev pub all_online : List (SavedAccount C) → List AccountProfile
  all_online [] = []
  all_online (s ∷ saved) = push_profile p z (came_online s) (all_online saved)

  abbrev pub is_online_as : AccountId → SavedAccount C → Bool
  is_online_as b s = elim (came_online s) [ none ↦ false | some profile ↦ profile.account_id == b ]

  abbrev pub is_lost : AccountId → SavedAccount C → Bool
  is_lost k s = not (is_some (came_online s)) && s.profile.account_id == k

  -- One round of the loop.
  abbrev round : Draw → SavedAccount C → Desktop H → Option AccountProfile × Desktop H
  round draw s d =
      restored_or_marked p z s.profile.account_id (login_and_listen p z d draw s.credentials false)

  find-mark :
      (db : Db) (a k : AccountId)
      → find account_key k (mark_reauth_needed db a).accounts ≡ (
          if a == k
          then map_option mark_reauth (find account_key k db.accounts)
          else find account_key k db.accounts)
  unfolding mark_reauth_needed
  find-mark db a k =
      find-update account_key a mark_reauth (λ x. unfold mark_reauth in refl) k db.accounts

  marked_row :
      (d : Desktop H) (a k : AccountId)
      → account_row k (record d { store = map_option (λ db. mark_reauth_needed db a) d.store })
        ≡ (if a == k then map_option mark_reauth (account_row k d) else account_row k d)
  unfolding account_row
  marked_row d a k = of_store d.store
    where
      of_store :
          (o : Option Db)
          → account_row k (record d { store = map_option (λ db. mark_reauth_needed db a) o }) ≡ (
              if a == k
              then map_option mark_reauth (account_row k (record d { store = o }))
              else account_row k (record d { store = o }))
      of_store none = ground arith
      of_store (some db) = find-mark db a k

  refused_login : (s : SavedAccount C) → z.login_with s.credentials ≡ none → came_online s ≡ none
  unfolding came_online
  refused_login s h = rw (h, came_online) refl

  silent_login :
      (s : SavedAccount C) (api : H)
      → z.login_with s.credentials ≡ some api
      → z.start_message_listener api ≡ none
      → came_online s ≡ none
  unfolding came_online
  silent_login s api h l = rw (h, l, came_online) refl

  full_login :
      (s : SavedAccount C) (api : H) {listener : ℕ}
      → z.login_with s.credentials ≡ some api
      → z.start_message_listener api ≡ some listener
      → came_online s ≡ some (z.profile_of api)
  unfolding came_online
  full_login s api h l = rw (h, l, came_online) refl

  round_lem :
      (draw : Draw) (s : SavedAccount C) (d : Desktop H) (k b : AccountId)
      → let (one, d1) = round draw s d in
        (one ≡ came_online s)
        × (account_row k d1
            ≡ (if is_lost k s then map_option mark_reauth (account_row k d) else account_row k d))
        × (is_some (get d1.manager b) ≡ (is_some (get d.manager b) || is_online_as b s))
  unfolding restored_or_marked login_and_listen after_login listen account_row
  round_lem draw s d k b = elim (Option-cases (z.login_with s.credentials)) [
    | inl refused ↦
        rw (refused_login s refused, refused, after_login)
          (refl, marked_row d s.profile.account_id k, ground (arith, refused_login s refused))
    | inr (api, logged) ↦ elim (Option-cases (z.start_message_listener api)) [
      | inl silent ↦
          rw (silent_login s api logged silent, logged, silent, after_login, listen)
            (
              refl,
              marked_row d s.profile.account_id k,
              ground (arith, silent_login s api logged silent),
            )
      | inr (l, listening) ↦
          rw (full_login s api logged listening, logged, listening, after_login, listen)
            (
              refl,
              refl,
              ground (
                arith,
                full_login s api logged listening,
                get-insert d.manager (z.profile_of api).account_id b api l,
              ),
            )
    ]
  ]

  restore_all_lem :
      (draw : Draw) (saved : List (SavedAccount C)) (d : Desktop H) (k b : AccountId)
      → let (restored, d') = restore_all p z draw saved d in
        (restored ≡ all_online saved)
        × (account_row k d' ≡ (
            if any (is_lost k) saved
            then map_option mark_reauth (account_row k d)
            else account_row k d))
        × (is_some (get d'.manager b) ≡ (is_some (get d.manager b) || any (is_online_as b) saved))
  unfolding restore_all any
  restore_all_lem draw [] d k b = (refl, refl, ground arith)
  restore_all_lem draw (s ∷ saved) d k b =
      let here = round_lem draw s d k b in
      let rest = restore_all_lem draw saved (round draw s d).1 k b in
      (
        cc (here.0, rest.0),
        rest.1 ∙ rw here.1 (marked_again (is_lost k s) (any (is_lost k) saved) (account_row k d)),
        rest.2 ∙ rw here.2 (ground arith),
      )

  -- Where there is a store, and for whatever the Zalo layer answers: the profiles restored are those of the saved accounts that
  -- come online, in order; an account's row is marked as needing a new login exactly if a saved
  -- account of that id did not; and the accounts with a session are those that had one and those
  -- that came online.
  pub restore_sessions_lem :
      (draw : Draw) (d : Desktop H) (db : Db) (k b : AccountId)
      → d.store ≡ some db
      → let saved = (load_accounts p db d.entry draw.fresh_key).0 in
        let (restored, d') = restore_sessions p z draw d in
        (restored ≡ all_online saved)
        × (account_row k d' ≡ (
            if any (is_lost k) saved
            then map_option mark_reauth (find account_key k db.accounts)
            else find account_key k db.accounts))
        × (is_some (get d'.manager b) ≡ (is_some (get d.manager b) || any (is_online_as b) saved))
  unfolding restore_sessions
  restore_sessions_lem draw d db k b there =
      let (saved, entry) = load_accounts p db d.entry draw.fresh_key in
      let all = restore_all_lem draw saved (record d { entry = entry }) k b in
      rw (there, restore_sessions) (all.0, all.1 ∙ rw (row entry there) refl, all.2)
    where
      row :
          (entry : Entry)
          → d.store ≡ some db
          → account_row k (record d { entry = entry }) ≡ find account_key k db.accounts
      row entry h = unfold account_row in rw (h, account_row) refl
