-- ===== src/Server/Hosted/Throttling.antt =====
-- The server's `SendThrottle` (sessions.rs) against the desktop's (session/mod.rs).
use zca_desktop.Common.{
  ℕ, ◌≡◌, refl, String, List, [], ◌∷◌, map, ◌==◌, number_equality, text_equality, arith, ap,
}
use zca_desktop.Common.Map
use zca_desktop.Common.Map.{get-put}
use zca_desktop.Session.Throttle as Desktop
use zca_desktop.Server.Hosted.{SendThrottle, reserve}

-- The waits that a history of (account, now) calls is told.
unfoldable pub waits : SendThrottle → List (ℕ × ℕ) → List ℕ
waits t [] = []
waits t ((account, now) ∷ calls) = let (wait, t') = reserve t account now in wait ∷ waits t' calls

unfoldable pub desktop_waits : Desktop.SendThrottle → List (String × ℕ) → List ℕ
desktop_waits t [] = []
desktop_waits t ((account, now) ∷ calls) =
    let (wait, t') = Desktop.reserve t account now in wait ∷ desktop_waits t' calls

module _ (spell : ℕ → String) (spell-injective : (a b : ℕ) → spell a ≡ spell b → a ≡ b) where
  abbrev spelled : List (ℕ × ℕ) → List (String × ℕ)
  spelled calls = map (λ c. (spell c.0, c.1)) calls

  spell-== : (a b : ℕ) → (spell a == spell b) ≡ (a == b)
  spell-== a b = ground (
    arith,
    text_equality.equal_iff (spell a) (spell b),
    number_equality.equal_iff a b,
    spell-injective a b,
    λ (e : a ≡ b). ap spell e,
  )

  waits-eq_from :
      (t : SendThrottle) (d : Desktop.SendThrottle) (calls : List (ℕ × ℕ))
      → t.interval ≡ d.interval
      → ((a : ℕ) → Map.get a t.next_allowed ≡ Map.get (spell a) d.next_allowed)
      → waits t calls ≡ desktop_waits d (spelled calls)
  unfolding waits desktop_waits reserve Desktop.reserve Desktop.scheduled
  waits-eq_from t d [] same agree = refl
  waits-eq_from t d ((account, now) ∷ calls) same agree = ap_cons (slot_eq account now) (
      waits-eq_from (reserve t account now).1 (Desktop.reserve d (spell account) now).1 calls same
        (after account now))
    where
      ap_cons : {x y : ℕ} {xs ys : List ℕ} → x ≡ y → xs ≡ ys → (x ∷ xs) ≡ (y ∷ ys)
      ap_cons p q = cc

      slot_eq : (a n : ℕ) → (reserve t a n).0 ≡ (Desktop.reserve d (spell a) n).0
      slot_eq a n = rw (agree a) refl

      after :
          (a n b : ℕ)
          → Map.get b (reserve t a n).1.next_allowed
            ≡ Map.get (spell b) (Desktop.reserve d (spell a) n).1.next_allowed
      after a n b =
          rw (get-put a b, get-put (spell a) (spell b), spell-== a b, agree a, agree b, same) refl

-- Under any spelling of account ids that tells them apart, the server's throttle and the desktop's
-- tell the same waits in every history of calls, from their start with the same interval.
pub waits-eq :
    (spell : ℕ → String) (spell-injective : (a b : ℕ) → spell a ≡ spell b → a ≡ b) (interval : ℕ)
    (calls : List (ℕ × ℕ))
    → waits (record { interval = interval; next_allowed = [] }) calls
      ≡ desktop_waits (Desktop.new interval) (map (λ c. (spell c.0, c.1)) calls)
waits-eq spell spell-injective interval calls =
    waits-eq_from spell spell-injective (record { interval = interval; next_allowed = [] })
      (Desktop.new interval) calls refl (λ a. unfold Map.get in refl)
