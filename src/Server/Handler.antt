-- ===== src/Server/Handler.antt =====
-- Handlers with `?`: a failure ends the handler and keeps what was written before it.
use zca_desktop.Common as Results
use zca_desktop.Common.{
  sym, ◌∙◌, ◌≡◌, refl, ap, subst, Result, ok, err, Option, ◌++◌, [], ◌∷◌, ℕ, String, arith,
}
use zca_desktop.Server.{AppError, Db}

abbrev pub Handler : Type 0 → Type 0
Handler A = Db → Result AppError A × Db

abbrev after : {A B : Type 0} → Result AppError A → (A → Handler B) → Handler B
after (ok a) f s = f a s
after (err e) f s = (err e, s)

infixl 5 ◌>>=◌ ◌>>◌
abbrev pub ◌>>=◌ : {A B : Type 0} → Handler A → (A → Handler B) → Handler B
(m >>= f) s = let (r, s') = m s in after r f s'

abbrev pub ◌>>◌ : {A B : Type 0} → Handler A → Handler B → Handler B
m >> n = m >>= λ a. n

abbrev pub return : {A : Type 0} → A → Handler A
return a s = (ok a, s)

abbrev pub throw : {A : Type 0} → AppError → Handler A
throw e s = (err e, s)

-- A result that needs no tables.
abbrev pub lift : {A : Type 0} → Result AppError A → Handler A
lift r s = (r, s)

-- What a handler that succeeded has been through.
pub record Bound {A B : Type 0} (m : Handler A) (f : A → Handler B) (s : Db) (b : B) (t : Db)
    : Type 0 where
  pub value : A
  pub middle : Db
  pub first : m s ≡ (ok value, middle)
  pub then : f value middle ≡ (ok b, t)

pub bind-ok :
    {A B : Type 0} (m : Handler A) (f : A → Handler B) (s : Db) {b : B} {t : Db}
    → (m >>= f) s ≡ (ok b, t)
    → Bound m f s b t
bind-ok m f s {b} {t} h = of_result (m s).0 (m s).1 refl refl
  where
    of_result : (r : Result AppError _) (s' : Db) → (m s).0 ≡ r → (m s).1 ≡ s' → Bound m f s b t
    of_result (ok a) s' e e' = record {
      value = a;
      middle = s';
      first = ground (arith, e, e');
      then = rw (e, e') at h;
    }
    of_result (err x) s' e e' = absurd (cc (ap (λ p. p.0) (rw (e, e') at h)))

-- A step that leaves the tables alone, before a handler whose end `F` makes of its result.
pub bind-through :
    {A B C : Type 0} (F : Result AppError C → Result AppError B × Db) (m : Handler A)
    (f : A → Handler B) (s : Db) {r : Result AppError A} {g : A → Result AppError C}
    → ((e : AppError) → F (err e) ≡ (err e, s))
    → m s ≡ (r, s)
    → ((a : A) → f a s ≡ F (g a))
    → (m >>= f) s ≡ F (Results.◌>>=◌ r g)
bind-through F m f s {r} {g} fails e k = ap (λ p. after p.0 f p.1) e ∙ of_result r
  where
    of_result : (r : Result AppError _) → after r f s ≡ F (Results.◌>>=◌ r g)
    of_result (ok a) = k a
    of_result (err x) = sym (fails x)

-- A step that leaves the links alone.
pub bind-links :
    {A B : Type 0} (m : Handler A) (f : A → Handler B) (s : Db)
    → ((a : A) (t : Db) → (f a t).1.magic_links ≡ t.magic_links)
    → ((m >>= f) s).1.magic_links ≡ (m s).1.magic_links
bind-links m f s keeps = of_result (m s).0 (m s).1
  where
    of_result : (r : Result AppError _) (t : Db) → (after r f t).1.magic_links ≡ t.magic_links
    of_result (ok a) t = keeps a t
    of_result (err e) t = refl

pub bind-step :
    {A B : Type 0} (m : Handler A) (f : A → Handler B) (s : Db) {a : A} {t : Db}
    → m s ≡ (ok a, t)
    → (m >>= f) s ≡ f a t
bind-step m f s h = ap (λ p. after p.0 f p.1) h

-- Handlers that only read.
abbrev pub Reads : {A : Type 0} → Handler A → Db → Type 0
Reads m s = (m s).1 ≡ s

pub bind-Reads :
    {A B : Type 0} (m : Handler A) (f : A → Handler B) (s : Db)
    → Reads m s
    → ((a : A) → Reads (f a) s)
    → Reads (m >>= f) s
bind-Reads m f s reads then = of_result (m s).0 (m s).1 reads
  where
    of_result : (r : Result AppError _) (t : Db) → t ≡ s → (after r f t).1 ≡ s
    of_result (ok a) t e = ap (λ d. (f a d).1) e ∙ then a
    of_result (err x) t e = e

pub bind-read :
    {A B : Type 0} (m : Handler A) (f : A → Handler B) (s : Db) {b : B} {t : Db}
    → Reads m s
    → (m >>= f) s ≡ (ok b, t)
    → (a : A) × (m s ≡ (ok a, s)) × (f a s ≡ (ok b, t))
bind-read m f s {b} {t} reads h =
    let bound = bind-ok m f s h in
    let same : bound.middle ≡ s = sym (ap (λ p. p.1) bound.first) ∙ reads in
    (
      bound.value,
      subst (λ d. m s ≡ (ok bound.value, d)) same bound.first,
      subst (λ d. f bound.value d ≡ (ok b, t)) same bound.then,
    )

-- `insert_audit_event`, whose failure is dropped.
unfoldable pub insert_audit_event : Option ℕ → Option ℕ → String → Option ℕ → Handler (Unit {0})
insert_audit_event user device kind subject s = (
  ok tt,
  record s {
    audit_events =
        s.audit_events
        ++ record { user_id = user; device_id = device; event_kind = kind; subject_id = subject }
          ∷ [];
  },
)
