-- ===== src/Callback/Origins.antt =====
-- The origin that a delivered login comes from (magic_link_callback.rs).
use zca_desktop.Common.{
  ℕ, ◌≡◌, refl, sym, ap, ◌∙◌, Bool, true, false, ◌||◌, Option, none, some, List, [], ◌∷◌, ◌++◌,
  append_assoc, if◌then◌else◌, eqb, unwrap_or, codes, Text, starts_with, split_by, split, prepend,
  drop_end, keep_unless, trim_text, same_text, drop, length, Bool-cases, Option-cases, ◌⊎◌, inl,
  inr, arith, subst,
}
use zca_desktop.Callback.{
  CallbackPayload, base_url_of, ParsedRequest, is_empty, is_slash, trim_slashes, split_at_text,
  first_part, origin_from_base_url, origin_allowed, Outcome, refusal, answer_get, preflight_allowed,
  answer, parse_request, handle_connection,
}

same_text-eq : (s t : Text) → same_text s t ≡ true → s ≡ t
unfolding same_text
same_text-eq [] [] h = refl
same_text-eq [] (d ∷ t) h = absurd (cc h)
same_text-eq (c ∷ s) [] h = absurd (cc h)
same_text-eq (c ∷ s) (d ∷ t) h = ground (arith, h, same_text-eq s t)

starts_with-split : (p s : Text) → starts_with p s ≡ true → s ≡ p ++ drop (length p) s
unfolding starts_with
starts_with-split [] s h = refl
starts_with-split (c ∷ p) [] h = absurd (cc h)
starts_with-split (c ∷ p) (d ∷ s) h = ground (arith, h, starts_with-split p s)

abbrev IsSplit : Text → Text → Option (Text × Text) → Type 0
IsSplit p s none = Unit
IsSplit p s (some r) = s ≡ r.0 ++ p ++ r.1

split_at_text-IsSplit : (p s : Text) → IsSplit p s (split_at_text p s)
unfolding split_at_text
split_at_text-IsSplit p [] = tt
split_at_text-IsSplit p (c ∷ s) = elim (Bool-cases (starts_with p (c ∷ s))) [
  | inl here ↦ rw here (starts_with-split p (c ∷ s) here)
  | inr later ↦ rw later (of_rest (split_at_text p s) (split_at_text-IsSplit p s))
]
  where
    of_rest :
        (o : Option (Text × Text))
        → IsSplit p s o
        → IsSplit p (c ∷ s) (elim o [ none ↦ none | some r ↦ some (c ∷ r.0, r.1) ])
    of_rest none h = tt
    of_rest (some r) h = ap (◌∷◌ c) h

-- Nothing, or what starts with a slash.
abbrev pub IsPath : Text → Type 0
IsPath [] = Unit
IsPath (c ∷ s) = c ≡ 47

first_part-prepend :
    (c : ℕ) (parts : List Text) → first_part (prepend c parts) ≡ c ∷ first_part parts
first_part-prepend c [] = refl
first_part-prepend c (part ∷ parts) = refl

first_part-split : (s : Text) → (tail : Text) × (s ≡ first_part (split 47 s) ++ tail) × IsPath tail
unfolding split_by
first_part-split [] = ([], refl, tt)
first_part-split (c ∷ s) = elim (Bool-cases (eqb c 47)) [
  | inl slash ↦ rw slash (c ∷ s, refl, ground (arith, slash))
  | inr other ↦
      let (tail, e, path) = first_part-split s in
      rw other
        (tail, ap (◌∷◌ c) e ∙ ap (λ f. f ++ tail) (sym (first_part-prepend c (split 47 s))), path)
]

trim_slashes-split :
    (s tail : Text)
    → IsPath tail
    → (tail' : Text) × (s ++ tail ≡ trim_slashes s ++ tail') × IsPath tail'
unfolding trim_slashes drop_end
trim_slashes-split [] tail h = (tail, refl, h)
trim_slashes-split (c ∷ s) tail h =
    let (t, e, path) = trim_slashes-split s tail h in kept (drop_end is_slash s) t e path
  where
    kept :
        (r t : Text)
        → s ++ tail ≡ r ++ t
        → IsPath t
        → (t' : Text) × (c ∷ (s ++ tail) ≡ keep_unless is_slash c r ++ t') × IsPath t'
    kept [] t e path = elim (Bool-cases (is_slash c)) [
      | inl slash ↦ rw slash (c ∷ t, ap (◌∷◌ c) e, ground (arith, slash))
      | inr other ↦ rw other (t, ap (◌∷◌ c) e, path)
    ]
    kept (d ∷ r) t e path = (t, ap (◌∷◌ c) e, path)

-- The base URL starts with its origin, and a path follows.
origin_from_base_url-starts :
    (base_url origin : Text)
    → origin_from_base_url base_url ≡ some origin
    → (path : Text) × (base_url ≡ origin ++ path) × IsPath path
unfolding origin_from_base_url
origin_from_base_url-starts base_url origin h =
    of_split (split_at_text (codes "://") base_url) (split_at_text-IsSplit (codes "://") base_url) h
  where
    chosen : {x : Text} (b : Bool) → (if b then none else some x) ≡ some origin → x ≡ origin
    chosen true k = absurd (cc k)
    chosen false k = cc

    parts : Text → Text → Option Text
    parts scheme rest =
        let host = trim_slashes (first_part (split 47 rest)) in
        if is_empty scheme || is_empty host then none else some (scheme ++ codes "://" ++ host)

    of_split :
        (o : Option (Text × Text))
        → IsSplit (codes "://") base_url o
        → elim o [ none ↦ none | some (scheme, rest) ↦ parts scheme rest ] ≡ some origin
        → (path : Text) × (base_url ≡ origin ++ path) × IsPath path
    of_split none e k = absurd (cc k)
    of_split (some (scheme, rest)) e k =
        let (tail, first, after) = first_part-split rest in
        let (path, host, is_path) = trim_slashes-split (first_part (split 47 rest)) tail after in
        let host_text = trim_slashes (first_part (split 47 rest)) in
        let name : scheme ++ codes "://" ++ host_text ≡ origin =
          chosen (is_empty scheme || is_empty host_text) k in
        (
          path,
          e
              ∙ ap (λ t. scheme ++ codes "://" ++ t) (first ∙ host)
              ∙ sym (append_assoc (scheme ++ codes "://") host_text path)
              ∙ ap (λ o. o ++ path) name,
          is_path,
        )

-- The base URL starts with the origin, and a path follows; or nothing is left of the origin without
-- its slashes.
abbrev pub LiesUnder : Text → Text → Type 0
LiesUnder base_url origin =
    (origin ≡ []) ⊎ ((path : Text) × (base_url ≡ origin ++ path) × IsPath path)

-- The request names an origin that is not blank, and the base URL lies under it.
abbrev pub ComesFrom : Option Text → Text → Type 0
ComesFrom origin base_url =
    (given : Text) × (origin ≡ some given)
    × (is_empty (trim_text given) ≡ false)
    × LiesUnder base_url (trim_slashes (trim_text given))

origin_allowed-ComesFrom :
    (origin : Option Text) (base_url : Text)
    → origin_allowed origin base_url ≡ true
    → ComesFrom origin base_url
unfolding origin_allowed
origin_allowed-ComesFrom none base_url h = absurd (cc h)
origin_allowed-ComesFrom (some given) base_url h = elim (Bool-cases (is_empty (trim_text given))) [
  | inl empty ↦ absurd (cc (rw empty at h))
  | inr there ↦
      let same = same_text-eq _ _ (rw there at h) in
      elim (Option-cases (origin_from_base_url base_url)) [
        | inl missing ↦ (given, refl, there, inl (rw missing at same))
        | inr (origin, found) ↦
            let e : trim_slashes (trim_text given) ≡ origin = rw found at same in
            (given, refl, there, inr (rw e (origin_from_base_url-starts base_url origin found)))
      ]
]

answer_get-event :
    (origin : Option Text) (payload : Option CallbackPayload) (p : CallbackPayload)
    → (answer_get origin payload).event ≡ some p
    → ((answer_get origin payload).status ≡ 200)
      × (payload ≡ some p)
      × ComesFrom origin (base_url_of p)
unfolding answer_get
answer_get-event origin none p h = absurd (cc h)
answer_get-event origin (some payload) p h =
    elim (Bool-cases (origin_allowed origin (base_url_of payload))) [
      | inr refused ↦ absurd (cc (rw refused at h))
      | inl allowed ↦
          let e : some payload ≡ some p = rw allowed at h in
          (
            rw allowed refl,
            e,
            subst (λ o. ComesFrom origin (base_url_of (unwrap_or o payload))) e
                (origin_allowed-ComesFrom origin (base_url_of payload) allowed),
          )
    ]

-- An event reaches the app only from a GET request that is answered with 200, whose payload it is,
-- and that names an origin which is not blank. The base URL of the payload starts with that origin,
-- with nothing or a path after it, unless nothing is left of the origin without its slashes.
pub delivered-origin :
    (decode : Text → Option Text) (raw : Text) (out : Outcome) (p : CallbackPayload)
    → handle_connection decode raw ≡ some out
    → out.event ≡ some p
    → (request : ParsedRequest) × (parse_request decode raw ≡ some request)
      × (request.method ≡ codes "GET")
      × (request.payload ≡ some p)
      × (out.status ≡ 200)
      × ComesFrom request.origin (base_url_of p)
unfolding handle_connection answer
delivered-origin decode raw out p h event = elim (Option-cases (parse_request decode raw)) [
  | inl fails ↦ absurd (cc (rw (fails, handle_connection) at h))
  | inr (request, parsed) ↦
      let e : some (answer request) ≡ some out = rw (parsed, handle_connection) at h in
      let same : answer request ≡ out = ap (λ o. unwrap_or o out) e in
      let all = of_method request (ap (λ o. o.event) same ∙ event) in
      (request, parsed, all.0, all.1, ap (λ o. o.status) (sym same) ∙ all.2, all.3)
]
  where
    of_method :
        (r : ParsedRequest)
        → (answer r).event ≡ some p
        → (r.method ≡ codes "GET")
          × (r.payload ≡ some p)
          × ((answer r).status ≡ 200)
          × ComesFrom r.origin (base_url_of p)
    of_method r k = elim (Bool-cases (same_text r.method (codes "OPTIONS"))) [
      | inl options ↦ absurd (preflight (preflight_allowed r.origin r.payload) (rw options at k))
      | inr other ↦ elim (Bool-cases (same_text r.method (codes "GET"))) [
        | inr neither ↦ absurd (cc (rw (other, neither) at k))
        | inl get ↦
            let a = answer_get-event r.origin r.payload p (rw (other, get) at k) in
            (same_text-eq _ _ get, a.1, rw (other, get) a.0, a.2)
      ]
    ]
      where
        preflight :
            (b : Bool)
            → (if b
                then record { event = none; status = 204; cors_origin = r.origin }
                else refusal 403).event
              ≡ some p
            → ⊥
        preflight true e = cc e
        preflight false e = cc e
