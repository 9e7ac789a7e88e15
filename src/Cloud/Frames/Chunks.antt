-- ===== src/Cloud/Frames/Chunks.antt =====
-- How a stream is cut into chunks does not matter to the events of it.
use zca_desktop.Common.{
  ℕ, zero, suc, ◌≤◌, ◌≡◌, refl, sym, ap, ◌∙◌, Option, none, some, List, [], ◌∷◌, ◌++◌, Text, length,
  append-nil, append_assoc, arith, inl, inr, Option-cases,
}
use zca_desktop.Callback.{lines}
use zca_desktop.Cloud.Frames.{
  split_frame, frames_in, frames, events_of, events_in, drain_sse_events, receive,
}

-- A frame and its end take two characters at least.
split_frame-shorter : (s f r : Text) → split_frame s ≡ some (f, r) → suc (suc (length r)) ≤ length s
unfolding split_frame
split_frame-shorter [] f r h = absurd (cc h)
split_frame-shorter (c ∷ []) f r h = absurd (cc h)
split_frame-shorter (c ∷ d ∷ s) f r h = elim (Option-cases (split_frame (d ∷ s))) [
  | inl e ↦ ground (arith, e)
  | inr ((g, q), e) ↦ ground (arith, e, split_frame-shorter (d ∷ s) g q e)
]

-- What comes later changes no frame that is complete.
split_frame-append :
    (s t f r : Text) → split_frame s ≡ some (f, r) → split_frame (s ++ t) ≡ some (f, r ++ t)
unfolding split_frame
split_frame-append [] t f r h = absurd (cc h)
split_frame-append (c ∷ []) t f r h = absurd (cc h)
split_frame-append (c ∷ d ∷ s) t f r h = elim (Option-cases (split_frame (d ∷ s))) [
  | inl e ↦ ground (arith, e)
  | inr ((g, q), e) ↦ ground (arith, e, split_frame-append (d ∷ s) t g q e)
]

frames_in-some :
    (n : ℕ) (s f r : Text)
    → split_frame s ≡ some (f, r)
    → frames_in (suc n) s ≡ (f ∷ (frames_in n r).0, (frames_in n r).1)
unfolding frames_in
frames_in-some n s f r h = rw (frames_in, h) refl

frames_in-none : (n : ℕ) (s : Text) → split_frame s ≡ none → frames_in n s ≡ ([], s)
unfolding frames_in
frames_in-none zero s h = refl
frames_in-none (suc n) s h = rw (frames_in, h) refl

-- Rounds beyond the length change nothing.
frames_in-fuel : (n m : ℕ) (s : Text) → length s ≤ n → length s ≤ m → frames_in n s ≡ frames_in m s
unfolding split_frame frames_in
frames_in-fuel zero m [] p q = sym (frames_in-none m [] refl)
frames_in-fuel zero m (c ∷ s) p q = absurd (omega arith)
frames_in-fuel (suc n) zero [] p q = frames_in-none (suc n) [] refl
frames_in-fuel (suc n) zero (c ∷ s) p q = absurd (omega arith)
frames_in-fuel (suc n) (suc m) s p q = elim (Option-cases (split_frame s)) [
  | inl e ↦ frames_in-none (suc n) s e ∙ sym (frames_in-none (suc m) s e)
  | inr ((f, r), e) ↦
      let shorter = split_frame-shorter s f r e in
      frames_in-some n s f r e
      ∙ ap (λ x. (f ∷ x.0, x.1)) (frames_in-fuel n m r (omega arith) (omega arith))
      ∙ sym (frames_in-some m s f r e)
]

frames-none : (s : Text) → split_frame s ≡ none → frames s ≡ ([], s)
unfolding frames
frames-none s h = frames_in-none (length s) s h

frames-some :
    (s f r : Text) → split_frame s ≡ some (f, r) → frames s ≡ (f ∷ (frames r).0, (frames r).1)
unfolding frames
frames-some s f r h =
    let shorter = split_frame-shorter s f r h in
    frames_in-fuel (length s) (suc (length s)) s (omega arith) (omega arith)
    ∙ frames_in-some (length s) s f r h
    ∙ ap (λ x. (f ∷ x.0, x.1)) (frames_in-fuel (length s) (length r) r (omega arith) (omega arith))

-- Enough rounds leave no complete frame.
frames_in-rest : (n : ℕ) (s : Text) → length s ≤ n → split_frame (frames_in n s).1 ≡ none
unfolding split_frame frames_in
frames_in-rest zero [] p = refl
frames_in-rest zero (c ∷ s) p = absurd (omega arith)
frames_in-rest (suc n) s p = elim (Option-cases (split_frame s)) [
  | inl e ↦ ap (λ x. split_frame x.1) (frames_in-none (suc n) s e) ∙ e
  | inr ((f, r), e) ↦
      let shorter = split_frame-shorter s f r e in
      ap (λ x. split_frame x.1) (frames_in-some n s f r e) ∙ frames_in-rest n r (omega arith)
]

-- The frames of two texts in a row: those of the first, and then those of what it leaves with the
-- second.
frames_in-append :
    (n : ℕ) (s t : Text)
    → length s ≤ n
    → frames (s ++ t) ≡ (
      (frames_in n s).0 ++ (frames ((frames_in n s).1 ++ t)).0,
      (frames ((frames_in n s).1 ++ t)).1,
    )
unfolding split_frame frames_in
frames_in-append zero [] t p = refl
frames_in-append zero (c ∷ s) t p = absurd (omega arith)
frames_in-append (suc n) s t p = elim (Option-cases (split_frame s)) [
  | inl e ↦ rw (frames_in-none (suc n) s e) refl
  | inr ((f, r), e) ↦
      let shorter = split_frame-shorter s f r e in
      rw (frames_in-some n s f r e) (
        frames-some (s ++ t) f (r ++ t) (split_frame-append s t f r e)
        ∙ ap (λ x. (f ∷ x.0, x.1)) (frames_in-append n r t (omega arith)))
]

frames-append :
    (s t : Text)
    → frames (s ++ t)
      ≡ ((frames s).0 ++ (frames ((frames s).1 ++ t)).0, (frames ((frames s).1 ++ t)).1)
unfolding frames
frames-append s t = frames_in-append (length s) s t (omega arith)

-- The text that the chunks are cut from.
unfoldable pub concat : List Text → Text
concat [] = []
concat (s ∷ rest) = s ++ concat rest

module _ {Json : Type 0} (parse : Text → Option Json) where
  events_in-append :
      (fs gs : List Text) → events_in parse (fs ++ gs) ≡ events_in parse fs ++ events_in parse gs
  unfolding events_in
  events_in-append [] gs = refl
  events_in-append (f ∷ fs) gs =
      ap (events_of parse (lines f) ++◌) (events_in-append fs gs)
      ∙ sym (append_assoc (events_of parse (lines f)) (events_in parse fs) (events_in parse gs))

  -- The loop that takes the frames out of a buffer ends with none in it.
  pub drain_finishes : (buffer : Text) → split_frame (drain_sse_events parse buffer).1 ≡ none
  unfolding drain_sse_events frames
  drain_finishes buffer = frames_in-rest (length buffer) buffer (omega arith)

  drain-append :
      (s t : Text)
      → drain_sse_events parse (s ++ t) ≡ (
        (drain_sse_events parse s).0
            ++ (drain_sse_events parse ((drain_sse_events parse s).1 ++ t)).0,
        (drain_sse_events parse ((drain_sse_events parse s).1 ++ t)).1,
      )
  unfolding drain_sse_events
  drain-append s t =
      let rest = frames ((frames s).1 ++ t) in
      ap (λ x. (events_in parse x.0, x.1)) (frames-append s t)
      ∙ ap (λ x. (x, rest.1)) (events_in-append (frames s).0 rest.0)

  drain-none : (s : Text) → split_frame s ≡ none → drain_sse_events parse s ≡ ([], s)
  unfolding drain_sse_events events_in
  drain-none s h = ap (λ x. (events_in parse x.0, x.1)) (frames-none s h)

  receive_from :
      (buffer : Text) (chunks : List Text)
      → split_frame buffer ≡ none
      → receive parse buffer chunks ≡ drain_sse_events parse (buffer ++ concat chunks)
  unfolding receive concat
  receive_from buffer [] h =
      sym (ap (drain_sse_events parse) (append-nil buffer) ∙ drain-none buffer h)
  receive_from buffer (chunk ∷ chunks) h =
      let drained = drain_sse_events parse (buffer ++ chunk) in
      ap (λ x. (drained.0 ++ x.0, x.1))
        (receive_from drained.1 chunks (drain_finishes (buffer ++ chunk)))
      ∙ sym (drain-append (buffer ++ chunk) (concat chunks))
      ∙ ap (drain_sse_events parse) (append_assoc buffer chunk (concat chunks))

  -- The events of a connection, and what it holds at the end, are those of the whole text, however
  -- it was cut into chunks.
  pub receive-eq-drain :
      (chunks : List Text) → receive parse [] chunks ≡ drain_sse_events parse (concat chunks)
  unfolding split_frame
  receive-eq-drain chunks = receive_from [] chunks refl
