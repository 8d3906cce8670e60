-- ===== src/Runs/Network/Events/Chunks.antt =====
-- How the frames of the event stream are cut is of no account (crates/runs/src/network/sse.rs).
use ensurer_v.Prelude.{
  ℕ, zero, suc, ◌≤◌, ◌≡◌, refl, sym, ap, ◌∙◌, String, ◌&&◌, Option, none, some, List, [], ◌∷◌, ◌++◌,
  map, take, drop, length, ok, err, nat_eq, arith, Option-cases, Bool-cases, inl, inr,
}
use mathlib.Core.Option
use mathlib.Core.List.{append-nil, append_assoc, flatten}
use ensurer_v.Common.Event.{SequencedEvent}
use ensurer_v.Runs.Network.Sse.{
  Frame, SseStream, Next, find_double_newline, split_off, next_in, next, parse_event,
}
use ensurer_v.Runs.Network.Events.{Heard, hear, follow}

-- A blank line that is there stays the first one when more bytes come, and the block up to it too.
pub find-append :
    (b d : List ℕ) (pos : ℕ)
    → find_double_newline b ≡ some pos
    → (find_double_newline (b ++ d) ≡ some pos)
      × (take (suc (suc pos)) (b ++ d) ≡ take (suc (suc pos)) b)
      × (drop (suc (suc pos)) (b ++ d) ≡ drop (suc (suc pos)) b ++ d)
      × (suc (suc pos) ≤ length b)
unfolding find_double_newline
find-append [] d pos e = absurd (ground (arith, e))
find-append (x ∷ []) d pos e = absurd (ground (arith, e))
find-append (x ∷ y ∷ b) d pos e = elim (Bool-cases (nat_eq x 10 && nat_eq y 10)) [
  | inl f ↦
      let start : pos ≡ 0 = ground (arith, e, f) in rw start (rw f (refl, refl, refl, omega arith))
  | inr f ↦ elim (Option-cases (find_double_newline (y ∷ b))) [
    | inl g ↦ absurd (ground (arith, e, f, g))
    | inr (k, g) ↦
        let later : pos ≡ suc k = ground (arith, e, f, g) in
        let (same, block, rest, short) = find-append (y ∷ b) d k g in
        rw later
          (rw f (ap (Option.map suc) same, ap (λ l. x ∷ l) block, rest, omega (arith, short)))
  ]
]

pub next_in-found :
    (body : List Frame) (buf : List ℕ) (pos : ℕ)
    → find_double_newline buf ≡ some pos
    → next_in body buf ≡ split_off pos body buf
unfolding next_in
next_in-found [] buf pos e = rw (e, next_in) refl
next_in-found (Frame.data_frame d ∷ body) buf pos e = rw (e, next_in) refl
next_in-found (Frame.trailers ∷ body) buf pos e = rw (e, next_in) refl
next_in-found (Frame.failed t ∷ body) buf pos e = rw (e, next_in) refl

pub next_in-frame :
    (d : List ℕ) (body : List Frame) (buf : List ℕ)
    → find_double_newline buf ≡ none
    → next_in (Frame.data_frame d ∷ body) buf ≡ next_in body (buf ++ d)
unfolding next_in
next_in-frame d body buf e = rw (e, next_in) refl

abbrev pub stream : List Frame → List ℕ → SseStream
stream body buf = record { body = body; buf = buf }

module _ (parse : String → Option SequencedEvent) where
  -- What the loop does with the answer of `next`.
  abbrev pub go_on : ℕ → Heard → Next → Option Heard
  go_on n h answer = elim answer.0 [
    | none ↦ some h
    | some result ↦ elim result [
      | ok event ↦ follow parse n (hear parse event.data_field h) answer.1
      | err e ↦ some h
    ]
  ]

  pub follow-go_on :
      (n : ℕ) (h : Heard) (s : SseStream) → follow parse (suc n) h s ≡ go_on n h (next s)
  unfolding follow
  follow-go_on n h s = refl

  pub follow-next :
      (n : ℕ) (h : Heard) (s : SseStream) (answer : Next)
      → next s ≡ answer
      → follow parse (suc n) h s ≡ go_on n h answer
  follow-next n h s answer e = follow-go_on n h s ∙ ap (go_on n h) e

  follow-zero : (h : Heard) (s t : SseStream) → follow parse 0 h s ≡ follow parse 0 h t
  unfolding follow
  follow-zero h s t = refl

  -- A frame is heard as its bytes at the end of the buffer.
  follow-frame :
      (n : ℕ) (h : Heard) (d : List ℕ) (body : List Frame) (b : List ℕ)
      → follow parse n h (stream (Frame.data_frame d ∷ body) b)
        ≡ follow parse n h (stream body (b ++ d))
  unfolding next
  follow-frame zero h d body b = follow-zero h _ _
  follow-frame (suc n) h d body b = elim (Option-cases (find_double_newline b)) [
    | inl e ↦
        follow-next n h (stream (Frame.data_frame d ∷ body) b) (next_in body (b ++ d))
          (next_in-frame d body b e)
        ∙ sym (follow-go_on n h (stream body (b ++ d)))
    | inr (pos, e) ↦
        let (found, block, rest, short) = find-append b d pos e in
        let text = take (suc (suc pos)) b in
        let left = drop (suc (suc pos)) b in
        follow-next n h (stream (Frame.data_frame d ∷ body) b) _
          (next_in-found (Frame.data_frame d ∷ body) b pos e)
        ∙ follow-frame n (hear parse (parse_event text).data_field h) d body left
        ∙ sym (
            follow-next n h (stream body (b ++ d))
              (some (ok (parse_event text)), stream body (left ++ d))
              (next_in-found body (b ++ d) pos found ∙ rw (block, rest) refl))
  ]

  follow-frames :
      (n : ℕ) (h : Heard) (chunks : List (List ℕ)) (body : List Frame) (b : List ℕ)
      → follow parse n h (stream (map Frame.data_frame chunks ++ body) b)
        ≡ follow parse n h (stream body (b ++ flatten chunks))
  unfolding flatten
  follow-frames n h [] body b = ap (λ l. follow parse n h (stream body l)) (sym (append-nil b))
  follow-frames n h (d ∷ chunks) body b =
      follow-frame n h d (map Frame.data_frame chunks ++ body) b
      ∙ follow-frames n h chunks body (b ++ d)
      ∙ ap (λ l. follow parse n h (stream body l)) (append_assoc b d (flatten chunks))

  -- Two ways to cut the same bytes into frames of data, before the same rest of the body, are heard
  -- alike: the same messages, the same last number, with the same number of turns of the loop.
  pub follow_any_chunks :
      (n : ℕ) (h : Heard) (chunks others : List (List ℕ)) (body : List Frame)
      → flatten chunks ≡ flatten others
      → follow parse n h (stream (map Frame.data_frame chunks ++ body) [])
        ≡ follow parse n h (stream (map Frame.data_frame others ++ body) [])
  follow_any_chunks n h chunks others body e =
      follow-frames n h chunks body []
      ∙ ap (λ l. follow parse n h (stream body l)) e
      ∙ sym (follow-frames n h others body [])
