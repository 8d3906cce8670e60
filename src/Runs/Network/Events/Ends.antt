-- ===== src/Runs/Network/Events/Ends.antt =====
-- The loop over a connection's events ends with the body (crates/runs/src/network.rs).
use ensurer_v.Prelude.{
  ℕ, zero, suc, ◌+◌, ◌<◌, ◌≡◌, refl, ap, ◌∙◌, String, Option, none, some, List, [], ◌∷◌, ◌++◌,
  length, length-drop, length-append, Result, ok, err, arith, Option-cases, inl, inr,
}
use ensurer_v.Common.Event.{SequencedEvent}
use ensurer_v.Runs.Network.Sse.{
  SseEvent, Frame, SseStream, Next, find_double_newline, next_in, next, flush,
}
use ensurer_v.Runs.Network.Events.{Heard, hear, follow, bytes_of, listen, or_unchanged}
use ensurer_v.Runs.Network.Events.Chunks.{find-append, next_in-found, go_on, follow-next}

abbrev pub bytes_left : SseStream → ℕ
bytes_left s = length s.buf + bytes_of s.body

-- An answer with an event leaves fewer bytes.
abbrev Shrinks : ℕ → Next → Type 0
Shrinks n answer = (event : SseEvent) → answer.0 ≡ some (ok event) → bytes_left answer.1 < n

split_off-Shrinks :
    (body : List Frame) (buf : List ℕ) (pos : ℕ)
    → find_double_newline buf ≡ some pos
    → Shrinks (length buf + bytes_of body) (next_in body buf)
split_off-Shrinks body buf pos e =
    let (found, block, rest, short) = find-append buf [] pos e in
    rw (next_in-found body buf pos e)
      (λ event f. omega (arith, short, length-drop (suc (suc pos)) buf))

flush-Shrinks : (buf : List ℕ) → Shrinks (length buf) (flush buf)
unfolding bytes_of
flush-Shrinks [] event e = absurd (ground (arith, e))
flush-Shrinks (b ∷ bs) event e = omega arith

next_in-Shrinks :
    (body : List Frame) (buf : List ℕ) → Shrinks (length buf + bytes_of body) (next_in body buf)
unfolding next_in bytes_of
next_in-Shrinks [] buf = elim (Option-cases (find_double_newline buf)) [
  | inr (pos, e) ↦ split_off-Shrinks [] buf pos e
  | inl e ↦ rw (e, next_in) (λ event f. omega (arith, flush-Shrinks buf event f))
]
next_in-Shrinks (Frame.data_frame d ∷ body) buf = elim (Option-cases (find_double_newline buf)) [
  | inr (pos, e) ↦ split_off-Shrinks (Frame.data_frame d ∷ body) buf pos e
  | inl e ↦
      rw (e, next_in)
        (λ event f. omega (arith, next_in-Shrinks body (buf ++ d) event f, length-append buf d))
]
next_in-Shrinks (Frame.trailers ∷ body) buf = elim (Option-cases (find_double_newline buf)) [
  | inr (pos, e) ↦ split_off-Shrinks (Frame.trailers ∷ body) buf pos e
  | inl e ↦ rw (e, next_in) (next_in-Shrinks body buf)
]
next_in-Shrinks (Frame.failed t ∷ body) buf = elim (Option-cases (find_double_newline buf)) [
  | inr (pos, e) ↦ split_off-Shrinks (Frame.failed t ∷ body) buf pos e
  | inl e ↦ rw (e, next_in) (λ event f. absurd (ground (arith, f)))
]

module _ (parse : String → Option SequencedEvent) where
  follow-first :
      (n : ℕ) (h : Heard) (s : SseStream) (o : Option (Result String SseEvent))
      → (next s).0 ≡ o
      → follow parse (suc n) h s ≡ go_on parse n h (o, (next s).1)
  follow-first n h s o e = follow-next parse n h s (o, (next s).1) (ap (λ p. (p, (next s).1)) e)

  -- With more turns than there are bytes, the loop over the events of a connection comes to its end.
  pub follow-ends :
      (n : ℕ) (h : Heard) (s : SseStream)
      → bytes_left s < n
      → (h' : Heard) × (follow parse n h s ≡ some h')
  unfolding next
  follow-ends zero h s k = absurd (omega (arith, k))
  follow-ends (suc n) h s k = elim (Option-cases (next s).0) [
    | inl e ↦ (h, follow-first n h s _ e)
    | inr (err t, e) ↦ (h, follow-first n h s _ e)
    | inr (ok event, e) ↦
        let (h', f) =
          follow-ends n (hear parse event.data_field h) (next s).1
            (omega (arith, k, next_in-Shrinks s.body s.buf event e)) in
        (h', follow-first n h s _ e ∙ f)
  ]

  -- A connection is heard to its end, so that no fuel is spent.
  pub follow-listen :
      (h : Heard) (body : List Frame)
      → follow parse (suc (bytes_of body)) h (record { body = body; buf = [] })
        ≡ some (listen parse h body)
  unfolding listen
  follow-listen h body =
      let (h', e) =
        follow-ends (suc (bytes_of body)) h (record { body = body; buf = [] }) (omega arith) in
      rw e refl

  -- What holds before, and is kept by each event, holds behind the loop.
  pub follow_keeps :
      (P : Heard → Type 0) (n : ℕ) (g h : Heard) (s : SseStream)
      → ((text : Option String) (k : Heard) → P k → P (hear parse text k))
      → P g
      → P h
      → P (or_unchanged g (follow parse n h s))
  unfolding follow
  follow_keeps P zero g h s keeps pg ph = pg
  follow_keeps P (suc n) g h s keeps pg ph = elim (Option-cases (next s).0) [
    | inl e ↦ rw (follow-first n h s none e) ph
    | inr (err t, e) ↦ rw (follow-first n h s (some (err t)) e) ph
    | inr (ok event, e) ↦ rw (follow-first n h s (some (ok event)) e) (
        follow_keeps P n g (hear parse event.data_field h) (next s).1 keeps pg
          (keeps event.data_field h ph))
  ]
