-- ===== src/Runs/Network/Reconnect/Waits.antt =====
-- How long the client waits between its connections (crates/runs/src/network.rs).
use ensurer_v.Prelude.{
  ℕ, zero, suc, ◌*◌, ◌%◌, ◌^◌, ◌+◌, ◌≤◌, ◌≡◌, refl, ap, ◌∙◌, min, String, Option, List, [], ◌∷◌,
  ◌++◌, map, length, length-append, All, All-append, arith, Bool-cases, inl, inr, leb,
}
use ensurer_v.Common.Event.{SequencedEvent}
use ensurer_v.Runs.Network.Reconnect.{Attempt, Link, start, attempt, attempts}

abbrev pub IsWait : ℕ → Type 0
IsWait ms = (500 ≤ ms) × (ms ≤ 30000)

abbrev IsTimed : ℕ → Link → Type 0
IsTimed n l = IsWait l.backoff_ms × All IsWait l.sleeps × (length l.sleeps ≡ n)

doubled-IsWait : (ms : ℕ) → IsWait ms → IsWait (min (ms * 2 % 2 ^ 64) 30000)
doubled-IsWait ms h = (omega (arith, h), omega (arith, h))

power-positive : (n : ℕ) → 1 ≤ 2 ^ n
power-positive zero = omega arith
power-positive (suc n) = omega (arith, power-positive n)

positive : (p : ℕ) → 1 ≤ p → (q : ℕ) × (p ≡ suc q)
positive zero h = absurd (omega (arith, h))
positive (suc q) h = (q, refl)

capped : (b q : ℕ) → min (min (b * 2) 30000 * suc q) 30000 ≡ min (b * (suc q * 2)) 30000
capped b q =
    let spread : b * (suc q * 2) ≡ b * 2 + b * q * 2 = omega arith in
    let same : b * 2 * suc q ≡ b * 2 + b * q * 2 = omega arith in
    elim (Bool-cases (leb (b * 2) 30000)) [
      | inl e ↦
          let small : min (b * 2) 30000 ≡ b * 2 = ground (arith, e) in rw (small, same, spread) refl
      | inr e ↦
          let large : min (b * 2) 30000 ≡ 30000 = ground (arith, e) in
          rw (large, spread) (ground (arith, e))
    ]

twice :
    (b n : ℕ)
    → IsWait b
    → min (min (b * 2 % 2 ^ 64) 30000 * 2 ^ n) 30000 ≡ min (b * 2 ^ suc n) 30000
twice b n w =
    let fits : b * 2 % 2 ^ 64 ≡ b * 2 = omega (arith, w) in
    let next : 2 ^ suc n ≡ 2 ^ n * 2 = omega arith in
    let (q, e) = positive (2 ^ n) (power-positive n) in rw (fits, next, e) (capped b q)

module _ (parse : String → Option SequencedEvent) where
  attempt-IsTimed :
      (a : Attempt) (n : ℕ) (l : Link) → IsTimed n l → IsTimed (suc n) (attempt parse a l)
  unfolding attempt
  attempt-IsTimed (Attempt.refused e) n l (w, ws, k) = (
    doubled-IsWait l.backoff_ms w,
    All-append IsWait l.sleeps (l.backoff_ms ∷ []) ws (w, tt),
    omega (arith, length-append l.sleeps (l.backoff_ms ∷ []), k),
  )
  attempt-IsTimed (Attempt.opened body) n l (w, ws, k) = (
    doubled-IsWait 500 (omega arith, omega arith),
    All-append IsWait l.sleeps (500 ∷ []) ws ((omega arith, omega arith), tt),
    omega (arith, length-append l.sleeps (500 ∷ []), k),
  )

  attempts-IsTimed :
      (tries : List Attempt) (n : ℕ) (l : Link)
      → IsTimed n l
      → IsTimed (length tries + n) (attempts parse tries l)
  unfolding attempts
  attempts-IsTimed [] n l h = (h.0, h.1, omega (arith, h.2))
  attempts-IsTimed (a ∷ tries) n l h =
      let (w, ws, k) =
        attempts-IsTimed tries (suc n) (attempt parse a l) (attempt-IsTimed a n l h) in
      (w, ws, omega (arith, k))

  start-IsTimed : IsTimed 0 start
  start-IsTimed = ((omega arith, omega arith), tt, refl)

  attempts-append :
      (tries others : List Attempt) (l : Link)
      → attempts parse (tries ++ others) l ≡ attempts parse others (attempts parse tries l)
  unfolding attempts
  attempts-append [] others l = refl
  attempts-append (a ∷ tries) others l = attempts-append tries others (attempt parse a l)

  refused_doubles :
      (errors : List String) (l : Link)
      → IsWait l.backoff_ms
      → (attempts parse (map Attempt.refused errors) l).backoff_ms
        ≡ min (l.backoff_ms * 2 ^ length errors) 30000
  unfolding attempts attempt
  refused_doubles [] l w = omega (arith, w)
  refused_doubles (e ∷ errors) l w =
      refused_doubles errors (attempt parse (Attempt.refused e) l) (doubled-IsWait l.backoff_ms w)
      ∙ twice l.backoff_ms (length errors) w

  -- Whatever comes of the connections, there is one wait after each, of between 500 and 30000
  -- milliseconds.
  pub attempts-All-IsWait :
      (tries : List Attempt)
      → All IsWait (attempts parse tries start).sleeps
        × (length (attempts parse tries start).sleeps ≡ length tries)
  attempts-All-IsWait tries =
      let (w, ws, k) = attempts-IsTimed tries 0 start start-IsTimed in (ws, omega (arith, k))

  -- After any connections, each one more that is refused doubles the wait, up to 30000 milliseconds:
  -- after n of them it is the least of 30000 and 2 to the power n times what it was.
  pub attempts_doubles :
      (tries : List Attempt) (errors : List String)
      → let l = attempts parse (tries ++ map Attempt.refused errors) start in
        l.backoff_ms ≡ min ((attempts parse tries start).backoff_ms * 2 ^ length errors) 30000
  attempts_doubles tries errors =
      let w = (attempts-IsTimed tries 0 start start-IsTimed).0 in
      ap (λ (l : Link). l.backoff_ms) (attempts-append tries (map Attempt.refused errors) start)
      ∙ refused_doubles errors (attempts parse tries start) w
