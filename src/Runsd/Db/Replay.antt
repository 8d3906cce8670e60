-- ===== src/Runsd/Db/Replay.antt =====
-- The replay of events by their numbers: `list_events_since` of crates/runsd/src/db/queries.rs.
use ensurer_v.Prelude.{
  ℕ, zero, suc, ◌+◌, ◌≤◌, ◌≡◌, refl, sym, ap, ◌∙◌, Bool, List, [], ◌∷◌, ◌++◌, select, select-yes,
  select-no, take, drop, take-append-drop, arith, Bool-cases, inl, inr, ok, ok_injective, ltb,
  ltb→lt, lt→ltb,
}
use ensurer_v.Runsd.Db.Row.{EventRow}
use ensurer_v.Runsd.Db.Tables.{Db, insert_by, order_by}
use ensurer_v.Runsd.Db.Keys.{Ascends, Ascends-select, IsKeyed}
use ensurer_v.Runsd.Db.Queries.Events.{by_seq, list_events_since}

abbrev pub is_after : ℕ → EventRow → Bool
is_after since e = ltb since e.seq

-- The number of the last event of a page, or `since` for an empty one.
abbrev pub last_of : ℕ → List EventRow → ℕ
last_of since [] = since
last_of since (e ∷ es) = last_of e.seq es

order_by-ascending :
    (low : ℕ) (events : List EventRow) → Ascends low events → order_by by_seq events ≡ events
unfolding order_by insert_by
order_by-ascending low [] a = refl
order_by-ascending low (e ∷ []) a = refl
order_by-ascending low (e ∷ f ∷ rest) a =
    rw (order_by-ascending e.seq (f ∷ rest) a.1) (ground (arith, a.1.0))

Ascends-after :
    (since low : ℕ) (events : List EventRow)
    → Ascends low events
    → Ascends since (select (is_after since) events)
Ascends-after since low [] a = tt
Ascends-after since low (e ∷ es) a = elim (Bool-cases (is_after since e)) [
  | inl h ↦ rw h (ltb→lt since e.seq h, Ascends-select (is_after since) e.seq es a.1)
  | inr h ↦ rw h (Ascends-after since e.seq es a.1)
]

all_after :
    (since low : ℕ) (events : List EventRow)
    → since ≤ low
    → Ascends low events
    → select (is_after since) events ≡ events
all_after since low [] b a = refl
all_after since low (e ∷ es) b a =
    select-yes (is_after since) e es (lt→ltb since e.seq (omega (arith, a.0)))
    ∙ ap (λ l. e ∷ l) (all_after since e.seq es (omega (arith, a.0)) a.1)

last_of-ge :
    (m since : ℕ) (events : List EventRow)
    → Ascends since events
    → since ≤ last_of since (take m events)
last_of-ge zero since events a = omega arith
last_of-ge (suc m) since [] a = omega arith
last_of-ge (suc m) since (e ∷ es) a = omega (arith, a.0, last_of-ge m e.seq es a.1)

-- Of ascending events, those after the last of the first `m` are the others.
select-drop :
    (m since : ℕ) (events : List EventRow)
    → Ascends since events
    → select (is_after (last_of since (take m events))) events ≡ drop m events
select-drop zero since events a = all_after since since events (omega arith) a
select-drop (suc m) since [] a = refl
select-drop (suc m) since (e ∷ es) a =
    select-no (is_after (last_of e.seq (take m es))) e es
      (ground (arith, last_of-ge m e.seq es a.1))
    ∙ select-drop m e.seq es a.1

select_again :
    (since later : ℕ) (events : List EventRow)
    → since ≤ later
    → select (is_after later) (select (is_after since) events) ≡ select (is_after later) events
select_again since later [] b = refl
select_again since later (e ∷ es) b = ground (arith, select_again since later es b)

list_events_since-after :
    (since limit : ℕ) (tables : Db)
    → IsKeyed tables
    → list_events_since since limit tables ≡ ok (take limit (select (is_after since) tables.events))
unfolding list_events_since
list_events_since-after since limit tables h =
    ap (λ l. ok (take limit l))
      (order_by-ascending since (select (is_after since) tables.events)
        (Ascends-after since 0 tables.events h.seqs_ascend))

-- On tables with proper keys, a client that asks for `m` events after a number, and then for `n`
-- after the last one it got, has got what it would have got by asking for `m + n` at once: no
-- event is lost or repeated.
pub list_events_since-pages :
    (since m n : ℕ) (tables : Db)
    → IsKeyed tables
    → (first second : List EventRow) → list_events_since since m tables ≡ ok first
    → list_events_since (last_of since first) n tables ≡ ok second
    → list_events_since since (m + n) tables ≡ ok (first ++ second)
list_events_since-pages since m n tables h first second e f =
    let found = select (is_after since) tables.events in
    let ascend : Ascends since found = Ascends-after since 0 tables.events h.seqs_ascend in
    let head : first ≡ take m found =
      ok_injective (sym e ∙ list_events_since-after since m tables h) in
    let last : last_of since first ≡ last_of since (take m found) = ap (last_of since) head in
    let rest : select (is_after (last_of since first)) tables.events ≡ drop m found =
      ap (λ k. select (is_after k) tables.events) last
      ∙ sym (
          select_again since (last_of since (take m found)) tables.events
            (last_of-ge m since found ascend))
      ∙ select-drop m since found ascend in
    let tail : second ≡ take n (drop m found) =
      ok_injective (sym f ∙ list_events_since-after (last_of since first) n tables h)
      ∙ ap (take n) rest in
    list_events_since-after since (m + n) tables h
    ∙ ap ok (take-append-drop m n found ∙ rw (head, tail) refl)
