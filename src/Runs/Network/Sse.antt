-- ===== src/Runs/Network/Sse.antt =====
-- crates/runs/src/network/sse.rs: the parser of the server's event stream, over the frames of a body.

use ensurer_v.Prelude.{
  ℕ, suc, String, ◌&&◌, Option, none, some, List, [], ◌∷◌, ◌++◌, take, drop, Result, ok, err,
  nat_eq, from_utf8, lines, strip_prefix, trim_start, if◌then◌else◌,
}
use mathlib.Core.Option

pub record SseEvent : Type 0 where
  pub id : Option String
  pub data_field : Option String

-- What `frame()` of the body gives: data, trailers, or an error; then `None`.
pub data Frame : Type 0 where
  data_frame : List ℕ → Frame
  trailers : Frame
  failed : String → Frame

-- The body that is still to come, and the buffer.
pub record SseStream : Type 0 where
  pub body : List Frame
  pub buf : List ℕ

unfoldable pub find_double_newline : List ℕ → Option ℕ
find_double_newline [] = none
find_double_newline (a ∷ []) = none
find_double_newline (a ∷ b ∷ rest) =
    if nat_eq a 10 && nat_eq b 10 then some 0 else Option.map suc (find_double_newline (b ∷ rest))

abbrev default : SseEvent
default = record { id = none; data_field = none }

abbrev or_event : SseEvent → Option String → SseEvent
or_event event none = event
or_event event (some v) = record event { data_field = some (trim_start v) }

-- The fields of one line.
abbrev with_fields : SseEvent → Option String → Option String → SseEvent
with_fields event (some v) text = record event { id = some (trim_start v) }
with_fields event none text = or_event event text

unfoldable pub with_lines : SseEvent → List String → SseEvent
unfolding strip_prefix trim_start
with_lines event [] = event
with_lines event (line ∷ rest) =
    with_lines (with_fields event (strip_prefix line "id:") (strip_prefix line "data:")) rest

abbrev text_of : Option String → String
text_of none = ""
text_of (some s) = s

unfoldable pub parse_event : List ℕ → SseEvent
unfolding from_utf8 lines with_lines
parse_event block = with_lines default (lines (text_of (from_utf8 block)))

abbrev pub Next : Type 0
Next = Option (Result String SseEvent) × SseStream

-- The stream has ended: what is buffered is a last event.
abbrev pub flush : List ℕ → Next
flush [] = (none, record { body = []; buf = [] })
flush (b ∷ bs) = (some (ok (parse_event (b ∷ bs))), record { body = []; buf = [] })

-- The block up to the blank line.
abbrev pub split_off : ℕ → List Frame → List ℕ → Next
split_off pos body buf = (
  some (ok (parse_event (take (suc (suc pos)) buf))),
  record { body = body; buf = drop (suc (suc pos)) buf },
)

-- The loop of `next`, on the body and the buffer.
unfoldable pub next_in : List Frame → List ℕ → Next
unfolding find_double_newline parse_event
next_in [] buf = elim (find_double_newline buf) [
  | some pos ↦ split_off pos [] buf
  | none ↦ flush buf
]
next_in (data_frame bytes ∷ body) buf = elim (find_double_newline buf) [
  | some pos ↦ split_off pos (data_frame bytes ∷ body) buf
  | none ↦ next_in body (buf ++ bytes)
]
next_in (trailers ∷ body) buf = elim (find_double_newline buf) [
  | some pos ↦ split_off pos (trailers ∷ body) buf
  | none ↦ next_in body buf
]
next_in (failed e ∷ body) buf = elim (find_double_newline buf) [
  | some pos ↦ split_off pos (failed e ∷ body) buf
  | none ↦ (some (err e), record { body = body; buf = buf })
]

unfoldable pub next : SseStream → Next
unfolding next_in
next s = next_in s.body s.buf
