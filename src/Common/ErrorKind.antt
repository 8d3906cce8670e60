-- ===== src/Common/ErrorKind.antt =====
-- `ErrorKind` of crates/common/src/model.rs, with its `Display` and `FromStr`.
use ensurer_v.Prelude.{String, append, ◌≡◌, refl, ◌==◌, Result, ok, err, if◌then◌else◌}

pub data ErrorKind : Type 0 where
  transient transient_exhausted permanent crash_exhausted : ErrorKind

unfoldable pub to_string : ErrorKind → String
to_string transient = "transient"
to_string transient_exhausted = "transient_exhausted"
to_string permanent = "permanent"
to_string crash_exhausted = "crash_exhausted"

unfoldable pub from_str : String → Result String ErrorKind
from_str s =
    if s == "transient"
    then ok transient
    else if s == "transient_exhausted"
    then ok transient_exhausted
    else if s == "permanent"
    then ok permanent
    else if s == "crash_exhausted"
    then ok crash_exhausted
    else err (append "unknown error kind: " s)

-- Every kind is read back from its text.
pub from_str-to_string : (k : ErrorKind) → from_str (to_string k) ≡ ok k
unfolding from_str to_string
from_str-to_string transient = refl
from_str-to_string transient_exhausted = refl
from_str-to_string permanent = refl
from_str-to_string crash_exhausted = refl
