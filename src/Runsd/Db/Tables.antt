-- ===== src/Runsd/Db/Tables.antt =====
-- The tables of crates/runsd/migrations/0001_initial.sql, and the parts of SQL that the statements
-- of crates/runsd/src/db/queries.rs use: WHERE, ORDER BY and LIMIT.
use ensurer_v.Prelude.{ℕ, String, List, [], ◌∷◌, ◌==◌, any, if◌then◌else◌}
unfoldable pub use ensurer_v.Prelude.{text_lt, insert_by, order_by}
use ensurer_v.Runsd.Db.Row.{RunRow, CalcRow, EventRow}

-- Rows stand in the order of their insertion. `last_seq` is what AUTOINCREMENT keeps.
pub record Db : Type 0 where
  pub runs : List RunRow
  pub calculations : List CalcRow
  pub events : List EventRow
  pub last_seq : ℕ

abbrev pub empty : Db
empty = record { runs = []; calculations = []; events = []; last_seq = 0 }

-- `SET f WHERE id = ?` on the calculations.
unfoldable pub set_calc : String → (CalcRow → CalcRow) → List CalcRow → List CalcRow
set_calc id f [] = []
set_calc id f (r ∷ rs) = (if r.id == id then f r else r) ∷ set_calc id f rs

-- `SET f WHERE id = ?` on the runs.
unfoldable pub set_run : String → (RunRow → RunRow) → List RunRow → List RunRow
set_run id f [] = []
set_run id f (r ∷ rs) = (if r.id == id then f r else r) ∷ set_run id f rs

-- `SELECT DISTINCT`: the first of equal texts is kept.
unfoldable pub distinct_from : List String → List String → List String
distinct_from seen [] = []
distinct_from seen (s ∷ rest) =
    let old = distinct_from seen rest in
    let new = s ∷ distinct_from (s ∷ seen) rest in if any (λ t. t == s) seen then old else new

unfoldable pub distinct : List String → List String
unfolding distinct_from
distinct = distinct_from []
