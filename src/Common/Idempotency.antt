-- ===== src/Common/Idempotency.antt =====
-- crates/common/src/idempotency.rs: the key of a calculation.
use ensurer_v.Prelude.{String, append, Bool, List, [], ◌∷◌, map, text_lt, order_by}
use ensurer_v.Common.Json.{
  Json, null, bool, number, string, array, object, Items, no_items, item, Members, no_members,
  member,
}

-- What the file takes from serde_json and sha2.
pub record Digest : Type 0 where
  -- `serde_json::to_string` of a key, and of a value that is neither an object nor an array
  pub key_text : String → String
  pub scalar_text : Json → String
  -- `hex::encode` of the SHA-256 digest of the bytes of a text
  pub sha256_hex : String → String

-- `join(",")`
unfoldable pub join_commas : List String → String
join_commas [] = ""
join_commas (s ∷ []) = s
join_commas (s ∷ t ∷ rest) = append s (append "," (join_commas (t ∷ rest)))

-- `keys.sort()`, with the value at each key; the keys of a map are distinct.
abbrev pub by_key : String × String → String × String → Bool
by_key a b = text_lt a.0 b.0

module _ (digest : Digest) where
  abbrev pub entry_text : String × String → String
  entry_text (k, v) = append (digest.key_text k) (append ":" v)

  unfoldable mutual
    unfolding order_by join_commas

    pub canonical_json : Json → String
    canonical_json (object members) =
        append "{"
          (append (join_commas (map entry_text (order_by by_key (canonical_members members)))) "}")
    canonical_json (array items) = append "[" (append (join_commas (canonical_items items)) "]")
    canonical_json null = digest.scalar_text null
    canonical_json (bool b) = digest.scalar_text (bool b)
    canonical_json (number n) = digest.scalar_text (number n)
    canonical_json (string s) = digest.scalar_text (string s)

    pub canonical_items : Items → List String
    canonical_items no_items = []
    canonical_items (item v rest) = canonical_json v ∷ canonical_items rest

    pub canonical_members : Members → List (String × String)
    canonical_members no_members = []
    canonical_members (member k v rest) = (k, canonical_json v) ∷ canonical_members rest

  unfoldable pub compute_idempotency_key : String → Json → String
  unfolding canonical_json
  compute_idempotency_key kind input_json =
      digest.sha256_hex (append kind (append ":" (canonical_json input_json)))
