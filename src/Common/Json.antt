-- ===== src/Common/Json.antt =====
-- `serde_json::Value`, by the constructors that the crates build and match on.
use ensurer_v.Prelude.{Bool, String}

-- A number is held by its text.
mutual
  pub data Json : Type 0 where
    null : Json
    bool : Bool → Json
    number : String → Json
    string : String → Json
    array : Items → Json
    object : Members → Json

  pub data Items : Type 0 where
    no_items : Items
    item : Json → Items → Items

  pub data Members : Type 0 where
    no_members : Members
    member : String → Json → Members → Members
