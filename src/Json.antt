-- ===== src/Json.antt =====
-- What the program uses of Go's encoding/json: documents, their texts, and the reading of a document
-- into a struct.
pub mod Utf8
pub mod Parse
pub mod Render
pub mod Decode
pub mod Ascii
mod Tests
use ahlyx_labs.Common.{Bool, Bytes}

-- A document. A number is its literal, and the members of an object stand in the order of the text.
mutual
  pub data Json : Type 0 where
    null : Json
    bool : Bool → Json
    number : Bytes → Json
    text : Bytes → Json
    array : Items → Json
    object : Members → Json

  pub data Items : Type 0 where
    nil : Items
    cons : Json → Items → Items

  pub data Members : Type 0 where
    end : Members
    member : Bytes → Json → Members → Members
