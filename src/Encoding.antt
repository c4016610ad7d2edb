-- ===== src/Encoding.antt =====
-- JSON values, as package encoding/json writes and reads them. A byte slice of the source is the
-- value that a JSON decoder reads in it, or is malformed.
use go_order_service.Prelude.{String, Bool}
use go_order_service.Prelude.Int.{ℤ}

mutual
  pub data Json : Type 0 where
    null : Json
    boolean : Bool → Json
    num : ℤ → Json
    str : String → Json
    arr : Items → Json
    obj : Fields → Json

  pub data Items : Type 0 where
    nil : Items
    cons : Json → Items → Items

  pub data Fields : Type 0 where
    end : Fields
    field : String → Json → Fields → Fields

-- `[]byte` where the source marshals to it or unmarshals from it.
pub data Bytes : Type 0 where
  encoded : Json → Bytes
  malformed : Bytes
