-- ===== src/Core/Event.antt =====
-- The content of a device event, as the JSON object for the cloud holds it (src/iot_capability.c).
use st_device_sdk_c.Prelude.{ℕ, Bool, List, Option}
use st_device_sdk_c.Prelude.Int.{ℤ}

-- iot_cap_val_t and st_data. A double is its 64 bits; a JSON object is its text, which the JSON
-- library reads. `unknown_type` is any other type.
pub data CapValue : Type 0 where
  boolean : Bool → CapValue
  integer : ℤ → CapValue
  number : ℕ → CapValue
  string : List ℕ → CapValue
  str_array : List (List ℕ) → CapValue
  json_object : List ℕ → CapValue
  unknown_type : CapValue

-- One member of "deviceEvents"; `timestamped` says that "timestamp" is there.
pub record EventItem : Type 0 where
  pub command_id : Option (List ℕ)
  pub component : List ℕ
  pub capability : List ℕ
  pub attribute : List ℕ
  pub value : Option CapValue
  pub unit : Option (List ℕ)
  pub extra : Option (List ℕ)
  pub displayed : Option Bool
  pub sequence_number : ℕ
  pub timestamped : Bool
  pub state_change : Bool
