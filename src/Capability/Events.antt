-- ===== src/Capability/Events.antt =====
-- Events of attributes (src/iot_capability.c): st_cap_send_attr and st_cap_send_attr_v2.
use st_device_sdk_c.Prelude.{
  ℕ, zero, suc, ◌+◌, ◌%◌, ◌^◌, Bool, true, false, ◌&&◌, not, ◌==◌, if◌then◌else◌, List, [], ◌∷◌,
  Option, none, some,
}
use st_device_sdk_c.Prelude.Int.{ℤ, pos, negsuc}
use st_device_sdk_c.Errors.{IotError, bad_req, invalid_args, mqtt_publish_fail}
use st_device_sdk_c.Core.Context.{IotState, cloud_connected, Context}
use st_device_sdk_c.Core.Event.{CapValue, unknown_type, EventItem}
use st_device_sdk_c.Core.Monad.{
  Env, M, pure, ◌>>=◌, ◌>>◌, gets, modify, ask, call, json_print, get_time_in_ms,
  mqtt_publish_async,
}
use st_device_sdk_c.Capability.{main_component}

-- What an event needs of the handle that it belongs to. The context is a number, and 0 is NULL.
pub record CapRef : Type 0 where
  pub ctx : ℕ
  pub component : List ℕ
  pub capability : List ℕ

-- iot_cap_evt_data_t
pub record EvtData : Type 0 where
  pub ref_cap : Option CapRef
  pub evt_type : List ℕ
  pub evt_value : CapValue
  pub evt_unit : Option (List ℕ)
  pub evt_value_data : Option (List ℕ)
  pub command_id : Option (List ℕ)
  pub displayed : Option Bool
  pub state_change : Bool

-- MAX_SQNUM
abbrev pub max_sqnum : ℕ
max_sqnum = 2147483647

-- The next sequence number: `& MAX_SQNUM` keeps 31 bits.
abbrev pub next_sequence_num : ℕ → ℕ
next_sequence_num n = ((if n == max_sqnum then 0 else n) + 1) % 2 ^ 31

-- An error code as the `int` that is returned.
abbrev pub error_code : IotError → ℤ
error_code zero = pos 0
error_code (suc n) = negsuc n

abbrev pub is_connected : IotState → Bool
is_connected cloud_connected = true
is_connected _ = false

abbrev pub can_send : Context → Bool
can_send c = is_connected c.curr_state && (c.evt_mqttcli && not c.rate_limit)

abbrev pub is_known : CapValue → Bool
is_known unknown_type = false
is_known _ = true

-- _iot_make_evt_data
unfoldable pub make_evt_data : Env → CapRef → EvtData → ℕ → M (Option EventItem)
make_evt_data env r e seq_num = if not (is_known e.evt_value) then pure none else do
  err ← call env get_time_in_ms
  pure (
      some (record {
        command_id = e.command_id;
        component = r.component;
        capability = r.capability;
        attribute = e.evt_type;
        value = some e.evt_value;
        unit = e.evt_unit;
        extra = e.evt_value_data;
        displayed = e.displayed;
        sequence_number = seq_num;
        timestamped = err == 0;
        state_change = e.state_change;
      }))

-- One event: none of another context, or of no handle.
unfoldable pub make_item : Env → ℕ → EvtData → Option CapRef → ℕ → M (Option EventItem)
make_item env ctx e none seq_num = pure none
make_item env ctx e (some r) seq_num =
    if r.ctx == ctx then make_evt_data env r e seq_num else pure none

abbrev pub cons_items : EventItem → Option (List EventItem) → Option (List EventItem)
cons_items i none = none
cons_items i (some is) = some (i ∷ is)

-- JSON_ADD_ITEM_TO_ARRAY and the rest of the loop, or the return where there is no object.
unfoldable pub then_items :
    Option EventItem → M (Option (List EventItem)) → M (Option (List EventItem))
then_items none rest = pure none
then_items (some i) rest = do items ← rest; pure (cons_items i items)

-- The loop over the events of one call, all of which belong to the context `ctx`: `none` from the
-- first that does not, or that has no JSON object, on.
unfoldable pub make_items : Env → ℕ → List (Option EvtData) → ℕ → M (Option (List EventItem))
make_items env ctx [] seq_num = pure (some [])
make_items env ctx (none ∷ es) seq_num = pure none
make_items env ctx (some e ∷ es) seq_num = do
  item ← make_item env ctx e e.ref_cap seq_num
  then_items item (make_items env ctx es seq_num)

-- From the objects on: the payload is printed and published.
unfoldable pub publish_items : Env → Option (List EventItem) → M ℤ
publish_items env none = pure (error_code bad_req)
publish_items env (some items) = do
  printed ← ask env json_print
  if not printed then pure (error_code bad_req) else do
    ret ← call env (mqtt_publish_async items)
    if ret == 0 then gets (λ c. pos c.event_sequence_num) else pure (error_code mqtt_publish_fail)

-- The part that both calls share, behind the tests of their arguments: the connection and the
-- rate limit, the number of the message, and its objects, made by `make` with that number.
unfoldable pub send_numbered : Env → (ℕ → M (Option (List EventItem))) → M ℤ
send_numbered env make = do
  ready ← gets can_send
  if not ready then pure (error_code bad_req) else do
    modify (λ c. record c { event_sequence_num = next_sequence_num c.event_sequence_num })
    seq_num ← gets (λ c. c.event_sequence_num)
    items ← make seq_num
    publish_items env items

-- The first event's handle, if it has a context.
abbrev pub first_ref : List (Option EvtData) → Option CapRef
first_ref [] = none
first_ref (none ∷ es) = none
first_ref (some e ∷ es) = elim e.ref_cap [
  | none ↦ none
  | some r ↦ if r.ctx == 0 then none else some r
]

-- st_cap_send_attr: an error code, or the number of the message. The context is that of the first
-- event.
unfoldable pub send_attr : Env → List (Option EvtData) → M ℤ
send_attr env events = elim (first_ref events) [
  | none ↦ pure (error_code invalid_args)
  | some r ↦ send_numbered env (make_items env r.ctx events)
]

-- st_component_type, with the name of a custom component
pub data ComponentType : Type 0 where
  component_default : ComponentType
  component_custom : Option (List ℕ) → ComponentType
  component_other : ComponentType

-- st_attr_type, with the names of the capability and of the attribute
pub data AttrType : Type 0 where
  attr_custom : Option (List ℕ) → Option (List ℕ) → AttrType
  attr_other : AttrType

-- st_data, with the value where the code reads it
pub data AttrValue : Type 0 where
  attr_string : List ℕ → AttrValue
  attr_number : ℕ → AttrValue
  attr_boolean : Bool → AttrValue
  attr_raw_json : List ℕ → AttrValue
  attr_json_object attr_json_array attr_null : AttrValue

-- st_attr_data
pub record AttrData : Type 0 where
  pub component_type : ComponentType
  pub attr_type : AttrType
  pub value : AttrValue
  pub unit : Option (List ℕ)
  pub extra : Option (List ℕ)
  pub support_history : Bool
  pub state_change : Bool
  pub related_command_id : Option (List ℕ)

abbrev pub component_name : ComponentType → Option (List ℕ)
component_name component_default = some main_component
component_name (component_custom name) = name
component_name component_other = none

abbrev pub attr_names : AttrType → Option (List ℕ × List ℕ)
attr_names (attr_custom (some capability) (some attribute)) = some (capability, attribute)
attr_names _ = none

abbrev pub value_of : AttrValue → Option CapValue
value_of (attr_string s) = some (CapValue.string s)
value_of (attr_number n) = some (CapValue.number n)
value_of (attr_boolean b) = some (CapValue.boolean b)
value_of (attr_raw_json s) = some (CapValue.json_object s)
value_of attr_json_object = none
value_of attr_json_array = none
value_of attr_null = none

unfoldable pub attr_item :
    Env → AttrData → ℕ → Option (List ℕ) → Option (List ℕ × List ℕ) → M (Option EventItem)
attr_item env a seq_num none names = pure none
attr_item env a seq_num (some component) none = pure none
attr_item env a seq_num (some component) (some (capability, attribute)) = do
  err ← call env get_time_in_ms
  pure (
      some (record {
        command_id = a.related_command_id;
        component = component;
        capability = capability;
        attribute = attribute;
        value = value_of a.value;
        unit = a.unit;
        extra = a.extra;
        displayed = if a.support_history then none else some false;
        sequence_number = seq_num;
        timestamped = err == 0;
        state_change = a.state_change;
      }))

-- _iot_make_evt_data_v2
unfoldable pub make_evt_data_v2 : Env → AttrData → ℕ → M (Option EventItem)
unfolding attr_item
make_evt_data_v2 env a seq_num =
    attr_item env a seq_num (component_name a.component_type) (attr_names a.attr_type)

unfoldable pub make_items_v2 : Env → List (Option AttrData) → ℕ → M (Option (List EventItem))
make_items_v2 env [] seq_num = pure (some [])
make_items_v2 env (none ∷ others) seq_num = pure none
make_items_v2 env (some a ∷ others) seq_num = do
  item ← make_evt_data_v2 env a seq_num
  then_items item (make_items_v2 env others seq_num)

-- st_cap_send_attr_v2; `has_ctx`: is the context there.
unfoldable pub send_attr_v2 : Env → Bool → List (Option AttrData) → M ℤ
send_attr_v2 env false attrs = pure (error_code invalid_args)
send_attr_v2 env true [] = pure (error_code invalid_args)
send_attr_v2 env true (a ∷ others) = send_numbered env (make_items_v2 env (a ∷ others))
