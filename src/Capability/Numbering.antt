-- ===== src/Capability/Numbering.antt =====
-- Lemmas on the numbers of event messages (src/iot_capability.c).
use st_device_sdk_c.Prelude.{
  ℕ, ◌≤◌, ◌<◌, ◌≡◌, ◌⊎◌, Bool, true, false, ◌&&◌, if◌then◌else◌, List, [], ◌∷◌, All, Option, none,
  some,
}
use st_device_sdk_c.Prelude.Int.{ℤ, pos}
use st_device_sdk_c.Errors.{bad_req, invalid_args, mqtt_publish_fail}
use st_device_sdk_c.Core.Context.{Context}
use st_device_sdk_c.Core.Event.{EventItem}
use st_device_sdk_c.Core.Monad.{Call, World, mqtt_publish_async}
use st_device_sdk_c.Capability.Events.{
  EvtData, CapRef, AttrData, max_sqnum, next_sequence_num, error_code, can_send, component_name,
  attr_names, value_of,
}

-- An object tells of an event of st_cap_send_attr.
abbrev pub TellsEvent : EvtData → EventItem → Type 0
TellsEvent e i =
    (r : CapRef) × (e.ref_cap ≡ some r)
    × (i.component ≡ r.component)
    × (i.capability ≡ r.capability)
    × (i.attribute ≡ e.evt_type)
    × (i.value ≡ some e.evt_value)

-- An object tells of an attribute of st_cap_send_attr_v2.
abbrev pub TellsAttr : AttrData → EventItem → Type 0
TellsAttr a i =
    (component_name a.component_type ≡ some i.component)
    × (attr_names a.attr_type ≡ some (i.capability, i.attribute))
    × (i.value ≡ value_of a.value)

-- The objects tell of all the events, in their order.
pub data TellsAll {A : Type 0} (Tells : A → EventItem → Type 0)
    : List (Option A) → List EventItem → Type 0 where
  told_all : TellsAll Tells [] []
  told_one :
      {e : A} {i : EventItem} {es : List (Option A)} {is : List EventItem}
      → Tells e i
      → TellsAll Tells es is
      → TellsAll Tells (some e ∷ es) (i ∷ is)

-- One object carries the number `n`, and is as `T` says.
abbrev CarriesOne : ℕ → (EventItem → Type 0) → Option EventItem → Type 0
CarriesOne n T none = Unit {0}
CarriesOne n T (some item) = (item.sequence_number ≡ n) × T item

-- All objects carry the number `n`, and they are as `P` says.
abbrev Carries : ℕ → (List EventItem → Type 0) → Option (List EventItem) → Type 0
Carries n P none = Unit {0}
Carries n P (some items) = All (λ (i : EventItem). i.sequence_number ≡ n) items × P items

-- What a maker of objects does: it leaves the context, and numbers its objects.
abbrev MakesOne : ℕ → (EventItem → Type 0) → World → Option EventItem × World → Type 0
MakesOne n T w (item, w') = (w'.ctx ≡ w.ctx) × CarriesOne n T item

abbrev Makes : ℕ → (List EventItem → Type 0) → World → Option (List EventItem) × World → Type 0
Makes n P w (items, w') = (w'.ctx ≡ w.ctx) × Carries n P items

abbrev pub is_empty {ℓ} : {A : Type ℓ} → List A → Bool
is_empty [] = true
is_empty (x ∷ xs) = false

-- The message was published, as the last call, with the number `n` in all its objects, which are as
-- `P` says, and the number was returned.
abbrev pub Published : ℕ → (List EventItem → Type 0) → ℤ × World → Type 0
Published n P (r, w) =
    (r ≡ pos n)
    × (items : List EventItem) × (before : List Call) × (w.trace
        ≡ mqtt_publish_async items ∷ before)
    × All (λ (i : EventItem). i.sequence_number ≡ n) items
    × P items

abbrev pub Failed : ℤ → Type 0
Failed r = (r ≡ error_code bad_req) ⊎ (r ≡ error_code mqtt_publish_fail)

-- What a call with arguments that are `valid` or not returns, and what becomes of the context.
abbrev pub Numbered : Bool → (List EventItem → Type 0) → World → ℤ × World → Type 0
Numbered valid P w (r, w') =
    (((valid && can_send w.ctx) ≡ false)
      × (r ≡ error_code (if valid then bad_req else invalid_args))
      × (w' ≡ w))
    ⊎ (((valid && can_send w.ctx) ≡ true)
        × (w'.ctx
            ≡ record w.ctx { event_sequence_num = next_sequence_num w.ctx.event_sequence_num })
        × (0 < next_sequence_num w.ctx.event_sequence_num)
        × (next_sequence_num w.ctx.event_sequence_num ≤ max_sqnum)
        × (Published (next_sequence_num w.ctx.event_sequence_num) P (r, w') ⊎ Failed r))
