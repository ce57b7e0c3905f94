-- ===== src/Util/Queue/Spec.antt =====
-- An abstract queue, a list, for the linked queue of src/iot_util.c.
use st_device_sdk_c.Prelude.{
  Bool, true, false, List, [], ◌∷◌, ◌++◌, Option, none, some, if◌then◌else◌,
}
use st_device_sdk_c.Errors.{IotError, error_none, bad_req, mem_alloc, timeout}

module _ {ℓ} {A : Type ℓ} where
  -- The arguments tell whether the node and the item were allocated, and whether the lock was taken.
  abbrev pub send : List A → A → Bool → Bool → Bool → IotError × List A
  send xs x node_ok item_ok locked =
      if node_ok
      then (if item_ok
          then (if locked then (error_none, xs ++ x ∷ []) else (timeout, xs))
          else (mem_alloc, xs))
      else (mem_alloc, xs)

  abbrev pub receive : List A → Bool → IotError × List A × Option A
  receive xs false = (timeout, xs, none)
  receive [] true = (bad_req, [], none)
  receive (x ∷ xs) true = (error_none, xs, some x)
