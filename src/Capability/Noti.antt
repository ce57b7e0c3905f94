-- ===== src/Capability/Noti.antt =====
-- Notifications of the server (src/iot_capability.c): iot_noti_sub_cb, _iot_parse_noti_data and
-- _iot_noti_rate_limit_cb. The JSON library is an argument.
use st_device_sdk_c.Prelude.{
  ℕ, zero, suc, Bool, true, false, ◌&&◌, not, ◌==◌, if◌then◌else◌, List, [], ◌∷◌, Option, none,
  some,
}
use st_device_sdk_c.Prelude.Int.{ℤ, pos, negsuc}
use st_device_sdk_c.Prelude.Options.{is_none}
use st_device_sdk_c.Prelude.Texts.{codes}
use st_device_sdk_c.Core.Context.{
  Noti, dev_deleted, rate_limited, quota_reached, jwt_expired, preference_updated,
  notification_received,
}
use st_device_sdk_c.Core.Monad.{
  Env, M, pure, ◌>>=◌, ◌>>◌, gets, modify, effect, ask, call, malloc, system_set_time, timer_create,
  timer_start, timer_delete,
}
use st_device_sdk_c.Core.Post.{command_send}
use st_device_sdk_c.Capability.{starts_with}

-- What the code uses of the JSON library to read a notification. NULL is `none`.
pub record Json : Type 1 where
  pub Item : Type 0
  pub parse : List ℕ → Option Item
  pub get_object_item : Item → List ℕ → Option Item
  pub get_string_value : Item → Option (List ℕ)
  pub get_array_size : Item → ℤ

-- IOT_RATE_LIMIT_BREAK_TIME
abbrev pub rate_limit_break_time : ℕ
rate_limit_break_time = 60000

-- The number of members of a preference update, if it is positive.
abbrev pub positive : ℤ → Option ℕ
positive (pos zero) = none
positive (pos (suc n)) = some (suc n)
positive (negsuc n) = none

module _ (env : Env) where
  -- The break after a rate limit: an old timer is replaced.
  unfoldable pub start_break : M (Unit {0})
  start_break = do
    running ← gets (λ c. not (is_none c.rate_limit_timeout))
    if running then effect env timer_delete else pure tt
    made ← ask env (timer_create rate_limit_break_time)
    modify
        (λ c. record c { rate_limit_timeout = if made then some rate_limit_break_time else none })
    if not made then pure tt else do
      err ← call env timer_start
      if err == 0 then modify (λ c. record c { rate_limit = true }) else pure tt

  abbrev pub is_rate_limit : Noti → Bool
  is_rate_limit rate_limited = true
  is_rate_limit _ = false

  -- What iot_noti_sub_cb does with a notification that it could read.
  unfoldable pub accept : Option Noti → M (Unit {0})
  unfolding start_break
  accept none = pure tt
  accept (some noti) = do
    if is_rate_limit noti then start_break else pure tt
    _ ← command_send env (notification_received (some noti))
    pure tt

module _ (json : Json) (env : Env) where
  open json use {Item, parse, get_object_item, get_string_value, get_array_size}

  abbrev pub has_all : Item → List (List ℕ) → Bool
  has_all root [] = true
  has_all root (name ∷ names) = not (is_none (get_object_item root name)) && has_all root names

  -- A notification whose members `names` have to be there.
  abbrev pub counted : Item → List (List ℕ) → Noti → M (Option Noti)
  counted root names noti = pure (if has_all root names then some noti else none)

  abbrev pub preferences : Option Item → M (Option Noti)
  preferences none = pure none
  preferences (some values) = elim (positive (get_array_size values)) [
    | none ↦ pure none
    | some n ↦ do room ← ask env malloc; pure (if room then some (preference_updated n) else none)
  ]

  -- The comparisons of the type of the notification, in their order.
  unfoldable pub parse_type : Item → List ℕ → M (Option Noti)
  parse_type root name =
      if starts_with name (codes "device.deleted")
      then pure (some dev_deleted)
      else if starts_with name (codes "expired.jwt")
      then (if has_all root (codes "currentTime" ∷ [])
          then (do effect env system_set_time; pure (some jwt_expired))
          else pure none)
      else if starts_with name (codes "rate.limit.reached")
      then counted root
          (codes "count" ∷ codes "threshold" ∷ codes "remainingTime" ∷ codes "sequenceNumber" ∷ [])
          rate_limited
      else if starts_with name (codes "quota.reached")
      then counted root (codes "used" ∷ codes "limit" ∷ []) quota_reached
      else if starts_with name (codes "device.preferences")
      then preferences (get_object_item root (codes "values"))
      else pure none

  abbrev pub event_name : Item → Option (List ℕ)
  event_name root = elim (get_object_item root (codes "event")) [
    | none ↦ none
    | some event ↦ get_string_value event
  ]

  abbrev pub parse_named : Item → Option (List ℕ) → M (Option Noti)
  parse_named root none = pure none
  parse_named root (some name) = parse_type root name

  abbrev pub parse_root : Option Item → M (Option Noti)
  parse_root none = pure none
  parse_root (some root) = parse_named root (event_name root)

  -- _iot_parse_noti_data: `none` for IOT_ERROR_BAD_REQ. What the counts say is for the application.
  unfoldable pub parse_noti_data : List ℕ → M (Option Noti)
  unfolding parse_type
  parse_noti_data payload = parse_root (parse payload)

  -- iot_noti_sub_cb, on a context
  unfoldable pub noti_sub_cb : Option (List ℕ) → M (Unit {0})
  noti_sub_cb none = pure tt
  noti_sub_cb (some payload) = do noti ← parse_noti_data payload; accept env noti

-- _iot_noti_rate_limit_cb, on the timer's thread
unfoldable pub noti_rate_limit_cb : M (Unit {0})
noti_rate_limit_cb = modify (λ c. record c { rate_limit = false })
