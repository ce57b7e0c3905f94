-- ===== src/Core/Boot/Status.antt =====
-- Lemmas on the state that the device starts in (src/iot_main.c).
use st_device_sdk_c.Prelude.{
  ◌≡◌, ◌↔◌, Bool, true, false, not, ℕ, List, [], ◌∷◌, Option, none, some, ◌&&◌, ◌==◌, if◌then◌else◌,
}
use st_device_sdk_c.Prelude.Int.{is_negative}
use st_device_sdk_c.Errors.{error_none}
use st_device_sdk_c.Core.Context.{
  Context, WifiProv, CloudProv, IotState, initialized, prov_enter, prov_done, cloud_disconnected,
}
use st_device_sdk_c.Core.Monad.{
  Env, M, pure, modify, effect, ◌>>◌, bsp_ble_set_onboarding_completion,
}
use st_device_sdk_c.Core.Monad.Keeps.{Keeps}
use st_device_sdk_c.Core.Monad.Ends.{Ends}
use st_device_sdk_c.Core.Easysetup.{Config}
use st_device_sdk_c.Core.Update.Transition.{Transition}
use st_device_sdk_c.Core.Boot.{Stored}

abbrev pub is_some {ℓ} : {A : Type ℓ} → Option A → Bool
is_some none = false
is_some (some a) = true

abbrev pub is_filled : List ℕ → Bool
is_filled [] = false
is_filled (c ∷ cs) = true

abbrev pub has_broker : WifiProv → CloudProv → Bool
has_broker wifi cloud =
    is_filled wifi.ssid && (is_some cloud.broker_url && not (is_negative cloud.broker_port))

-- The provisioning data is read, with the name of a network, the URL of a broker and a port that is
-- not negative, and the device id is read.
abbrev pub is_registered : Stored → Bool
is_registered stored =
    stored.prov.0 == error_none
    && (has_broker stored.prov.1 stored.prov.2 && stored.device_id.0 == error_none)

module _ (env : Env) (cfg : Config) (stored : Stored) where
  -- The state asked for goes with the flag that is left.
  abbrev Fits : Bool → IotState → Context → Type 0
  Fits done s c =
      Transition initialized s
      × (c.onboarding_complete ≡ done)
      × ((s ≡ prov_enter) ↔ (done ≡ false))

  -- The end of `registered_state`.
  finish : Bool → Bool → M IotState
  finish again ble = do
    modify (λ c. record c {
      iot_reg_data =
          if again
          then record c.iot_reg_data { self_reged = true }
          else record c.iot_reg_data { updated = true };
      onboarding_complete = true;
    })
    if ble then effect env (bsp_ble_set_onboarding_completion true) else pure tt
    pure (if again then prov_done else cloud_disconnected)
