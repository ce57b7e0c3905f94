-- ===== src/Capability/Tests.antt =====
-- The theorems about capabilities at a sample device.
use st_device_sdk_c.Prelude.{◌≡◌, refl, true, false, ◌&&◌, if◌then◌else◌, List, [], ◌∷◌, none, some}
use st_device_sdk_c.Prelude.Int.{negsuc}
use st_device_sdk_c.Prelude.Texts.{codes}
use st_device_sdk_c.Errors.{error_none}
use st_device_sdk_c.Core.Context.{cloud_connected, rate_limited}
use st_device_sdk_c.Core.Event.{CapValue}
use st_device_sdk_c.Core.Monad.{World}
use st_device_sdk_c.Core.Sample.{good_env, context_in}
use st_device_sdk_c.Util.Url.{after_prefix}
use st_device_sdk_c.Capability.{
  text_eq, CapHandle, is_registered, cmd_set_cb, find_handle, process_cmd, main_component,
}
use st_device_sdk_c.Capability.Dispatch.{is_at, process_cmd-cmd_set_cb}
use st_device_sdk_c.Capability.Events.{
  EvtData, AttrData, component_default, attr_custom, attr_null, send_attr,
}
use st_device_sdk_c.Capability.Noti.{rate_limit_break_time, accept, noti_rate_limit_cb}
use st_device_sdk_c.Capability.Break.{rate_limit_break}

-- A switch that knows "on".
abbrev switch : CapHandle
switch = record {
  capability = codes "switch";
  component = main_component;
  cmd_list = record { cmd_type = some (codes "on"); cmd_cb = 1; usr_data = 0 } ∷ [];
  init_cb = 0;
  init_usr_data = 0;
}

off_is_new : is_registered (codes "off") switch.cmd_list ≡ false
unfolding is_registered after_prefix
off_is_new = refl

process_cmd-cmd_set_cb_example :
    (handles' : List CapHandle) × (cmd_set_cb
        (record { command = true; name = true; new_list = true })
        (some 0)
        (some (codes "off"))
        2
        7
        (switch ∷ [])
      ≡ (error_none, handles'))
    × (process_cmd handles' main_component (codes "switch") (codes "off") ≡ (
        if is_at 0 (find_handle 0 (switch ∷ []) main_component (codes "switch"))
          && text_eq (codes "off") (codes "off")
        then some (error_none, some (0, 2, 7))
        else process_cmd (switch ∷ []) main_component (codes "switch") (codes "off")))
process_cmd-cmd_set_cb_example =
    process_cmd-cmd_set_cb (switch ∷ []) 0 switch (codes "off") 2 7 main_component (codes "switch")
      (codes "off") refl refl off_is_new

abbrev connected : World
connected = record {
  ctx = record (context_in cloud_connected) { evt_mqttcli = true };
  queue = [];
  trace = [];
}

abbrev event : EvtData
event = record {
  ref_cap = some (record { ctx = 1; component = main_component; capability = codes "switch" });
  evt_type = codes "switch";
  evt_value = CapValue.string (codes "on");
  evt_unit = none;
  evt_value_data = none;
  command_id = none;
  displayed = none;
  state_change = true;
}

abbrev attr : AttrData
attr = record {
  component_type = component_default;
  attr_type = attr_custom (some (codes "switch")) (some (codes "switch"));
  value = attr_null;
  unit = none;
  extra = none;
  support_history = true;
  state_change = false;
  related_command_id = none;
}

rate_limit_break_example :
    let w' = (accept good_env (some rate_limited) connected).1 in
    (w'.ctx.rate_limit ≡ true)
    × (w'.ctx.rate_limit_timeout ≡ some rate_limit_break_time)
    × (send_attr good_env (some event ∷ []) w' ≡ (negsuc 0, w'))
    × ((noti_rate_limit_cb w').1.ctx.rate_limit ≡ false)
rate_limit_break_example =
    rate_limit_break good_env
      (record { ctx = 1; component = main_component; capability = codes "switch" })
      (some event ∷ []) connected ((λ t. refl), (λ t. refl)) refl
