-- ===== src/Core/Post/Frame.antt =====
-- Lemmas on iot_command_send and iot_state_update (src/iot_main.c, src/iot_api.c).
use st_device_sdk_c.Core.Context.{Command, Context}
use st_device_sdk_c.Core.Monad.{Env}
use st_device_sdk_c.Core.Monad.Keeps.{Keeps, keeps_rules}
use st_device_sdk_c.Core.Post.{put_device_work, command_send}

module _ {K : Type 0} {f : Context → K} (env : Env) where
  pub put_device_work-Keeps : (cmd : Command) → Keeps f (put_device_work env cmd)
  unfolding put_device_work
  put_device_work-Keeps cmd = search keeps_rules depth 12

  pub command_send-Keeps : (cmd : Command) → Keeps f (command_send env cmd)
  unfolding command_send
  command_send-Keeps cmd = search (keeps_rules, put_device_work-Keeps) depth 12
