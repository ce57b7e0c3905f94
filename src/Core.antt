-- ===== src/Core.antt =====
-- The core task of the SDK (src/iot_main.c, with the requests of src/iot_api.c that it makes).
pub mod Context
pub mod Event
pub mod Monad
pub mod Post
pub mod Ecode
pub mod Easysetup
pub mod Wifi
pub mod Update
pub mod Connect
pub mod Registering
pub mod Connecting
pub mod Command
pub mod Timeouts
pub mod Boot
pub mod Start
pub mod Sample
mod Tests
