-- ===== src/Capability.antt =====
-- Capabilities (src/iot_capability.c): the handles that the application makes, the callbacks that
-- it registers for commands, and their dispatch. A text is the list of its characters up to the
-- NUL; a callback and its user data are numbers, and 0 is NULL.
pub mod Dispatch
pub mod Events
pub mod Numbering
pub mod Noti
pub mod Break
mod Tests
use st_device_sdk_c.Prelude.{
  ℕ, zero, suc, ◌+◌, Bool, true, false, ◌&&◌, ◌||◌, not, ◌==◌, if◌then◌else◌, List, [], ◌∷◌, ◌++◌,
  length, get_elem?, set_at, Option, none, some,
}
use st_device_sdk_c.Prelude.Options.{◌>>=◌, is_none}
use st_device_sdk_c.Errors.{IotError, error_none, bad_req, invalid_args, mem_alloc}
use st_device_sdk_c.Util.Url.{after_prefix}

-- strcmp of two texts is 0.
abbrev pub text_eq : List ℕ → List ℕ → Bool
text_eq [] [] = true
text_eq [] (d ∷ ds) = false
text_eq (c ∷ cs) [] = false
text_eq (c ∷ cs) (d ∷ ds) = c == d && text_eq cs ds

-- iot_cap_cmd_set_t; a name that could not be copied is `none`.
pub record CmdSet : Type 0 where
  pub cmd_type : Option (List ℕ)
  pub cmd_cb : ℕ
  pub usr_data : ℕ

-- struct iot_cap_handle
pub record CapHandle : Type 0 where
  pub capability : List ℕ
  pub component : List ℕ
  pub cmd_list : List CmdSet
  pub init_cb : ℕ
  pub init_usr_data : ℕ

-- "main"
abbrev pub main_component : List ℕ
main_component = 109 ∷ 97 ∷ 105 ∷ 110 ∷ []

-- The allocations of st_cap_handle_init, in their order: which succeed.
pub record InitMemory : Type 0 where
  pub handle : Bool
  pub component : Bool
  pub capability : Bool
  pub new_list : Bool

abbrev pub component_or_main : Option (List ℕ) → List ℕ
component_or_main none = main_component
component_or_main (some c) = c

-- `ctx` is the list of the context's handles, and a handle is its position there: the list only
-- grows at its end.
unfoldable pub handle_init :
    InitMemory
    → Option (List CapHandle)
    → Option (List ℕ)
    → Option (List ℕ)
    → ℕ
    → ℕ
    → Option ℕ × Option (List CapHandle)
handle_init mem none component capability init_cb usr_data = (none, none)
handle_init mem (some handles) component none init_cb usr_data = (none, some handles)
handle_init mem (some handles) component (some capability) init_cb usr_data =
    if mem.handle && (mem.component && (mem.capability && mem.new_list))
    then (
      some (length handles),
      some (
          handles
          ++ record {
            capability = capability;
            component = component_or_main component;
            cmd_list = [];
            init_cb = init_cb;
            init_usr_data = usr_data;
          }
            ∷ []),
    )
    else (none, some handles)

-- `!strncmp(cmd_str, needle_str, strlen(needle_str))`: does the name start with the needle?
abbrev pub starts_with : List ℕ → List ℕ → Bool
starts_with name needle = not (is_none (after_prefix needle name))

-- The loop that looks for a command of the same name.
unfoldable pub is_registered : List ℕ → List CmdSet → Bool
is_registered needle [] = false
is_registered needle (c ∷ cs) =
    elim c.cmd_type [ none ↦ false | some name ↦ starts_with name needle ]
    || is_registered needle cs

-- The allocations of st_cap_cmd_set_cb: the entry, the copy of its name, and the list node.
pub record SetMemory : Type 0 where
  pub command : Bool
  pub name : Bool
  pub new_list : Bool

abbrev pub set_checked :
    SetMemory → ℕ → CapHandle → List ℕ → ℕ → ℕ → List CapHandle → IotError × List CapHandle
set_checked mem i h name cmd_cb usr_data handles =
    if is_registered name h.cmd_list
    then (invalid_args, handles)
    else if not (mem.command && mem.new_list)
    then (mem_alloc, handles)
    else (
      error_none,
      set_at handles i (record h {
        cmd_list =
            record {
              cmd_type = if mem.name then some name else none;
              cmd_cb = cmd_cb;
              usr_data = usr_data;
            }
            ∷ h.cmd_list;
      }),
    )

-- st_cap_cmd_set_cb. The handle is one of the list; NULL arguments are `none` and 0.
unfoldable pub cmd_set_cb :
    SetMemory → Option ℕ → Option (List ℕ) → ℕ → ℕ → List CapHandle → IotError × List CapHandle
unfolding is_registered
cmd_set_cb mem none cmd_type cmd_cb usr_data handles = (invalid_args, handles)
cmd_set_cb mem (some i) none cmd_cb usr_data handles = (invalid_args, handles)
cmd_set_cb mem (some i) (some name) cmd_cb usr_data handles =
    if cmd_cb == 0 then (invalid_args, handles) else elim (get_elem? handles i) [
      | none ↦ (invalid_args, handles)
      | some h ↦ set_checked mem i h name cmd_cb usr_data handles
    ]

-- The first handle of the component and the capability, with its position.
unfoldable pub find_handle : ℕ → List CapHandle → List ℕ → List ℕ → Option (ℕ × CapHandle)
find_handle i [] component capability = none
find_handle i (h ∷ hs) component capability =
    if text_eq component h.component && text_eq capability h.capability
    then some (i, h)
    else find_handle (i + 1) hs component capability

-- A call of a command's callback: the handle, the callback and its user data.
abbrev pub Invocation : Type 0
Invocation = ℕ × ℕ × ℕ

-- The loop over the commands of a handle. A name that is NULL is not compared: that is a fault,
-- the outer `none`.
unfoldable pub find_command : ℕ → List CmdSet → List ℕ → Option (Option Invocation)
find_command i [] name = some none
find_command i (c ∷ cs) name = elim c.cmd_type [
  | none ↦ none
  | some cmd_type ↦ elim (text_eq name cmd_type) [
    | true ↦ some (some (i, c.cmd_cb, c.usr_data))
    | false ↦ find_command i cs name
  ]
]

abbrev pub with_code : Option Invocation → IotError × Option Invocation
with_code none = (bad_req, none)
with_code (some called) = (error_none, some called)

-- What _iot_process_cmd does with the handle that it found.
unfoldable pub process_found :
    Option (ℕ × CapHandle) → List ℕ → Option (IotError × Option Invocation)
process_found none command = some (bad_req, none)
process_found (some (i, h)) command = do
  called ← find_command i h.cmd_list command
  some (with_code called)

-- _iot_process_cmd: the code, and the callback that is called.
unfoldable pub process_cmd :
    List CapHandle → List ℕ → List ℕ → List ℕ → Option (IotError × Option Invocation)
process_cmd handles component capability command =
    process_found (find_handle 0 handles component capability) command

-- iot_cap_call_init_cb: the calls, each of a handle's callback with its user data.
unfoldable pub call_init_cb : ℕ → List CapHandle → List Invocation
call_init_cb i [] = []
call_init_cb i (h ∷ hs) =
    let rest = call_init_cb (i + 1) hs in
    if h.init_cb == 0 then rest else (i, h.init_cb, h.init_usr_data) ∷ rest
