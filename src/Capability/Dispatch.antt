-- ===== src/Capability/Dispatch.antt =====
-- Which callback a command reaches (src/iot_capability.c), and which names can be registered.
use st_device_sdk_c.Prelude.{
  ℕ, zero, suc, ◌+◌, ◌<◌, ◌≡◌, refl, sym, ap, ◌∙◌, Bool, true, false, ◌&&◌, ◌==◌, Bool-cases, inl,
  inr, if◌then◌else◌, List, [], ◌∷◌, ◌++◌, get_elem?, set_at, Option, none, some, arith,
}
use st_device_sdk_c.Errors.{error_none, invalid_args}
use st_device_sdk_c.Util.Url.{after_prefix-append}
use st_device_sdk_c.Capability.{
  text_eq, CmdSet, CapHandle, SetMemory, is_registered, cmd_set_cb, find_handle, find_command,
  process_found, process_cmd,
}

-- Is the handle that was found the one at the position `i`?
abbrev pub is_at : ℕ → Option (ℕ × CapHandle) → Bool
is_at i none = false
is_at i (some (j, h)) = j == i

-- One more command for a handle.
abbrev added : CmdSet → CapHandle → CapHandle
added new h = record h { cmd_list = new ∷ h.cmd_list }

-- What is found after the handle at `i` got one more command.
abbrev replaced : ℕ → CmdSet → Option (ℕ × CapHandle) → Option (ℕ × CapHandle)
replaced i new none = none
replaced i new (some (j, h)) = if j == i then some (j, added new h) else some (j, h)

find_handle_later :
    (k i : ℕ) (new : CmdSet) (hs : List CapHandle) (component capability : List ℕ)
    → i < k
    → replaced i new (find_handle k hs component capability) ≡ find_handle k hs component capability
unfolding find_handle
find_handle_later k i new [] component capability before = refl
find_handle_later k i new (g ∷ hs) component capability before =
    elim (Bool-cases (text_eq component g.component && text_eq capability g.capability)) [
      | inl here ↦ rw here (ground arith)
      | inr later ↦ rw later (find_handle_later (k + 1) i new hs component capability (omega arith))
    ]

find_handle-set_at :
    (k i : ℕ) (hs : List CapHandle) (h : CapHandle) (new : CmdSet) (component capability : List ℕ)
    → get_elem? hs i ≡ some h
    → find_handle k (set_at hs i (added new h)) component capability
      ≡ replaced (k + i) new (find_handle k hs component capability)
unfolding find_handle
find_handle-set_at k i [] h new component capability e = ground (arith, e)
find_handle-set_at k zero (g ∷ hs) h new component capability e =
    let same : g ≡ h = ground (arith, e) in
    rw (← same)
      (elim (Bool-cases (text_eq component g.component && text_eq capability g.capability)) [
        | inl here ↦ rw here (ground arith)
        | inr later ↦
            rw later
              (sym (find_handle_later (k + 1) (k + 0) new hs component capability (omega arith)))
      ])
find_handle-set_at k (suc i) (g ∷ hs) h new component capability e =
    let next : k + suc i ≡ k + 1 + i = omega arith in
    rw next (elim (Bool-cases (text_eq component g.component && text_eq capability g.capability)) [
      | inl here ↦ rw here (ground arith)
      | inr later ↦ rw later (find_handle-set_at (k + 1) i hs h new component capability e)
    ])

process_found-replaced :
    (i : ℕ) (found : Option (ℕ × CapHandle)) (name command : List ℕ) (cb usr : ℕ)
    → process_found
        (replaced i (record { cmd_type = some name; cmd_cb = cb; usr_data = usr }) found)
        command
      ≡ (if is_at i found && text_eq command name
          then some (error_none, some (i, cb, usr))
          else process_found found command)
unfolding process_found find_command
process_found-replaced i none name command cb usr = refl
process_found-replaced i (some (j, h)) name command cb usr = ground arith

-- Registering a callback under a name that no registered name of the handle starts with succeeds,
-- given the memory. From then on that name, sent to the component and the capability of the handle,
-- calls this callback with its user data, if no other handle of the same names stands before it; every
-- other command is dispatched as before.
pub process_cmd-cmd_set_cb :
    (handles : List CapHandle) (i : ℕ) (h : CapHandle) (name : List ℕ) (cb usr : ℕ)
    (component capability command : List ℕ)
    → get_elem? handles i ≡ some h
    → (cb == 0) ≡ false
    → is_registered name h.cmd_list ≡ false
    → (handles' : List CapHandle) × (cmd_set_cb
          (record { command = true; name = true; new_list = true })
          (some i)
          (some name)
          cb
          usr
          handles
        ≡ (error_none, handles'))
      × (process_cmd handles' component capability command ≡ (
          if is_at i (find_handle 0 handles component capability) && text_eq command name
          then some (error_none, some (i, cb, usr))
          else process_cmd handles component capability command))
unfolding cmd_set_cb process_cmd
process_cmd-cmd_set_cb handles i h name cb usr component capability command at callable fresh =
    let new : CmdSet = record { cmd_type = some name; cmd_cb = cb; usr_data = usr } in
    (
      set_at handles i (added new h),
      rw (callable, at, fresh) refl,
      ap (λ (f : Option (ℕ × CapHandle)). process_found f command)
            (find_handle-set_at 0 i handles h new component capability at
              ∙ ap (λ (n : ℕ). replaced n new (find_handle 0 handles component capability))
                  (omega arith))
          ∙ process_found-replaced i (find_handle 0 handles component capability) name command cb
              usr,
    )

is_registered_prefix :
    (front back : List CmdSet) (c : CmdSet) (name suffix : List ℕ)
    → c.cmd_type ≡ some (name ++ suffix)
    → is_registered name (front ++ c ∷ back) ≡ true
unfolding is_registered
is_registered_prefix [] back c name suffix e = rw (e, after_prefix-append name suffix) refl
is_registered_prefix (d ∷ front) back c name suffix e =
    ground (arith, is_registered_prefix front back c name suffix e)

-- A name that is the start of a registered name of the handle is refused, even where it is another
-- name, and nothing is registered.
pub prefix_refused :
    (mem : SetMemory) (handles : List CapHandle) (i : ℕ) (h : CapHandle) (front back : List CmdSet)
    (c : CmdSet) (name suffix : List ℕ) (cb usr : ℕ)
    → get_elem? handles i ≡ some h
    → h.cmd_list ≡ front ++ c ∷ back
    → c.cmd_type ≡ some (name ++ suffix)
    → cmd_set_cb mem (some i) (some name) cb usr handles ≡ (invalid_args, handles)
unfolding cmd_set_cb
prefix_refused mem handles i h front back c name suffix cb usr at list e =
    let taken : is_registered name h.cmd_list ≡ true =
      rw list (is_registered_prefix front back c name suffix e) in
    elim (Bool-cases (cb == 0)) [
      | inl null ↦ rw null refl
      | inr callable ↦ rw (callable, at, taken) refl
    ]
