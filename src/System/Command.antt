-- ===== src/System/Command.antt =====
-- The `$` commands: `system_execute_line` of system.c, with the control pins' interrupt and the
-- startup lines. The build has no safety door pin, so `system_check_safety_door_ajar` is false.
-- What the commands call in other modules is a record of functions on the machine, and a report
-- or a store is recorded as an effect.
pub mod Laws
use grbl_mega_plasma.Prelude.{
  ℕ, ◌+◌, ◌-◌, Bool, true, false, not, ◌||◌, ◌&&◌, ◌==◌, ltb, Option, none, some, List, [], ◌∷◌,
  if◌then◌else◌, get_or, take,
}
use grbl_mega_plasma.System.{State, ExecFlag, Machine, set_exec_state_flag}
use grbl_mega_plasma.System.Reset.{mc_reset}

-- `STATUS_*`; a code that another function returns is passed on.
pub data Status : Type 0 where
  status_ok bad_number_format invalid_statement idle_error setting_disabled : Status
  returned : ℕ → Status

-- A report, or a store in the settings.
pub data Effect : Type 0 where
  grbl_help grbl_settings gcode_modes ngc_parameters build_info : Effect
  message_enabled message_disabled message_alarm_unlock message_restore_defaults : Effect
  startup_message : ℕ → Effect
  read_fail : Effect
  startup_line : ℕ → List ℕ → Effect
  store_build_info : List ℕ → Effect
  store_startup_line : ℕ → List ℕ → Effect
  restore : ℕ → Effect
  st_go_idle : Effect

-- The firmware's state as far as the commands reach, with the effects, newest first.
pub record Console : Type 0 where
  pub machine : Machine
  pub analog_set_val : ℕ
  pub effects : List Effect

-- The functions of other modules: `gc_execute_line` with its status code (0 is STATUS_OK),
-- `mc_homing_cycle` for all axes, `settings_read_startup_line`, `read_float` as the number with the
-- position behind it, the number's integer part and whether it is above 255,
-- `settings_store_global_setting`, and `atoi`. `homing_enable` is the flag of the settings.
pub record Services {ℓ} (F : Type ℓ) : Type ℓ where
  pub gc_execute_line : List ℕ → Machine → ℕ × Machine
  pub mc_homing_cycle : Machine → Machine
  pub settings_read_startup_line : ℕ → Option (List ℕ)
  pub read_float : List ℕ → ℕ → Option (F × ℕ)
  pub trunc : F → ℕ
  pub above_255 : F → Bool
  pub settings_store_global_setting : ℕ → F → ℕ
  pub atoi : List ℕ → ℕ
  pub homing_enable : Bool

abbrev pub effect : Effect → Console → Console
effect x k = record k { effects = x ∷ k.effects }

abbrev pub set_state : State → Console → Console
set_state s k = record k {
  machine = record (k.machine) { sys = record (k.machine.sys) { state = s } };
}

abbrev pub reset : Console → Console
reset k = record k { machine = mc_reset k.machine }

-- ISR(CONTROL_INT_vect), for the pins that are active.
unfoldable pub control_isr : Bool → Bool → Bool → Machine → Machine
control_isr reset_pin start_pin hold_pin m =
    let m1 = if reset_pin then mc_reset m else m in
    let m2 = if start_pin then set_exec_state_flag ExecFlag.cycle_start m1 else m1 in
    if hold_pin then set_exec_state_flag ExecFlag.feed_hold m2 else m2

-- One startup line.
unfoldable pub execute_startup_line {ℓ} : {F : Type ℓ} → Services F → ℕ → Console → Console
execute_startup_line ops n k = elim (ops.settings_read_startup_line n) [
  | none ↦ effect read_fail k
  | some line ↦
      if get_or line 0 0 == 0
      then k
      else let (code, m) = ops.gc_execute_line line k.machine in
        effect (startup_message code) (record k { machine = m })
]

-- `N_STARTUP_LINE` is 2.
unfoldable pub system_execute_startup {ℓ} : {F : Type ℓ} → Services F → Console → Console
system_execute_startup ops k = execute_startup_line ops 1 (execute_startup_line ops 0 k)

-- `$J=`
unfoldable pub jog {ℓ} : {F : Type ℓ} → Services F → List ℕ → Console → Status × Console
jog ops line k =
    let run : Status × Console =
      (let (code, m) = ops.gc_execute_line line k.machine in
        (returned code, record k { machine = m })) in
    let checked : Status × Console =
      if get_or line 2 0 == b'=' then run else (invalid_statement, k) in
    elim k.machine.sys.state [ State.idle ↦ checked | State.jog ↦ checked | _ ↦ (idle_error, k) ]

-- `$$`, `$G`, `$C` and `$X`
unfoldable pub view {ℓ} : {F : Type ℓ} → Services F → ℕ → Console → Status × Console
view ops c k =
    if c == b'$'
    then elim k.machine.sys.state [
      | State.cycle ↦ (idle_error, k)
      | State.hold ↦ (idle_error, k)
      | _ ↦ (status_ok, effect grbl_settings k)
    ]
    else if c == b'G'
    then (status_ok, effect gcode_modes k)
    else if c == b'C'
    then elim k.machine.sys.state [
      | State.check_mode ↦ (status_ok, effect message_disabled (reset k))
      | State.idle ↦ (status_ok, effect message_enabled (set_state State.check_mode k))
      | _ ↦ (idle_error, k)
    ]
    else elim k.machine.sys.state [
      | State.alarm ↦ (status_ok, set_state State.idle (effect message_alarm_unlock k))
      | _ ↦ (status_ok, k)
    ]

-- `$H`
unfoldable pub home {ℓ} : {F : Type ℓ} → Services F → List ℕ → Console → Status × Console
home ops line k =
    if not ops.homing_enable
    then (setting_disabled, k)
    else let k1 = set_state State.homing k in
      if not (get_or line 2 0 == 0)
      then (invalid_statement, k1)
      else let k2 = record k1 { machine = ops.mc_homing_cycle k1.machine } in
        if k2.machine.sys.abort
        then (status_ok, k2)
        else (status_ok, system_execute_startup ops (effect st_go_idle (set_state State.idle k2)))

-- `$SLP`
unfoldable pub sleep : List ℕ → Console → Status × Console
sleep line k =
    if not (get_or line 2 0 == b'L')
      || (not (get_or line 3 0 == b'P') || not (get_or line 4 0 == 0))
    then (invalid_statement, k)
    else (status_ok, record k { machine = set_exec_state_flag ExecFlag.sleep k.machine })

-- The text from position `n` on.
abbrev pub rest_of : ℕ → List ℕ → List ℕ
rest_of ℕ.zero line = line
rest_of (ℕ.suc n) [] = []
rest_of (ℕ.suc n) (x ∷ line) = rest_of n line

-- `$I` and `$I=`
unfoldable pub info : List ℕ → Console → Status × Console
info line k =
    if get_or line 2 0 == 0
    then (status_ok, effect build_info k)
    else if get_or line 2 0 == b'='
    then (status_ok, effect (store_build_info (rest_of 3 line)) k)
    else (invalid_statement, k)

-- `$RST=$`, `$RST=#` and `$RST=*`, with the `SETTINGS_RESTORE_*` masks.
unfoldable pub restore_command : List ℕ → Console → Status × Console
restore_command line k =
    let done : ℕ → Status × Console =
      λ mask. (status_ok, reset (effect message_restore_defaults (effect (restore mask) k))) in
    if not (get_or line 2 0 == b'S')
      || (not (get_or line 3 0 == b'T')
          || (not (get_or line 4 0 == b'=') || not (get_or line 6 0 == 0)))
    then (invalid_statement, k)
    else if get_or line 5 0 == b'$'
    then done 1
    else if get_or line 5 0 == b'#'
    then done 2
    else if get_or line 5 0 == b'*'
    then done 255
    else (invalid_statement, k)

-- `$n=value` and `$Nn=line`, from position `pos` on.
unfoldable pub store_command {ℓ} :
    {F : Type ℓ} → Services F → Bool → ℕ → List ℕ → Console → Status × Console
store_command ops is_startup pos line k = elim (ops.read_float line pos) [
  | none ↦ (bad_number_format, k)
  | some (parameter, at) ↦
      if not (get_or line at 0 == b'=')
      then (invalid_statement, k)
      else if is_startup
      then (let block = rest_of (at + 1) line in
          let (code, m) = ops.gc_execute_line block k.machine in
          let k1 = record k { machine = m } in
          if code == 0
          then (status_ok, effect (store_startup_line (ops.trunc parameter) block) k1)
          else (returned code, k1))
      else elim (ops.read_float line (at + 1)) [
        | none ↦ (bad_number_format, k)
        | some (value, end) ↦
            if not (get_or line end 0 == 0) || ops.above_255 parameter
            then (invalid_statement, k)
            else (returned (ops.settings_store_global_setting (ops.trunc parameter) value), k)
      ]
]

-- Reports a stored startup line.
abbrev report_line {ℓ} : {F : Type ℓ} → Services F → ℕ → Console → Console
report_line ops n k = elim (ops.settings_read_startup_line n) [
  | none ↦ effect read_fail k
  | some line ↦ effect (startup_line n line) k
]

-- `$N` and `$Nn=line`
unfoldable pub startup_command {ℓ} : {F : Type ℓ} → Services F → List ℕ → Console → Status × Console
startup_command ops line k =
    if get_or line 2 0 == 0
    then (status_ok, report_line ops 1 (report_line ops 0 k))
    else elim k.machine.sys.state [
      | State.idle ↦ store_command ops true 2 line k
      | _ ↦ (idle_error, k)
    ]

-- `$T=voltage`: the five characters behind the sign.
unfoldable pub thc_command {ℓ} : {F : Type ℓ} → Services F → List ℕ → Console → Status × Console
thc_command ops line k =
    if get_or line 2 0 == b'='
    then (status_ok, record k { analog_set_val = ops.atoi (take 5 (rest_of 3 line)) })
    else (status_ok, k)

-- The commands that need the state idle or alarm.
unfoldable pub maintain {ℓ} : {F : Type ℓ} → Services F → ℕ → List ℕ → Console → Status × Console
maintain ops c line k =
    if c == b'#'
    then if get_or line 2 0 == 0
      then (status_ok, effect ngc_parameters k)
      else (invalid_statement, k)
    else if c == b'H'
    then home ops line k
    else if c == b'S'
    then sleep line k
    else if c == b'I'
    then info line k
    else if c == b'R'
    then restore_command line k
    else if c == b'N'
    then startup_command ops line k
    else store_command ops false 1 line k

abbrev pub is_view : ℕ → Bool
is_view c = c == b'$' || (c == b'G' || (c == b'C' || c == b'X'))

-- `!(sys.state == STATE_IDLE || sys.state == STATE_ALARM)` is an error.
unfoldable pub when_ready : Console → Status × Console → Status × Console
when_ready k r = elim k.machine.sys.state [ State.idle ↦ r | State.alarm ↦ r | _ ↦ (idle_error, k) ]

unfoldable pub system_execute_line {ℓ} :
    {F : Type ℓ} → Services F → List ℕ → Console → Status × Console
system_execute_line ops line k =
    let c = get_or line 1 0 in
    if c == 0
    then (status_ok, effect grbl_help k)
    else if c == b'J'
    then jog ops line k
    else if is_view c
    then if get_or line 2 0 == 0 then view ops c k else (invalid_statement, k)
    else if c == b'T'
    then thc_command ops line k
    else when_ready k (maintain ops c line k)
