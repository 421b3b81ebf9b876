-- ===== src/Thc.antt =====
-- thc.c and the interrupt of timer.c: the torch height control, which moves the Z axis by itself to
-- keep the arc voltage `analogVal` within `hysteresis` of `analogSetVal`.
-- The delays and the timer's own registers are left out; a pulse on the step pin is an element of
-- `steps`, with the level of the direction pin at that time.
pub mod Laws
mod Tests
use grbl_mega_plasma.Prelude.{
  ℕ, ◌+◌, ◌-◌, ◌%◌, Bool, true, false, ◌||◌, ◌&&◌, ltb, List, ◌∷◌, if◌then◌else◌, u8,
}

pub record Thc : Type 0 where
  pub working : Bool
  pub analog_val : ℕ
  pub analog_set_val : ℕ
  pub hysteresis : ℕ
  pub jog_z_up : Bool
  pub jog_z_down : Bool

-- What a `uint16_t` keeps: `int` is 16 bits wide, so a `uint16_t` expression wraps there.
abbrev pub u16 : ℕ → ℕ
u16 n = n % 65536

unfoldable pub thc_initialize : Thc → Thc
thc_initialize t = record t { hysteresis = 1; analog_set_val = 3; working = false }

-- `analogVal > analogSetVal - hysteresis && analogVal < analogSetVal + hysteresis`
abbrev pub is_within : Thc → Bool
is_within t =
    ltb (u16 (t.analog_set_val + 65536 - t.hysteresis)) t.analog_val
    && ltb t.analog_val (u16 (t.analog_set_val + t.hysteresis))

unfoldable pub thc_update : Thc → Thc
thc_update t =
    if t.working
    then if is_within t
      then record t { jog_z_up = false; jog_z_down = false }
      else if ltb t.analog_set_val t.analog_val
      then record t { jog_z_down = true }
      else record t { jog_z_up = true }
    else t

-- The Z axis: its direction pin, the pulses sent, newest first, and `sys_position[Z_AXIS]` as the
-- numbers of steps counted up and down.
pub record Axis : Type 0 where
  pub direction : Bool
  pub steps : List Bool
  pub counted_up : ℕ
  pub counted_down : ℕ

unfoldable pub step_z : Axis → Axis
step_z a = record a { steps = a.direction ∷ a.steps }

abbrev pub set_z_dir : Bool → Axis → Axis
set_z_dir high a = record a { direction = high }

-- With bit 2 of `settings.dir_invert_mask` set, up is the high level.
unfoldable pub move : Bool → Thc → Axis → Axis
unfolding step_z
move invert t a =
    if t.jog_z_up
    then (let b = step_z (set_z_dir invert a) in record b { counted_up = b.counted_up + 1 })
    else if t.jog_z_down
    then (let b = step_z (set_z_dir (if invert then false else true) a) in
        record b { counted_down = b.counted_down + 1 })
    else a

pub record Timer : Type 0 where
  pub thc : Thc
  pub axis : Axis
  pub millis_timer : ℕ

-- ISR(TIMER2_OVF_vect)
unfoldable pub timer2_isr : Bool → Timer → Timer
timer2_isr invert s =
    let axis = move invert s.thc s.axis in
    if ltb 7 s.millis_timer
    then record { thc = thc_update s.thc; axis = axis; millis_timer = u8 (0 + 1) }
    else record { thc = s.thc; axis = axis; millis_timer = u8 (s.millis_timer + 1) }
