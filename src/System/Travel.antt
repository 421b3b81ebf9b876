-- ===== src/System/Travel.antt =====
-- `system_check_travel_limits` of system.c, in the build without HOMING_FORCE_SET_ORIGIN.
use grbl_mega_plasma.Prelude.{Bool, false, ◌||◌, ◌≡◌, arith}
use grbl_mega_plasma.Floats.{Floats, le}
use grbl_mega_plasma.Planner.{Axes}

module _ {F : Type 0} (ops : Floats F) where
  unfoldable outside_axis : F → F → Bool
  outside_axis max_travel target = ops.lt (ops.literal 0 0) target || ops.lt target max_travel

  -- `max_travel` is `settings.max_travel`, which is stored as negative.
  unfoldable pub system_check_travel_limits : Axes F → Axes F → Bool
  unfolding outside_axis
  system_check_travel_limits max_travel target =
      outside_axis max_travel.x target.x
      || (outside_axis max_travel.y target.y || outside_axis max_travel.z target.z)

  -- No axis is above the origin or below its travel.
  pub record IsWithin (max_travel target : Axes F) : Type 0 where
    pub x_top : le ops target.x (ops.literal 0 0)
    pub x_low : le ops max_travel.x target.x
    pub y_top : le ops target.y (ops.literal 0 0)
    pub y_low : le ops max_travel.y target.y
    pub z_top : le ops target.z (ops.literal 0 0)
    pub z_low : le ops max_travel.z target.z

  pub system_check_travel_limits-IsWithin :
      (max_travel target : Axes F)
      → system_check_travel_limits max_travel target ≡ false
      → IsWithin max_travel target
  unfolding system_check_travel_limits outside_axis
  system_check_travel_limits-IsWithin m t e = record {
    x_top = ground arith;
    x_low = ground arith;
    y_top = ground arith;
    y_low = ground arith;
    z_top = ground arith;
    z_low = ground arith;
  }
