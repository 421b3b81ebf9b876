-- ===== src/Gcode/Check/Axis.antt =====
-- The axes of a block of gcode.c as arrays: the values behind `X`, `Y`, `Z` and behind `I`, `J`, `K`.
use grbl_mega_plasma.Prelude.{ℕ, ◌==◌, if◌then◌else◌}
use grbl_mega_plasma.Planner.{Axes}
use grbl_mega_plasma.Gcode.{Bits}
use grbl_mega_plasma.Gcode.Word.{Values}

module _ {F : Type 0} where
  abbrev pub xyz : Values F → Axes F
  xyz v = record { x = v.x; y = v.y; z = v.z }

  abbrev pub with_xyz : Axes F → Values F → Values F
  with_xyz a v = record v { x = a.x; y = a.y; z = a.z }

  abbrev pub ijk : Values F → Axes F
  ijk v = record { x = v.i; y = v.j; z = v.k }

  abbrev pub with_ijk : Axes F → Values F → Values F
  with_ijk a v = record v { i = a.x; j = a.y; k = a.z }

  -- `a[n]`
  abbrev pub axis : ℕ → Axes F → F
  axis n a = if n == 0 then a.x else if n == 1 then a.y else a.z

  -- `a[n] = v`
  abbrev pub set_axis : ℕ → F → Axes F → Axes F
  set_axis n v a =
      if n == 0
      then record a { x = v }
      else if n == 1
      then record a { y = v }
      else record a { z = v }

  -- The loop over `N_AXIS` that takes one of two values by the axis word of the block.
  abbrev pub by_word : Bits → Axes F → Axes F → Axes F
  by_word w a b = record {
    x = if w 0 then a.x else b.x;
    y = if w 1 then a.y else b.y;
    z = if w 2 then a.z else b.z;
  }
