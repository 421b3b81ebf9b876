-- ===== src/Gcode/Execute/Jog.antt =====
-- A jog under soft limits: `jog_execute` of jog.c with the travel check of system.c.
use grbl_mega_plasma.Prelude.{◌≡◌, sym, subst, true, false, arith}
use grbl_mega_plasma.Floats.{Floats}
use grbl_mega_plasma.Planner.{Axes}
use grbl_mega_plasma.System.Travel.{
  system_check_travel_limits, IsWithin, system_check_travel_limits-IsWithin,
}
use grbl_mega_plasma.Gcode.{ok}
use grbl_mega_plasma.Gcode.Check.Axis.{xyz}
use grbl_mega_plasma.Gcode.Execute.{Outside, Execution, values}
use grbl_mega_plasma.Gcode.Execute.Program.{execute_jog}

module _ {F : Type 0} (ops : Floats F) (o : Outside F) (e t : Execution F) where
  inside :
      execute_jog ops o e ≡ ok t
      → o.soft_limits ≡ true
      → system_check_travel_limits ops o.max_travel (xyz (values e)) ≡ false
  unfolding execute_jog
  inside done limits = ground arith

  moved : execute_jog ops o e ≡ ok t → t.g.position ≡ xyz (values e)
  unfolding execute_jog
  moved done = ground arith

  same_modes : execute_jog ops o e ≡ ok t → t.g.modal ≡ e.g.modal
  unfolding execute_jog
  same_modes done = ground arith

  -- A jog that is accepted while soft limits are on moves the parser's position to its target, which
  -- is within the travel on every axis, and leaves the parser's modes as they were.
  pub execute_jog-IsWithin :
      execute_jog ops o e ≡ ok t
      → o.soft_limits ≡ true
      → (t.g.position ≡ xyz (values e))
        × (IsWithin ops o.max_travel t.g.position × (t.g.modal ≡ e.g.modal))
  execute_jog-IsWithin done limits = (
    moved done,
    (
      subst (λ (a : Axes F). IsWithin ops o.max_travel a) (sym (moved done))
          (system_check_travel_limits-IsWithin ops o.max_travel (xyz (values e))
            (inside done limits)),
      same_modes done,
    ),
  )
