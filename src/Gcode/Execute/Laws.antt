-- ===== src/Gcode/Execute/Laws.antt =====
-- What STEP 4 of gcode.c leaves in the parser's state.
use grbl_mega_plasma.Prelude.{
  ℕ, ◌≡◌, sym, ◌∙◌, ap, ap₂, false, true, not, List, [], ◌∷◌, Option, none, some, Bool, ◌||◌, ◌==◌,
  if◌then◌else◌, arith,
}
use grbl_mega_plasma.Floats.{Floats}
use grbl_mega_plasma.Gcode.{ok, Modal, Block}
use grbl_mega_plasma.Gcode.Check.{is_tool_offset}
use grbl_mega_plasma.Gcode.Check.Accepts.{Accepts}
use grbl_mega_plasma.Gcode.Execute.{
  Action, Outside, Execution, modes, setup_laser, set_feed, sync_speed, set_spindle_speed,
  set_spindle, set_coolant, dwell, set_tool_length, set_coord_select,
}
use grbl_mega_plasma.Gcode.Execute.Program.{
  write_coordinate_data, move_home, do_non_modal, do_probe, do_motion, reset_modes, pause,
  end_program, do_program_flow, set_modes, execute_block,
}

-- The modes that each step computes, from the block's and the state's.
abbrev set_feed_modes : Modal → Modal → Modal
set_feed_modes b m = record m { feed_rate = b.feed_rate }

abbrev set_spindle_speed_modes : Modal → Modal → Modal
set_spindle_speed_modes b m = m

abbrev set_spindle_modes : Modal → Modal → Modal
set_spindle_modes b m = record m { spindle = b.spindle }

abbrev set_coolant_modes : Modal → Modal → Modal
set_coolant_modes b m = record m { flood = b.flood; mist = b.mist }

abbrev dwell_modes : Modal → Modal → Modal
dwell_modes b m = record m { plane_select = b.plane_select; units = b.units }

abbrev set_tool_length_modes : Modal → Modal → Modal
set_tool_length_modes b m = record m { tool_length = b.tool_length }

abbrev set_coord_select_modes : Modal → Modal → Modal
set_coord_select_modes b m = record m { coord_select = b.coord_select; distance = b.distance }

abbrev do_non_modal_modes : Modal → Modal → Modal
do_non_modal_modes b m = m

abbrev do_motion_modes : Modal → Modal → Modal
do_motion_modes b m = record m { motion = b.motion }

-- The modes at the end of a block.
abbrev pub final_modes : Modal → Modal
final_modes b =
    if b.program_flow == 0 || b.program_flow == 3 then record b { program_flow = 0 } else record b {
      motion = 1;
      plane_select = 0;
      distance = 0;
      feed_rate = 0;
      coord_select = 0;
      spindle = 0;
      flood = false;
      mist = false;
      program_flow = 0;
    }

abbrev pub ends_program : Modal → Bool
ends_program b = not (b.program_flow == 0 || b.program_flow == 3)

-- The feed, rapid and spindle speed overrides that the actions set last.
abbrev pub overrides_of : {F : Type 0} → List (Action F) → Option (ℕ × ℕ × ℕ)
overrides_of [] = none
overrides_of (Action.set_overrides f r s ∷ rest) = some (f, r, s)
overrides_of (a ∷ rest) = overrides_of rest

module _ {F : Type 0} (ops : Floats F) (o : Outside F) where
  -- A step that computes the parser's modes from the block's and its own, and leaves the block.
  record Gives (f : Modal → Modal → Modal) (e t : Execution F) : Type 0 where
    pub modal_lem : t.g.modal ≡ f (modes e) e.g.modal
    pub block_lem : t.checked.parser.block ≡ e.checked.parser.block

  Gives-trans :
      (f g : Modal → Modal → Modal) {e t u : Execution F}
      → Gives f e t
      → Gives g t u
      → Gives (λ b m. g b (f b m)) e u
  Gives-trans f g h k = record {
    modal_lem = k.modal_lem ∙ ap₂ g (ap (λ (b : Block). b.modal) h.block_lem) h.modal_lem;
    block_lem = k.block_lem ∙ h.block_lem;
  }

  -- Without a tool length command the block has the mode of the parser's state.
  abbrev pub KeepsToolLength : Execution F → Type 0
  KeepsToolLength e =
      is_tool_offset e.checked.parser.block.axis_command ≡ false
      → (modes e).tool_length ≡ e.g.modal.tool_length

  set_feed-Gives : (e : Execution F) → Gives set_feed_modes e (set_feed (setup_laser o e))
  unfolding set_feed setup_laser
  set_feed-Gives e = ground arith

  set_spindle_speed-Gives :
      (e : Execution F) → Gives set_spindle_speed_modes e (set_spindle_speed ops e)
  unfolding set_spindle_speed sync_speed
  set_spindle_speed-Gives e = ground arith

  set_spindle-Gives : (e : Execution F) → Gives set_spindle_modes e (set_spindle ops e)
  unfolding set_spindle
  set_spindle-Gives e = ground arith

  set_coolant-Gives : (e : Execution F) → Gives set_coolant_modes e (set_coolant ops e)
  unfolding set_coolant
  set_coolant-Gives e = ground arith

  dwell-Gives : (e : Execution F) → Gives dwell_modes e (dwell ops e)
  unfolding dwell
  dwell-Gives e = ground arith

  set_tool_length-Gives :
      (e : Execution F) → KeepsToolLength e → Gives set_tool_length_modes e (set_tool_length ops e)
  unfolding set_tool_length
  set_tool_length-Gives e same = ground arith

  set_coord_select-Gives :
      (e : Execution F) → Gives set_coord_select_modes e (set_coord_select ops e)
  unfolding set_coord_select
  set_coord_select-Gives e = ground arith

  do_non_modal-Gives : (e : Execution F) → Gives do_non_modal_modes e (do_non_modal ops e)
  unfolding do_non_modal write_coordinate_data move_home
  do_non_modal-Gives e = ground arith

  do_motion-Gives : (e : Execution F) → Gives do_motion_modes e (do_motion o e)
  unfolding do_motion do_probe
  do_motion-Gives e = ground arith

  -- The modes before the coordinate system's: those of the first five steps.
  abbrev early_modes : Modal → Modal → Modal
  early_modes b m = dwell_modes b (set_coolant_modes b (set_spindle_modes b (set_feed_modes b m)))

  early-Gives :
      (e : Execution F)
      → Gives early_modes e (
          dwell ops (
            set_coolant ops (set_spindle ops (set_spindle_speed ops (set_feed (setup_laser o e))))))
  early-Gives e =
      Gives-trans (λ b m. set_coolant_modes b (set_spindle_modes b (set_feed_modes b m)))
        dwell_modes
        (Gives-trans (λ b m. set_spindle_modes b (set_feed_modes b m)) set_coolant_modes
          (Gives-trans set_feed_modes set_spindle_modes
            (Gives-trans set_feed_modes set_spindle_speed_modes (set_feed-Gives e)
              (set_spindle_speed-Gives _))
            (set_spindle-Gives _))
          (set_coolant-Gives _))
        (dwell-Gives _)

  abbrev late_modes : Modal → Modal → Modal
  late_modes b m = set_coord_select_modes b (set_tool_length_modes b (early_modes b m))

  set_modes-Gives : (e : Execution F) → KeepsToolLength e → Gives late_modes e (set_modes ops o e)
  unfolding set_modes
  set_modes-Gives e keep =
      let h = early-Gives e in
      let keeps : KeepsToolLength (
          dwell ops (
            set_coolant ops
              (set_spindle ops (set_spindle_speed ops (set_feed (setup_laser o e)))))) =
        λ k.
          ap (λ (b : Block). b.modal.tool_length) h.block_lem
          ∙ keep (ap (λ (b : Block). is_tool_offset b.axis_command) (sym h.block_lem) ∙ k)
          ∙ ap (λ (m : Modal). m.tool_length) (sym h.modal_lem) in
      Gives-trans (λ b m. set_tool_length_modes b (early_modes b m)) set_coord_select_modes
        (Gives-trans early_modes set_tool_length_modes h (set_tool_length-Gives _ keeps))
        (set_coord_select-Gives _)

  moved-Gives :
      (e : Execution F)
      → KeepsToolLength e
      → Gives
          (λ b m. record b { program_flow = m.program_flow })
          e
          (do_motion o (do_non_modal ops (set_modes ops o e)))
  moved-Gives e keep =
      Gives-trans late_modes do_motion_modes
        (Gives-trans late_modes do_non_modal_modes (set_modes-Gives e keep) (do_non_modal-Gives _))
        (do_motion-Gives _)

  flow-Modes :
      (e : Execution F)
      → Accepts
          (λ t.
            t.g.modal ≡ final_modes (record (e.g.modal) { program_flow = (modes e).program_flow }))
          (do_program_flow o e)
  unfolding do_program_flow pause end_program reset_modes
  flow-Modes e t h = ground arith

  flow_overrides :
      (e : Execution F)
      → ends_program (modes e) ≡ true
      → Accepts (λ t. overrides_of t.actions ≡ some (100, 100, 100)) (do_program_flow o e)
  unfolding do_program_flow pause end_program
  flow_overrides e ends t h = ground arith

  -- After a block that is executed without an error, whose tool length mode is the parser's unless
  -- the block sets it, the parser's modes are those of the block if its program flow is running or
  -- M0. With M2 and M30 they are those of the block with G1, G17, G90, G94, G54, M5 and M9, and the
  -- feed, rapid and spindle speed overrides that were set last are 100 per cent. In all cases the
  -- program flow is running.
  pub execute-modes :
      (e t : Execution F)
      → execute_block ops o e ≡ ok t
      → (is_tool_offset e.checked.parser.block.axis_command ≡ false
          → (modes e).tool_length ≡ e.g.modal.tool_length)
      → (t.g.modal ≡ final_modes (modes e))
        × (ends_program (modes e) ≡ true → overrides_of t.actions ≡ some (100, 100, 100))
  unfolding execute_block
  execute-modes e t done keep =
      let u = do_motion o (do_non_modal ops (set_modes ops o e)) in
      let h = moved-Gives e keep in
      let flow : (modes u).program_flow ≡ (modes e).program_flow =
        ap (λ (b : Block). b.modal.program_flow) h.block_lem in
      (
        flow-Modes u t done
            ∙ ap₂ (λ (m : Modal) (f : ℕ). final_modes (record m { program_flow = f })) h.modal_lem
                flow,
        λ ends. flow_overrides u (ground arith) t done,
      )
