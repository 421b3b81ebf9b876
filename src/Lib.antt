-- ===== src/Lib.antt =====
-- Grbl for plasma cutters on the Arduino Mega: the parts of the firmware that receive bytes and
-- lines, execute realtime requests, stop the machine, and store what must survive a restart.
--
-- Parts, and how they interact
--   System (system.h, system.c): the state that all parts share. A `STATE_*` value is an enumeration,
--     a flag byte a record with a Boolean for each bit, and the functions `system_set_exec_*` and
--     `system_clear_exec_*` are functions on a `Machine`. A call into a module that is not part of
--     the machine is recorded in its trace. System/Reset is `mc_reset` of motion_control.c.
--     System/Command is `system_execute_line`, the startup lines and the control pins' interrupt;
--     the functions of other modules that it calls are the fields of `Services`. System/Travel is
--     the travel limit check of system.c.
--   Serial (serial.c): Serial/Ring is the two byte rings, Serial/Transmit `serial_write` and its
--     interrupt, Serial/Receive the interrupt that sorts realtime commands from text, and
--     `serial_read`. It sets flags of the machine, calls `mc_reset`, and arms the alarms again.
--   Alarms (ports.c): the pin change alarms of the plasma source, the torch and the servo.
--   Protocol (protocol.c): Protocol/Line is the reader of `protocol_main_loop`, from bytes to the
--     routine that gets the line. Protocol/Realtime is `protocol_exec_rt_system`, composed of
--     Protocol/Hold, Protocol/Cycle and Protocol/Override in the order of the source, in the build
--     without PARKING_ENABLE and DEBUG. Its `meanwhile` and `arrived` are the flags that interrupts
--     set during the wait after a critical alarm, and after the flags have been read.
--   Gcode (gcode.c): Gcode/Command and Gcode/Word are the words of a block, STEP 2 of
--     `gc_execute_line`; Gcode/Check and its children Axis, NonModal, Motion and Block are STEP 3,
--     the checks of a parsed block against the parser's state, up to the check of a jog command.
--     Gcode/Execute and Gcode/Execute/Program are STEP 4, the execution of a checked block, with
--     `jog_execute` of jog.c.
--   Stepper (stepper.c, probe.c): the state of the step generation. Stepper/Tick is the two
--     interrupts. Stepper/Prep is the state of `st_prep_buffer`,
--     Stepper/Prep/Profile the loading of a block and its velocity profile, Stepper/Prep/Walk the
--     loop over the ramps, Stepper/Prep/Fill the rounds that fill the segment buffer.
--     Stepper/Bresenham, Run and Line follow a block through the interrupt's ticks, and
--     Stepper/Prep/Ring and its children the segment buffer through both; Stepper/Prep/Rounds is the
--     end of the loop that fills it.
--   Number (nuts_bolts.c): `read_float`, which reads the numbers of g-code words and settings.
--   Spindle (spindle_control.c): the spindle's registers and its PWM value. Coolant
--     (coolant_control.c): the coolant pins.
--   Thc (thc.c, timer.c): the torch height control and its timer interrupt.
--   Eeprom, Settings (eeprom.c, settings.c): the checksummed copies, the lines, coordinates and
--     settings that they store, and the change of one setting by its number.
--   Print (print.c): the printing of integers.
--   Planner (planner.c): the ring of motion blocks. Planner/Profile is the nominal and maximum
--     speeds, Planner/Recalculate `planner_recalculate`, Planner/Line `plan_buffer_line`. The two
--     variables of stepper.c that `st_update_plan_block_parameters` uses are part of its state.
--     Planner/Smooth, Plan, Notice, Reverse, Forward, Append and Kept lead from the speeds as
--     functions of the index to the laws. Floats (and the ordered arithmetic it asks for) stands for
--     the compiler's `float`.
--
-- Bounds and loops
--   Machine words keep their wrap-around written out (`u8`, `u16`, `add8`, `sub8`). Loops over a list,
--   a size or a number of digits are structural. The wait for space in `serial_write` and the wait
--   after a critical alarm run on the list of what happens meanwhile, and say so when it ends before
--   they do. The ten places that `print_uint32_base10` has for digits are its fuel, enough for 32
--   bits; the search for an axis setting has the four kinds of setting as its fuel. The
--   loops of the planner have the 36 blocks of the ring as their fuel. `st_prep_buffer` has the ten
--   places of the segment buffer as its fuel. Its inner loop over the ramps ends by floating point
--   comparisons, so it has a number of rounds, and the laws hold for every such number, also where
--   the loop has not ended.
--
-- Parameters
--   Floating point numbers are a type parameter with the functions that the code applies to them
--   (`FloatOps` of Gcode/Word and of Settings, `Floats`). What M commands with a routine of their own return is
--   a parameter as well. The words of a block come with the number that stands behind each letter.
--   `Services` of System/Command has a field for `read_float`; Number/Setting puts that of Number in.
--
-- Not modelled
--   Limits and homing, arcs and probing cycles, STEP 1 of the
--   g-code parser, `protocol_exec_rt_suspend`, printing of floating point numbers, reports, and the
--   set-up of timers, ports and the UART.
pub mod Prelude
pub mod System
pub mod Serial
pub mod Fixtures
pub mod Alarms
pub mod Protocol
pub mod Gcode
pub mod Thc
pub mod Eeprom
pub mod Settings
pub mod Number
pub mod Print
pub mod Floats
pub mod Planner
pub mod Spindle
pub mod Coolant
pub mod Stepper
