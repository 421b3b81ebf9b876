-- ===== src/Protocol/Line.antt =====
-- The part of `protocol_main_loop` that collects a line from the serial bytes and dispatches it.
pub mod Clean
pub mod Dispatched
use grbl_mega_plasma.Prelude.{
  ℕ, ◌+◌, ◌-◌, Bool, true, false, ◌||◌, ◌&&◌, Option, none, some, List, [], ◌∷◌, ◌==◌, ltb, leb,
  if◌then◌else◌, u8, get_or, set,
}
use grbl_mega_plasma.System.{State}

-- `LINE_FLAG_*`
pub record LineFlags : Type 0 where
  pub overflow : Bool
  pub comment_parentheses : Bool
  pub comment_semicolon : Bool

-- `line`, `char_counter` and `line_flags`
pub record Reader : Type 0 where
  pub line : List ℕ
  pub char_counter : ℕ
  pub line_flags : LineFlags

abbrev pub line_buffer_size : ℕ
line_buffer_size = 256

abbrev pub no_flags : LineFlags
no_flags = record { overflow = false; comment_parentheses = false; comment_semicolon = false }

abbrev pub any_flag : LineFlags → Bool
any_flag f = f.overflow || (f.comment_parentheses || f.comment_semicolon)

-- `line[char_counter++] = c`
unfoldable pub append : ℕ → Reader → Reader
append c r = record r { line = set r.line r.char_counter c; char_counter = u8 (r.char_counter + 1) }

-- A byte other than an end of line.
unfoldable pub accept : ℕ → Reader → Reader
unfolding append
accept c r =
    if any_flag r.line_flags
    then if c == b')'
      then if r.line_flags.comment_parentheses
        then record r { line_flags = record (r.line_flags) { comment_parentheses = false } }
        else r
      else r
    else if leb c b' '
    then r
    else if c == b'/'
    then r
    else if c == b'('
    then record r { line_flags = record (r.line_flags) { comment_parentheses = true } }
    else if c == b';'
    then record r { line_flags = record (r.line_flags) { comment_semicolon = true } }
    else if leb (line_buffer_size - 1) r.char_counter
    then record r { line_flags = record (r.line_flags) { overflow = true } }
    else if leb b'a' c && leb c b'z'
    then append (c - b'a' + b'A') r
    else append c r

-- What the end of a line leads to: a status at once, or the routine that the line is handed to.
pub data Dispatch : Type 0 where
  status_overflow status_ok status_system_gc_lock : Dispatch
  system_execute_line gc_execute_line : List ℕ → Dispatch

-- `sys.state & (STATE_ALARM | STATE_JOG)`
abbrev pub is_locked : State → Bool
is_locked State.alarm = true
is_locked State.jog = true
is_locked _ = false

-- The line buffer with its terminating zero.
unfoldable pub terminated : Reader → List ℕ
terminated r = set r.line r.char_counter 0

unfoldable pub dispatch : State → LineFlags → List ℕ → Dispatch
dispatch state flags line =
    if flags.overflow
    then status_overflow
    else if get_or line 0 0 == 0
    then status_ok
    else if get_or line 0 0 == b'$'
    then system_execute_line line
    else if is_locked state
    then status_system_gc_lock
    else gc_execute_line line

-- An end of line, in the state that `protocol_execute_realtime` leaves; `none` for a system abort.
unfoldable pub end_of_line : State → Bool → Reader → Option Dispatch × Reader
unfolding terminated dispatch
end_of_line state abort r = if abort then (none, r) else (
  some (dispatch state r.line_flags (terminated r)),
  record { line = terminated r; char_counter = 0; line_flags = no_flags },
)

-- `c == '\n' || c == '\r'`
abbrev pub is_eol : ℕ → Bool
is_eol c = c == 10 || c == 13
