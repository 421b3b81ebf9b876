-- ===== src/Eeprom.antt =====
-- eeprom.c and the parts of settings.c that store and read text and coordinates.
-- The memory is the function from an address to its byte; `eeprom_put_char` and `eeprom_get_char`
-- write and read one cell, and how the chip erases and programs it is left out.
pub mod Laws
mod Tests
use grbl_mega_plasma.Prelude.{
  ℕ, zero, suc, ◌+◌, ◌*◌, Bool, true, false, ◌==◌, List, [], ◌∷◌, if◌then◌else◌, u8, replicate, set,
  Option, none, some,
}

abbrev pub Eeprom : Type 0
Eeprom = ℕ → ℕ

abbrev pub put_char : ℕ → ℕ → Eeprom → Eeprom
put_char addr value e i = if i == addr then value else e i

-- `checksum = (checksum << 1) || (checksum >> 7); checksum += data`: the operator is the logical
-- one, so its result is 1 or 0.
unfoldable pub checksum_step : ℕ → ℕ → ℕ
checksum_step checksum x = u8 ((if checksum == 0 then 0 else 1) + x)

-- The bytes go to `addr` and on, the checksum behind them.
unfoldable pub copy_to : ℕ → ℕ → List ℕ → Eeprom → Eeprom
copy_to checksum addr [] e = put_char addr checksum e
copy_to checksum addr (x ∷ xs) e =
    copy_to (checksum_step checksum x) (addr + 1) xs (put_char addr x e)

unfoldable pub memcpy_to_eeprom_with_checksum : ℕ → List ℕ → Eeprom → Eeprom
memcpy_to_eeprom_with_checksum addr xs e = copy_to 0 addr xs e

-- `n` bytes from `addr` on, and whether the cell behind them holds their checksum.
unfoldable pub copy_from : ℕ → ℕ → ℕ → Eeprom → List ℕ × Bool
copy_from checksum addr zero e = ([], checksum == e addr)
copy_from checksum addr (suc n) e =
    let (xs, same) = copy_from (checksum_step checksum (e addr)) (addr + 1) n e in
    (e addr ∷ xs, same)

unfoldable pub memcpy_from_eeprom_with_checksum : ℕ → ℕ → Eeprom → List ℕ × Bool
memcpy_from_eeprom_with_checksum addr n e = copy_from 0 addr n e

-- The layout of settings.h; `LINE_BUFFER_SIZE` is 256, and three coordinates are 12 bytes.
abbrev pub addr_parameters : ℕ
addr_parameters = 512

abbrev pub addr_startup_block : ℕ
addr_startup_block = 768

abbrev pub addr_build_info : ℕ
addr_build_info = 942

abbrev pub line_buffer_size : ℕ
line_buffer_size = 256

abbrev pub startup_addr : ℕ → ℕ
startup_addr n = n * (line_buffer_size + 1) + addr_startup_block

abbrev pub coord_addr : ℕ → ℕ
coord_addr n = n * (12 + 1) + addr_parameters

unfoldable pub settings_store_startup_line : ℕ → List ℕ → Eeprom → Eeprom
settings_store_startup_line n line e = memcpy_to_eeprom_with_checksum (startup_addr n) line e

unfoldable pub settings_store_build_info : List ℕ → Eeprom → Eeprom
settings_store_build_info line e = memcpy_to_eeprom_with_checksum addr_build_info line e

unfoldable pub settings_write_coord_data : ℕ → List ℕ → Eeprom → Eeprom
settings_write_coord_data n coords e = memcpy_to_eeprom_with_checksum (coord_addr n) coords e

-- A text that does not match its checksum is replaced by the empty one, which is stored.
unfoldable pub settings_read_startup_line : ℕ → Eeprom → List ℕ × Bool × Eeprom
settings_read_startup_line n e =
    let (line, same) = memcpy_from_eeprom_with_checksum (startup_addr n) line_buffer_size e in
    if same
    then (line, true, e)
    else (set line 0 0, false, settings_store_startup_line n (set line 0 0) e)

unfoldable pub settings_read_build_info : Eeprom → List ℕ × Bool × Eeprom
settings_read_build_info e =
    let (line, same) = memcpy_from_eeprom_with_checksum addr_build_info line_buffer_size e in
    if same
    then (line, true, e)
    else (set line 0 0, false, settings_store_build_info (set line 0 0) e)

-- A floating point zero is four zero bytes.
unfoldable pub settings_read_coord_data : ℕ → Eeprom → List ℕ × Bool × Eeprom
settings_read_coord_data n e =
    let (coords, same) = memcpy_from_eeprom_with_checksum (coord_addr n) 12 e in
    if same
    then (coords, true, e)
    else (replicate 12 0, false, settings_write_coord_data n (replicate 12 0) e)

-- `SETTINGS_VERSION` is 10 and `EEPROM_ADDR_GLOBAL` is 1; `image` is the bytes of `settings`.
unfoldable pub write_global_settings : List ℕ → Eeprom → Eeprom
write_global_settings image e = memcpy_to_eeprom_with_checksum 1 image (put_char 0 10 e)

-- The bytes read, of which there are `size`, or nothing for another version or a wrong checksum.
unfoldable pub read_global_settings : ℕ → Eeprom → Option (List ℕ)
read_global_settings size e =
    let (image, same) = memcpy_from_eeprom_with_checksum 1 size e in
    if e 0 == 10 then (if same then some image else none) else none

-- The loop over the first `n` coordinate systems.
unfoldable pub clear_coords : ℕ → Eeprom → Eeprom
clear_coords zero e = e
clear_coords (suc n) e = settings_write_coord_data n (replicate 12 0) (clear_coords n e)

-- The bits of `restore_flag`; `defaults` is the bytes of the default settings. There are eight
-- coordinate systems (`SETTING_INDEX_NCOORD` is 7) and two startup lines.
pub record Restore : Type 0 where
  pub defaults : Bool
  pub parameters : Bool
  pub startup_lines : Bool
  pub build_info : Bool

unfoldable pub settings_restore : List ℕ → Restore → Eeprom → Eeprom
settings_restore defaults flag e =
    let e1 = if flag.defaults then write_global_settings defaults e else e in
    let e2 = if flag.parameters then clear_coords 8 e1 else e1 in
    let e3 =
      if flag.startup_lines
      then put_char (startup_addr 1 + 1) 0 (
          put_char (startup_addr 1) 0
            (put_char (startup_addr 0 + 1) 0 (put_char (startup_addr 0) 0 e2)))
      else e2 in
    if flag.build_info then put_char (addr_build_info + 1) 0 (put_char addr_build_info 0 e3) else e3
