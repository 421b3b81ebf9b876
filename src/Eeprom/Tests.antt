-- ===== src/Eeprom/Tests.antt =====
-- The storage laws on concrete texts.
use grbl_mega_plasma.Prelude.{ℕ, ◌≡◌, arith, true, List, [], ◌∷◌, replicate}
use grbl_mega_plasma.Eeprom.{
  Eeprom, memcpy_to_eeprom_with_checksum, memcpy_from_eeprom_with_checksum,
}
use grbl_mega_plasma.Prelude.{some, none}
use grbl_mega_plasma.Eeprom.{read_global_settings, write_global_settings}
use grbl_mega_plasma.Eeprom.Laws.{global_settings, stored_read}

abbrev erased : Eeprom
erased i = 255

stored_read_example :
    memcpy_from_eeprom_with_checksum 512 3
      (memcpy_to_eeprom_with_checksum 512 (7 ∷ 0 ∷ 200 ∷ []) erased)
    ≡ (7 ∷ 0 ∷ 200 ∷ [], true)
stored_read_example = stored_read 512 (7 ∷ 0 ∷ 200 ∷ []) erased

abbrev test_line : List ℕ
test_line = b'G' ∷ b'2' ∷ b'1' ∷ replicate 253 0

global_settings_example :
    (read_global_settings 3 (write_global_settings (1 ∷ 2 ∷ 3 ∷ []) erased) ≡ some (1 ∷ 2 ∷ 3 ∷ []))
    × (read_global_settings 3 erased ≡ none)
global_settings_example = global_settings (1 ∷ 2 ∷ 3 ∷ []) erased erased (omega arith)
