-- ===== src/Eeprom/Laws.antt =====
-- What has been stored is read again, and what else is in the memory.
use grbl_mega_plasma.Prelude.{
  refl, if_cases, Option, none, some, ap₂, ℕ, zero, suc, ◌+◌, ◌≤◌, ◌<◌, ◌≡◌, sym, ap, ◌∙◌, ◌≢◌, ◌⊎◌,
  inl, arith, Bool, true, false, ◌==◌, ==_iff, List, [], ◌∷◌, ◌++◌, if◌then◌else◌, if_apply, length,
  set,
}
use grbl_mega_plasma.Eeprom.{
  Eeprom, put_char, checksum_step, copy_to, copy_from, memcpy_to_eeprom_with_checksum,
  memcpy_from_eeprom_with_checksum, startup_addr, line_buffer_size, settings_store_startup_line,
  settings_read_startup_line, settings_store_build_info, read_global_settings,
  write_global_settings,
}

-- Cells in front of the copy and behind its checksum are as they were.
pub copy_to-outside :
    (c addr : ℕ) (xs : List ℕ) (e : Eeprom) (i : ℕ)
    → (i < addr) ⊎ (addr + length xs < i)
    → copy_to c addr xs e i ≡ e i
unfolding copy_to
copy_to-outside c addr [] e i h = ground arith
copy_to-outside c addr (x ∷ xs) e i h =
    copy_to-outside (checksum_step c x) (addr + 1) xs (put_char addr x e) i (ground arith)
    ∙ ground arith

copy_from-copy_to :
    (c addr : ℕ) (xs : List ℕ) (e : Eeprom)
    → copy_from c addr (length xs) (copy_to c addr xs e) ≡ (xs, true)
unfolding copy_to copy_from
copy_from-copy_to c addr [] e =
    ap (λ (b : Bool). ([], b)) ((==_iff c (put_char addr c e addr)).1 (ground arith))
copy_from-copy_to c addr (x ∷ xs) e =
    let c1 = checksum_step c x in
    let m : Eeprom = copy_to c1 (addr + 1) xs (put_char addr x e) in
    let same : m addr ≡ x =
      copy_to-outside c1 (addr + 1) xs (put_char addr x e) addr (inl (omega arith))
      ∙ ground arith in
    ap (λ (d : ℕ). let r = copy_from (checksum_step c d) (addr + 1) (length xs) m in (d ∷ r.0, r.1))
      same
    ∙ ap (λ (r : List ℕ × Bool). (x ∷ r.0, r.1))
        (copy_from-copy_to c1 (addr + 1) xs (put_char addr x e))

-- Whatever bytes are stored at an address, reading as many from it gives them with a matching
-- checksum.
pub stored_read :
    (addr : ℕ) (xs : List ℕ) (e : Eeprom)
    → memcpy_from_eeprom_with_checksum addr (length xs) (memcpy_to_eeprom_with_checksum addr xs e)
      ≡ (xs, true)
unfolding memcpy_to_eeprom_with_checksum memcpy_from_eeprom_with_checksum
stored_read addr xs e = copy_from-copy_to 0 addr xs e

-- Cells that agree are read alike.
copy_from-same :
    (c addr n : ℕ) (e f : Eeprom)
    → ((i : ℕ) → addr ≤ i → i ≤ addr + n → e i ≡ f i)
    → copy_from c addr n e ≡ copy_from c addr n f
unfolding copy_from
copy_from-same c addr zero e f h = ap (λ (d : ℕ). ([], c == d)) (h addr (omega arith) (omega arith))
copy_from-same c addr (suc n) e f h =
    let here = h addr (omega arith) (omega arith) in
    ap (λ (d : ℕ). let r = copy_from (checksum_step c d) (addr + 1) n e in (d ∷ r.0, r.1)) here
    ∙ ap (λ (r : List ℕ × Bool). (f addr ∷ r.0, r.1))
        (copy_from-same (checksum_step c (f addr)) (addr + 1) n e f
          (λ i lo hi. h i (omega arith) (omega arith)))

-- A startup line of 256 bytes that is stored is read again, and storing another startup line does
-- not change what is read.
pub startup_lines :
    (n k : ℕ) (line : List ℕ) (e : Eeprom)
    → length line ≡ line_buffer_size
    → k ≢ n
    → (settings_read_startup_line n (settings_store_startup_line n line e)
        ≡ (line, true, settings_store_startup_line n line e))
      × ((settings_read_startup_line k (settings_store_startup_line n line e)).0
          ≡ (settings_read_startup_line k e).0)
unfolding settings_read_startup_line settings_store_startup_line memcpy_from_eeprom_with_checksum
    memcpy_to_eeprom_with_checksum
startup_lines n k line e size other = (own, another)
  where
    m : Eeprom
    m = copy_to 0 (startup_addr n) line e

    answer : ℕ → Eeprom → List ℕ × Bool → List ℕ × Bool × Eeprom
    answer i f r =
        if r.1
        then (r.0, true, f)
        else (set (r.0) 0 0, false, copy_to 0 (startup_addr i) (set (r.0) 0 0) f)

    text : Bool → List ℕ → List ℕ
    text same l = if same then l else set l 0 0

    own : answer n m (copy_from 0 (startup_addr n) 256 m) ≡ (line, true, m)
    own =
        ap (λ (i : ℕ). answer n m (copy_from 0 (startup_addr n) i m)) (sym size)
        ∙ ap (answer n m) (copy_from-copy_to 0 (startup_addr n) line e)

    apart : (i : ℕ) → startup_addr k ≤ i → i ≤ startup_addr k + 256 → m i ≡ e i
    apart i lo hi = copy_to-outside 0 (startup_addr n) line e i (ground (arith, size, other))

    another :
        (answer k m (copy_from 0 (startup_addr k) 256 m)).0
        ≡ (answer k e (copy_from 0 (startup_addr k) 256 e)).0
    another =
        if_apply (λ (r : List ℕ × Bool × Eeprom). r.0) (copy_from 0 (startup_addr k) 256 m).1 _ _
        ∙ ap (λ (r : List ℕ × Bool). text r.1 r.0) (copy_from-same 0 (startup_addr k) 256 m e apart)
        ∙ sym (
            if_apply (λ (r : List ℕ × Bool × Eeprom). r.0) (copy_from 0 (startup_addr k) 256 e).1 _
              _)

copy_to-inside :
    (c addr i : ℕ) (pre : List ℕ) (x : ℕ) (rest : List ℕ) (e : Eeprom)
    → i ≡ addr + length pre
    → copy_to c addr (pre ++ x ∷ rest) e i ≡ x
unfolding copy_to
copy_to-inside c addr i [] x rest e at =
    copy_to-outside (checksum_step c x) (addr + 1) rest (put_char addr x e) i (inl (omega arith))
    ∙ ground arith
copy_to-inside c addr i (y ∷ pre) x rest e at =
    copy_to-inside (checksum_step c y) (addr + 1) i pre x rest (put_char addr y e) (omega arith)

-- Storing the build info overwrites cells of the first startup line: the cell of its checksum then
-- holds a character of the build info.
pub build_info_overlaps :
    (info : List ℕ) (x : ℕ) (rest : List ℕ) (e : Eeprom)
    → length info ≡ 82
    → settings_store_build_info (info ++ x ∷ rest) e (startup_addr 0 + line_buffer_size) ≡ x
unfolding settings_store_build_info memcpy_to_eeprom_with_checksum
build_info_overlaps info x rest e size = copy_to-inside 0 942 1024 info x rest e (omega arith)

-- Settings that have been written are read again, and from a memory with another version byte none
-- are.
pub global_settings :
    (image : List ℕ) (e f : Eeprom)
    → f 0 ≢ 10
    → (read_global_settings (length image) (write_global_settings image e) ≡ some image)
      × (read_global_settings (length image) f ≡ none)
unfolding read_global_settings write_global_settings
global_settings image e f other = (
  own,
  if_cases (λ o. o ≡ none) (f 0 == 10) _ none (λ same. absurd (other ((==_iff (f 0) 10).0 same)))
      (λ _. refl),
)
  where
    m : Eeprom
    m = memcpy_to_eeprom_with_checksum 1 image (put_char 0 10 e)

    answer : ℕ → List ℕ × Bool → Option (List ℕ)
    answer version r = if version == 10 then (if r.1 then some (r.0) else none) else none

    version : m 0 ≡ 10
    version =
        unfold memcpy_to_eeprom_with_checksum in
        copy_to-outside 0 1 image (put_char 0 10 e) 0 (inl (omega arith))

    own : answer (m 0) (memcpy_from_eeprom_with_checksum 1 (length image) m) ≡ some image
    own = ap₂ answer version (stored_read 1 image (put_char 0 10 e))
