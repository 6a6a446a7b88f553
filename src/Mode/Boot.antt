-- ===== src/Mode/Boot.antt =====
-- The boot record of kernel/mode.c: eight bytes in the CMOS registers from 0x40 on, from which a
-- boot is to take the mode to restore. The CMOS itself is hardware: a write is an entry of
-- `cmos_writes`, and `cmos` is what a read of each register returns.
pub mod Persist
use reaper_operating_system.Base.{
  ℕ, ◌+◌, ◌-◌, ◌*◌, ◌/◌, ◌%◌, ◌^◌, bit_or, bit_xor, Bool, true, false, not, ◌&&◌, ◌||◌, Option,
  none, some, List, [], ◌∷◌, ltb, leb, ◌==◌, if◌then◌else◌,
}
use reaper_operating_system.Base.Word.{u8}
use reaper_operating_system.Mode.{BootRecord, Kernel, mode_casual, mode_lockdown}

abbrev pub boot_record_magic : ℕ
boot_record_magic = 0x4D

abbrev pub boot_record_version : ℕ
boot_record_version = 1

pub boot_record_checksum : (version sequence mode valid : ℕ) → ℕ
boot_record_checksum version sequence mode valid =
    let c = u8 (
      bit_xor (bit_xor (bit_xor (bit_xor (bit_xor boot_record_magic version) sequence) mode) valid)
        0xA5) in
    let rotated = u8 (bit_or (c * 2 ^ 3) (c / 2 ^ 5)) in bit_xor rotated 0x5A

-- the register of byte `i`
abbrev pub register : ℕ → ℕ
register i = u8 (0x40 + u8 i)

pub boot_record_load_persistent : (ℕ → ℕ) → BootRecord
boot_record_load_persistent cmos = record {
  magic = cmos (register 0);
  version = cmos (register 1);
  sequence = cmos (register 2);
  mode = cmos (register 3);
  valid = cmos (register 4);
  checksum = cmos (register 5);
  reserved0 = cmos (register 6);
  reserved1 = cmos (register 7);
}

pub boot_record_store_persistent : BootRecord → List (ℕ × ℕ) → List (ℕ × ℕ)
boot_record_store_persistent b writes =
    (register 7, b.reserved1)
    ∷ (register 6, b.reserved0)
    ∷ (register 5, b.checksum)
    ∷ (register 4, b.valid)
    ∷ (register 3, b.mode)
    ∷ (register 2, b.sequence)
    ∷ (register 1, b.version)
    ∷ (register 0, b.magic)
    ∷ writes

pub boot_record_is_valid : BootRecord → Bool
boot_record_is_valid b =
    if not (b.magic == boot_record_magic)
    then false
    else if not (b.version == boot_record_version)
    then false
    else if b.valid == 0
    then false
    else b.checksum == boot_record_checksum b.version b.sequence b.mode b.valid

-- the record with a mode stored in it
unfoldable pub stamp : ℕ → BootRecord → BootRecord
stamp mode b =
    let sequence = u8 (b.sequence + 1) in
    record b {
      sequence = sequence;
      mode = u8 mode;
      valid = 1;
      checksum = boot_record_checksum b.version sequence (u8 mode) 1;
    }

unfoldable pub boot_record_store_mode : ℕ → Kernel → Kernel
unfolding stamp boot_record_store_persistent
boot_record_store_mode mode k =
    if ltb mode mode_casual || ltb mode_lockdown mode
    then k
    else let b = stamp mode k.boot in
      record k { boot = b; cmos_writes = boot_record_store_persistent b k.cmos_writes }

unfoldable pub boot_record_load_mode : BootRecord → Option ℕ
boot_record_load_mode b =
    if not (boot_record_is_valid b)
    then none
    else if ltb b.mode mode_casual || ltb mode_lockdown b.mode
    then none
    else some b.mode
