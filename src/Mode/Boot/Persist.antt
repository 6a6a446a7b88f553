-- ===== src/Mode/Boot/Persist.antt =====
-- What the store of a mode leaves in the boot record and in the CMOS, and when no stored mode ever comes back.
use reaper_operating_system.Base.{
  ℕ, ◌≤◌, ◌≡◌, refl, sym, ap, ◌∙◌, ◌≢◌, false, ◌&&◌, ◌||◌, Option, none, some, List, [], ◌∷◌, arith,
  ltb, ◌==◌, if◌then◌else◌,
}
use reaper_operating_system.Mode.{BootRecord, Kernel, mode_casual, mode_lockdown}
use reaper_operating_system.Mode.Boot.{
  boot_record_magic, boot_record_version, boot_record_load_persistent, boot_record_store_persistent,
  boot_record_is_valid, stamp, boot_record_store_mode, boot_record_load_mode, register,
}

-- the value last written to a register
abbrev pub last_write : ℕ → List (ℕ × ℕ) → Option ℕ
last_write r [] = none
last_write r ((q, v) ∷ writes) = let rest = last_write r writes in if q == r then some v else rest

-- A CMOS keeps what was last written to each register.
abbrev pub Keeps : (ℕ → ℕ) → List (ℕ × ℕ) → Type 0
Keeps cmos writes = (r v : ℕ) → last_write r writes ≡ some v → cmos r ≡ v

load-store :
    (cmos : ℕ → ℕ) (b : BootRecord) (writes : List (ℕ × ℕ))
    → Keeps cmos (boot_record_store_persistent b writes)
    → boot_record_load_persistent cmos ≡ b
unfolding boot_record_store_persistent boot_record_load_persistent
load-store cmos b writes keeps = λ i. record {
  magic = keeps 64 b.magic refl i;
  version = keeps 65 b.version refl i;
  sequence = keeps 66 b.sequence refl i;
  mode = keeps 67 b.mode refl i;
  valid = keeps 68 b.valid refl i;
  checksum = keeps 69 b.checksum refl i;
  reserved0 = keeps 70 b.reserved0 refl i;
  reserved1 = keeps 71 b.reserved1 refl i;
}

load_mode-stamp :
    (mode : ℕ) (b : BootRecord)
    → mode_casual ≤ mode
    → mode ≤ mode_lockdown
    → boot_record_load_mode (stamp mode b) ≡ (
        if (b.magic == boot_record_magic) && (b.version == boot_record_version)
        then some mode
        else none)
unfolding boot_record_load_mode boot_record_is_valid stamp
load_mode-stamp mode b lo hi = ground arith

load_mode_bad_magic :
    (b : BootRecord) → b.magic ≢ boot_record_magic → boot_record_load_mode b ≡ none
unfolding boot_record_load_mode boot_record_is_valid
load_mode_bad_magic b bad = ground arith

-- After the kernel stores a mode from Casual to Lockdown, boot_record_load_persistent reads the
-- kernel's record back, byte for byte, from a CMOS that kept what was written, and
-- boot_record_load_mode gives that mode for the record if its magic and version are right, and no
-- mode otherwise.
pub load_mode-store_mode :
    (cmos : ℕ → ℕ) (mode : ℕ) (k : Kernel)
    → mode_casual ≤ mode
    → mode ≤ mode_lockdown
    → Keeps cmos (boot_record_store_mode mode k).cmos_writes
    → (boot_record_load_persistent cmos ≡ (boot_record_store_mode mode k).boot)
      × (boot_record_load_mode (boot_record_store_mode mode k).boot ≡ (
          if (k.boot.magic == boot_record_magic) && (k.boot.version == boot_record_version)
          then some mode
          else none))
unfolding boot_record_store_mode
load_mode-store_mode cmos mode k lo hi keeps =
    let inside : (ltb mode 1 || ltb 3 mode) ≡ false = ground arith in
    let b = stamp mode k.boot in
    let kept : Keeps cmos (boot_record_store_persistent b k.cmos_writes) = rw inside at keeps in
    rw inside ((load-store cmos b k.cmos_writes kept, load_mode-stamp mode k.boot lo hi))

-- the modes stored one after another
abbrev pub store_all : List ℕ → Kernel → Kernel
store_all [] k = k
store_all (m ∷ ms) k = store_all ms (boot_record_store_mode m k)

magic-store_mode : (m : ℕ) (k : Kernel) → (boot_record_store_mode m k).boot.magic ≡ k.boot.magic
unfolding boot_record_store_mode
magic-store_mode m k = ground arith

magic-store_all : (ms : List ℕ) (k : Kernel) → (store_all ms k).boot.magic ≡ k.boot.magic
magic-store_all [] k = refl
magic-store_all (m ∷ ms) k = magic-store_all ms (boot_record_store_mode m k) ∙ magic-store_mode m k

-- A kernel whose boot loaded its record from a CMOS with another magic keeps that magic: whatever
-- modes it stores, the record stays invalid and no mode is loaded from it.
pub store_all_never_valid :
    (cmos : ℕ → ℕ) (ms : List ℕ) (k : Kernel)
    → cmos (register 0) ≢ boot_record_magic
    → k.boot ≡ boot_record_load_persistent cmos
    → boot_record_load_mode (store_all ms k).boot ≡ none
unfolding boot_record_load_persistent
store_all_never_valid cmos ms k bad loaded =
    load_mode_bad_magic (store_all ms k).boot
      (λ e. bad (sym (magic-store_all ms k ∙ ap (λ (b : BootRecord). b.magic) loaded) ∙ e))
