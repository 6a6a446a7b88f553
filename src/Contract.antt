-- ===== src/Contract.antt =====
-- Region contracts of the virtual memory manager (kernel/vmm.c, kernel/include/vmm.h): the check that
-- a request to map or unmap a region passes before any page table is touched.
pub mod Permit
use reaper_operating_system.Base.{
  ℕ, ◌+◌, ◌*◌, ◌/◌, ◌%◌, ◌^◌, Bool, true, false, not, ◌&&◌, ◌||◌, Option, none, some, ltb, leb,
  ◌==◌, if◌then◌else◌,
}
use reaper_operating_system.Base.Word.{u64}
use reaper_operating_system.Base.Bits.{has_flag}
use reaper_operating_system.Mode.{mode_kernel}

abbrev pub page_size : ℕ
page_size = 4096

abbrev pub vmm_present : ℕ
vmm_present = 2 ^ 0

abbrev pub vmm_user : ℕ
vmm_user = 2 ^ 2

abbrev pub vmm_accessed : ℕ
vmm_accessed = 2 ^ 5

abbrev pub vmm_dirty : ℕ
vmm_dirty = 2 ^ 6

abbrev pub vmm_huge : ℕ
vmm_huge = 2 ^ 7

abbrev pub vmm_demand : ℕ
vmm_demand = 2 ^ 9

abbrev pub vmm_nx : ℕ
vmm_nx = 2 ^ 63

abbrev pub kernel_virt_base : ℕ
kernel_virt_base = 0xffffffff80000000

abbrev pub op_map : ℕ
op_map = 0

abbrev pub op_unmap : ℕ
op_unmap = 1

abbrev pub trust_verified : ℕ
trust_verified = 0

abbrev pub trust_unverified : ℕ
trust_unverified = 1

-- `vmm_contract_result_t`
abbrev pub result_none : ℕ
result_none = 0

abbrev pub result_ok : ℕ
result_ok = 1

abbrev pub err_op : ℕ
err_op = 3

abbrev pub err_length : ℕ
err_length = 4

abbrev pub err_alignment : ℕ
err_alignment = 5

abbrev pub err_overflow : ℕ
err_overflow = 6

abbrev pub err_flags : ℕ
err_flags = 7

abbrev pub err_policy : ℕ
err_policy = 8

-- `vmm_region_contract_t`, less its two result fields, which the check does not read
pub record RegionContract : Type 0 where
  pub op : ℕ
  pub virt_start : ℕ
  pub phys_start : ℕ
  pub length : ℕ
  pub pte_flags : ℕ
  pub owner_pid : ℕ
  pub owner_mode : ℕ
  pub trust : ℕ

-- `vmm_compiled_mapping_t`
pub record CompiledMapping : Type 0 where
  pub op : ℕ
  pub virt_start : ℕ
  pub phys_start : ℕ
  pub page_count : ℕ
  pub pte_flags : ℕ
  pub owner_pid : ℕ
  pub owner_mode : ℕ
  pub trust : ℕ
  pub result : ℕ

-- the counters of `vmm_contract_metrics_t` that the check moves
pub record ContractMetrics : Type 0 where
  pub compile_ok : ℕ
  pub compile_fail : ℕ

unfoldable pub vmm_contract_fail :
    CompiledMapping → ℕ → ContractMetrics → Bool × CompiledMapping × ContractMetrics
vmm_contract_fail compiled result m = (
  false,
  record compiled { result = result },
  record m { compile_fail = u64 (m.compile_fail + 1) },
)

abbrev pub owner_is_user : RegionContract → Bool
owner_is_user c = not (c.owner_mode == mode_kernel)

-- the flags that a demand page may not have
abbrev pub not_on_demand : ℕ
not_on_demand = vmm_present + vmm_nx + vmm_accessed + vmm_dirty

abbrev pub huge_size : ℕ
huge_size = 2 * 1024 * 1024

-- the checks of a contract that maps, and the error of the first one that fails
unfoldable pub map_error : RegionContract → Option ℕ
map_error c =
    let max_phys = u64 (c.phys_start + c.length) in
    if not (c.phys_start % page_size == 0)
    then some err_alignment
    else if ltb max_phys c.phys_start
    then some err_overflow
    else if has_flag c.pte_flags vmm_demand && has_flag c.pte_flags not_on_demand
    then some err_flags
    else if has_flag c.pte_flags vmm_huge && not (c.length == huge_size)
    then some err_length
    else if has_flag c.pte_flags vmm_huge
        && (not (c.virt_start % huge_size == 0) || not (c.phys_start % huge_size == 0))
    then some err_alignment
    else if owner_is_user c && not (has_flag c.pte_flags vmm_user)
    then some err_policy
    else none

-- the checks of every contract
unfoldable pub contract_error : RegionContract → Option ℕ
contract_error c =
    let max_virt = u64 (c.virt_start + c.length) in
    let map = map_error c in
    if not (c.op == op_map) && not (c.op == op_unmap)
    then some err_op
    else if c.length == 0 || not (c.length % page_size == 0)
    then some err_length
    else if not (c.virt_start % page_size == 0)
    then some err_alignment
    else if ltb max_virt c.virt_start
    then some err_overflow
    else if not (c.trust == trust_verified) && not (c.trust == trust_unverified)
    then some err_policy
    else if owner_is_user c && (leb kernel_virt_base c.virt_start || ltb kernel_virt_base max_virt)
    then some err_policy
    else if c.op == op_map
    then map
    else if not (c.phys_start == 0) || not (c.pte_flags == 0)
    then some err_flags
    else none

-- what a contract compiles to
unfoldable pub compiled_of : RegionContract → CompiledMapping
compiled_of c = record {
  op = c.op;
  virt_start = c.virt_start;
  phys_start = c.phys_start;
  page_count = c.length / page_size;
  pte_flags = c.pte_flags;
  owner_pid = c.owner_pid;
  owner_mode = c.owner_mode;
  trust = c.trust;
  result = result_ok;
}

-- The checks are in the order of the code and change nothing but the result and the counters, so
-- they stand together in `contract_error`.
unfoldable pub vmm_compile_region_contract :
    RegionContract → CompiledMapping → ContractMetrics → Bool × CompiledMapping × ContractMetrics
vmm_compile_region_contract c compiled m = elim (contract_error c) [
  | some e ↦ vmm_contract_fail (record compiled { result = result_none }) e m
  | none ↦ (true, compiled_of c, record m { compile_ok = u64 (m.compile_ok + 1) })
]
