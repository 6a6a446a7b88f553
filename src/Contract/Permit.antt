-- ===== src/Contract/Permit.antt =====
-- Which region contracts compile, and what a compiled one promises of its pages.
use reaper_operating_system.Base.{
  ℕ, ◌+◌, ◌*◌, ◌%◌, ◌^◌, ◌≤◌, ◌<◌, ◌≡◌, refl, ap, ◌∙◌, ◌≢◌, ◌↔◌, ◌⊎◌, inl, inr, true, false, ◌||◌,
  none, some, arith, ◌==◌, Option-cases, Bool-cases,
}
use reaper_operating_system.Base.Word.{u64}
use reaper_operating_system.Base.Bits.{has_flag, has_flag-bit_or}
use reaper_operating_system.Mode.{mode_kernel}
use reaper_operating_system.Contract.{
  RegionContract, CompiledMapping, ContractMetrics, map_error, contract_error, vmm_contract_fail,
  compiled_of, vmm_compile_region_contract, kernel_virt_base, huge_size, page_size, op_map,
  op_unmap, not_on_demand, vmm_demand, vmm_huge, vmm_user, vmm_present, vmm_nx, vmm_accessed,
  vmm_dirty,
}

-- a page flag of a contract
abbrev pub Has : RegionContract → ℕ → Type 0
Has c flag = has_flag c.pte_flags flag ≡ true

-- A region that may be mapped: whole pages of physical memory; a demand page is neither present nor
-- marked NX, accessed or dirty; a huge page is one aligned stretch of 2 MiB; and a user's page says so.
pub record Mappable (c : RegionContract) : Type 0 where
  pub frame : c.phys_start % page_size ≡ 0
  pub frames_end : c.phys_start + c.length < 2 ^ 64
  pub demand :
      Has c vmm_demand
      → (¬ Has c vmm_present) × (¬ Has c vmm_nx) × (¬ Has c vmm_accessed) × (¬ Has c vmm_dirty)
  pub huge :
      Has c vmm_huge
      → (c.length ≡ huge_size) × (c.virt_start % huge_size ≡ 0) × (c.phys_start % huge_size ≡ 0)
  pub user : c.owner_mode ≢ mode_kernel → Has c vmm_user

-- A contract that may compile: whole pages that do not run past the end of the address space, below
-- the kernel's base unless the kernel owns them, with a known operation and trust.
pub record Permitted (c : RegionContract) : Type 0 where
  pub pages : c.length % page_size ≡ 0
  pub some_page : 0 < c.length
  pub aligned : c.virt_start % page_size ≡ 0
  pub ends : c.virt_start + c.length < 2 ^ 64
  pub below : c.owner_mode ≢ mode_kernel → c.virt_start + c.length ≤ kernel_virt_base
  pub trusted : c.trust < 2
  pub operation :
      ((c.op ≡ op_map) × Mappable c) ⊎ ((c.op ≡ op_unmap) × (c.phys_start ≡ 0) × (c.pte_flags ≡ 0))

-- the fields that the check reads are 64-bit words
pub record IsWords (c : RegionContract) : Type 0 where
  pub virt : c.virt_start < 2 ^ 64
  pub phys : c.phys_start < 2 ^ 64
  pub size : c.length < 2 ^ 64

not_on_demand-flags :
    (a : ℕ)
    → has_flag a not_on_demand ≡ (
        has_flag a vmm_present
        || (has_flag a vmm_nx || (has_flag a vmm_accessed || has_flag a vmm_dirty)))
not_on_demand-flags a =
    has_flag-bit_or a vmm_present (vmm_nx + vmm_accessed + vmm_dirty)
    ∙ ap (λ t. has_flag a vmm_present || t)
        (has_flag-bit_or a vmm_nx (vmm_accessed + vmm_dirty)
          ∙ ap (λ t. has_flag a vmm_nx || t) (has_flag-bit_or a vmm_accessed vmm_dirty))

map_error-Mappable : (c : RegionContract) → IsWords c → map_error c ≡ none → Mappable c
unfolding map_error
map_error-Mappable c w h = record {
  frame = ground arith;
  frames_end = ground arith;
  demand = λ d. ground (arith, not_on_demand-flags c.pte_flags);
  huge = λ b. ground arith;
  user = λ o. ground arith;
}

Mappable-map_error : (c : RegionContract) → IsWords c → Mappable c → map_error c ≡ none
unfolding map_error
Mappable-map_error c w m = ground (arith, not_on_demand-flags c.pte_flags)

contract_error-Permitted : (c : RegionContract) → IsWords c → contract_error c ≡ none → Permitted c
unfolding contract_error
contract_error-Permitted c w h = record {
  pages = ground arith;
  some_page = ground arith;
  aligned = ground arith;
  ends = ground arith;
  below = λ o. ground arith;
  trusted = ground arith;
  operation = elim (Bool-cases (c.op == op_map)) [
    | inl e ↦ inl (ground arith, map_error-Mappable c w (ground arith))
    | inr e ↦ inr (ground arith, ground arith, ground arith)
  ];
}

Permitted-contract_error : (c : RegionContract) → IsWords c → Permitted c → contract_error c ≡ none
unfolding contract_error
Permitted-contract_error c w p = elim p.operation [
  | inl (op, m) ↦ let fine = Mappable-map_error c w m in ground arith
  | inr (op, phys, flags) ↦ ground arith
]

compile-none :
    (c : RegionContract) (compiled : CompiledMapping) (m : ContractMetrics)
    → contract_error c ≡ none
    → vmm_compile_region_contract c compiled m
      ≡ (true, compiled_of c, record m { compile_ok = u64 (m.compile_ok + 1) })
unfolding vmm_compile_region_contract compiled_of
compile-none c compiled m fine = rw (vmm_compile_region_contract, fine) refl

compile-some :
    (c : RegionContract) (compiled : CompiledMapping) (m : ContractMetrics) (e : ℕ)
    → contract_error c ≡ some e
    → (vmm_compile_region_contract c compiled m).0 ≡ false
unfolding vmm_compile_region_contract vmm_contract_fail
compile-some c compiled m e bad = rw (vmm_compile_region_contract, bad) refl

-- On 64-bit words, exactly the permitted contracts compile: whole pages that do not run past the
-- end of the address space, below the kernel's base unless the kernel owns them, with a known
-- operation and trust, a mappable region to map, and no frame and no flags to unmap.
pub vmm_compile_region_contract-Permitted :
    (c : RegionContract) (compiled : CompiledMapping) (m : ContractMetrics)
    → IsWords c
    → ((vmm_compile_region_contract c compiled m).0 ≡ true) ↔ Permitted c
vmm_compile_region_contract-Permitted c compiled m w = elim (Option-cases (contract_error c)) [
  | inl fine ↦
      (λ h. contract_error-Permitted c w fine, λ p. ap (λ r. r.0) (compile-none c compiled m fine))
  | inr (e, bad) ↦
      let fails = compile-some c compiled m e bad in
      (λ h. absurd cc, λ p. let fine = Permitted-contract_error c w p in absurd cc)
]

-- Each page of a mapping that compiles for a user lies below the kernel's base and has a start that
-- did not wrap around; the pages add up to the region, and they keep the operation, the flags and
-- the owner of the contract.
pub record Compiles (c : RegionContract) (out : CompiledMapping) : Type 0 where
  pub start : out.virt_start ≡ c.virt_start
  pub covers : out.page_count * page_size ≡ c.length
  pub some_page : 0 < out.page_count
  pub page :
      (i : ℕ)
      → i < out.page_count
      → c.owner_mode ≢ mode_kernel
      → out.virt_start + i * page_size + page_size ≤ kernel_virt_base
  pub frame :
      (i : ℕ)
      → i < out.page_count
      → c.op ≡ op_map
      → (out.phys_start + i * page_size + page_size ≤ 2 ^ 64)
        × ((out.phys_start + i * page_size) % page_size ≡ 0)
  pub same :
      (out.op ≡ c.op)
      × (out.pte_flags ≡ c.pte_flags)
      × (out.owner_pid ≡ c.owner_pid)
      × (out.owner_mode ≡ c.owner_mode)

-- On 64-bit words, each page of a mapping that compiles for a user ends at or below the kernel's
-- base, each frame to map is whole and inside the address space, the pages add up to the region,
-- and they keep the operation, the flags and the owner of the contract.
pub vmm_compile_region_contract-Compiles :
    (c : RegionContract) (compiled : CompiledMapping) (m : ContractMetrics)
    → IsWords c
    → (vmm_compile_region_contract c compiled m).0 ≡ true
    → Compiles c (vmm_compile_region_contract c compiled m).1
unfolding compiled_of
vmm_compile_region_contract-Compiles c compiled m w ok = elim (Option-cases (contract_error c)) [
  | inl fine ↦
      let p = contract_error-Permitted c w fine in
      let pages = p.pages in
      let whole = p.some_page in
      let below = p.below in
      let operation = p.operation in
      rw (compile-none c compiled m fine) (record {
        start = refl;
        covers = omega arith;
        some_page = omega arith;
        page = λ i lt user. let end = below user in omega arith;
        frame = λ i lt map. elim operation [
          | inl (op, mappable) ↦
              let ends = mappable.frames_end in
              let frame = mappable.frame in (omega arith, omega arith)
          | inr (op, phys, flags) ↦ absurd (omega arith)
        ];
        same = (refl, refl, refl, refl);
      })
  | inr (e, bad) ↦ let fails = compile-some c compiled m e bad in absurd cc
]
