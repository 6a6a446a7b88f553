-- ===== src/Examples/Endpoints.antt =====
-- An endpoint with one buffered message, and region contracts.
use reaper_operating_system.Base.{
  ℕ, zero, suc, ◌+◌, ◌%◌, ◌<◌, ◌≡◌, refl, ◌↔◌, inl, inr, true, [], ◌∷◌, arith, set, replicate,
  get_or,
}
use reaper_operating_system.Base.Word.{u64_max}
use reaper_operating_system.Ipc.{Ipc, Message, Identity, no_message, ipc_invoke_endpoint}
use reaper_operating_system.Ipc.Channel.{Channel, Represents, channel_send, channel_recv}
use reaper_operating_system.Ipc.Refine.{
  Sent, Received, message_of, ipc_invoke_endpoint-channel_send, ipc_invoke_endpoint-channel_recv,
  ipc_invoke_endpoint_refused,
}
use reaper_operating_system.Contract.{
  RegionContract, CompiledMapping, ContractMetrics, map_error, contract_error,
  vmm_compile_region_contract,
}
use reaper_operating_system.Contract.Permit.{
  Permitted, IsWords, Compiles, vmm_compile_region_contract-Permitted,
  vmm_compile_region_contract-Compiles,
}

abbrev hello : Message
hello = record { data0 = 1; data1 = 2; data2 = 3; data3 = 9 }

-- an endpoint with a message in its last slot
abbrev waiting : Ipc
waiting = record {
  ep = record {
    send_head = 0;
    send_tail = 0;
    recv_head = 0;
    recv_tail = 0;
    buffer = set (replicate 16 no_message) 15 hello;
    head = 15;
    tail = 0;
    count = 1;
  };
  threads = λ t. record { wait_next = 0; ipc_payload = no_message };
  calls = [];
}

abbrev one_message : Channel
one_message = record { queue = hello ∷ []; receivers = [] }

waiting-Represents : Represents waiting (hello ∷ []) [] one_message
waiting-Represents = record {
  buffered = record {
    storage = refl;
    start = omega arith;
    end = refl;
    size = refl;
    room = omega arith;
    slots = λ i lt. slot i lt;
  };
  send_queue = refl;
  recv_queue = refl;
  send_distinct = tt;
  recv_distinct = tt;
  full = λ some. absurd (omega arith);
  idle = λ some. absurd (omega arith);
  queue = refl;
}
  where
    slot :
        (i : ℕ)
        → i < 1
        → get_or waiting.ep.buffer ((15 + i) % 16) no_message ≡ get_or (hello ∷ []) i no_message
    slot zero lt = refl
    slot (suc i) lt = absurd (omega arith)

-- a capability with both rights
abbrev both : Identity
both = record { object_ptr = 4096; rights = 3; badge = 7 }

ipc_invoke_endpoint-channel_send_example :
    ((ipc_invoke_endpoint 5 both 10 11 12 0 waiting).0 ≡ 0)
    × Sent
        (ipc_invoke_endpoint 5 both 10 11 12 0 waiting).1
        (message_of both 10 11 12)
        one_message
        (channel_send (message_of both 10 11 12) one_message)
ipc_invoke_endpoint-channel_send_example =
    ipc_invoke_endpoint-channel_send 5 both 10 11 12 0 waiting (hello ∷ []) [] one_message
      waiting-Represents (omega arith) tt (omega arith) refl (omega arith)

ipc_invoke_endpoint-channel_recv_example :
    ((ipc_invoke_endpoint 5 both 0 0 0 2 waiting).0 ≡ 0)
    × Received
        (ipc_invoke_endpoint 5 both 0 0 0 2 waiting).1
        5
        one_message
        (channel_recv 5 one_message)
ipc_invoke_endpoint-channel_recv_example =
    ipc_invoke_endpoint-channel_recv 5 both 0 0 0 2 waiting (hello ∷ []) [] one_message
      waiting-Represents (omega arith) tt tt (omega arith) refl (inl refl)

-- a capability that may only read
abbrev reader : Identity
reader = record { object_ptr = 4096; rights = 1; badge = 7 }

ipc_invoke_endpoint_refused_example :
    ipc_invoke_endpoint 5 reader 10 11 12 1 waiting ≡ (u64_max, waiting)
ipc_invoke_endpoint_refused_example =
    ipc_invoke_endpoint_refused 5 reader 10 11 12 1 waiting
      (inr (inl (omega arith, refl, inl refl)))

-- two pages for a user
abbrev two_pages : RegionContract
two_pages = record {
  op = 0;
  virt_start = 0x400000;
  phys_start = 0x8000;
  length = 8192;
  pte_flags = 7;
  owner_pid = 7;
  owner_mode = 1;
  trust = 0;
}

abbrev fresh : CompiledMapping
fresh = record {
  op = 0;
  virt_start = 0;
  phys_start = 0;
  page_count = 0;
  pte_flags = 0;
  owner_pid = 0;
  owner_mode = 0;
  trust = 0;
  result = 0;
}

abbrev counters : ContractMetrics
counters = record { compile_ok = 0; compile_fail = 0 }

two_pages-IsWords : IsWords two_pages
two_pages-IsWords = record { virt = omega arith; phys = omega arith; size = omega arith }

compiles : (vmm_compile_region_contract two_pages fresh counters).0 ≡ true
unfolding vmm_compile_region_contract contract_error map_error
compiles = refl

vmm_compile_region_contract-Permitted_example :
    ((vmm_compile_region_contract two_pages fresh counters).0 ≡ true) ↔ Permitted two_pages
vmm_compile_region_contract-Permitted_example =
    vmm_compile_region_contract-Permitted two_pages fresh counters two_pages-IsWords

vmm_compile_region_contract-Compiles_example :
    Compiles two_pages (vmm_compile_region_contract two_pages fresh counters).1
vmm_compile_region_contract-Compiles_example =
    vmm_compile_region_contract-Compiles two_pages fresh counters two_pages-IsWords compiles
