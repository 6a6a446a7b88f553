-- ===== src/Ipc.antt =====
-- IPC endpoints (`ipc_invoke_endpoint` of kernel/syscall.c, kernel/include/ipc.h): a buffer of sixteen
-- messages, and queues of blocked senders and receivers that are linked through the threads. Threads
-- are numbers, NULL is 0, and the store maps each to the two fields that the code uses.
pub mod Waiters
pub mod Channel
pub mod Send
pub mod Receive
pub mod Refine
use reaper_operating_system.Base.{
  ℕ, ◌+◌, ◌-◌, ◌%◌, ◌^◌, Bool, true, false, not, Option, none, some, List, [], ◌∷◌, ltb, ◌==◌,
  if◌then◌else◌, get_or, set,
}
use reaper_operating_system.Base.Word.{u32, u64_max}
use reaper_operating_system.Base.Bits.{has_flag}

abbrev pub ipc_buffer_size : ℕ
ipc_buffer_size = 16

abbrev pub cap_right_read : ℕ
cap_right_read = 2 ^ 0

abbrev pub cap_right_write : ℕ
cap_right_write = 2 ^ 1

abbrev pub cap_invoke_opt_send : ℕ
cap_invoke_opt_send = 1

abbrev pub cap_invoke_opt_recv : ℕ
cap_invoke_opt_recv = 2

-- `ipc_message_t`, and `ipc_payload` of a thread
pub record Message : Type 0 where
  pub data0 : ℕ
  pub data1 : ℕ
  pub data2 : ℕ
  pub data3 : ℕ

abbrev pub no_message : Message
no_message = record { data0 = 0; data1 = 0; data2 = 0; data3 = 0 }

-- the fields of `thread_t` that an endpoint uses
pub record Thread : Type 0 where
  pub wait_next : ℕ
  pub ipc_payload : Message

-- the fields of `cap_identity_t` that an invocation reads
pub record Identity : Type 0 where
  pub object_ptr : ℕ
  pub rights : ℕ
  pub badge : ℕ

-- `ipc_endpoint_t`, less its lock
pub record Endpoint : Type 0 where
  pub send_head : ℕ
  pub send_tail : ℕ
  pub recv_head : ℕ
  pub recv_tail : ℕ
  pub buffer : List Message
  pub head : ℕ
  pub tail : ℕ
  pub count : ℕ

-- calls into the scheduler: `scheduler_block`, `scheduler_wake` and `schedule`
pub data SchedCall : Type 0 where
  block wake : ℕ → SchedCall
  switch : SchedCall

-- What an invocation changes: the endpoint, the threads, and the calls it made (newest first).
pub record Ipc : Type 0 where
  pub ep : Endpoint
  pub threads : ℕ → Thread
  pub calls : List SchedCall

abbrev pub put : (ℕ → Thread) → ℕ → Thread → ℕ → Thread
put threads t v x = if t == x then v else threads x

-- A caller goes to the end of a queue: the queue's head and tail, and the threads after it.
unfoldable pub push_waiter : (caller head tail : ℕ) → (ℕ → Thread) → ℕ × ℕ × (ℕ → Thread)
push_waiter caller head tail threads =
    if head == 0
    then (caller, caller, threads)
    else (head, caller, put threads tail (record (threads tail) { wait_next = caller }))

-- a message goes into the slot at `tail`
unfoldable pub push_message : Message → Endpoint → Endpoint
push_message m ep = record ep {
  buffer = set ep.buffer ep.tail m;
  tail = u32 (ep.tail + 1) % ipc_buffer_size;
  count = u32 (ep.count + 1);
}

unfoldable pub endpoint_send : (caller : ℕ) → Message → Ipc → Ipc
endpoint_send caller m s =
    let r = s.ep.recv_head in
    let next = (s.threads r).wait_next in
    let blocked = put s.threads caller (record { wait_next = 0; ipc_payload = m }) in
    let q = push_waiter caller s.ep.send_head s.ep.send_tail blocked in
    if not (r == 0)
    then record {
      ep = record (s.ep) { recv_head = next; recv_tail = if next == 0 then 0 else s.ep.recv_tail };
      threads = put s.threads r (record (s.threads r) { ipc_payload = m });
      calls = wake r ∷ s.calls;
    }
    else if ltb s.ep.count ipc_buffer_size
    then record s { ep = push_message m s.ep }
    else record {
      ep = record (s.ep) { send_head = q.0; send_tail = q.1 };
      threads = q.2;
      calls = switch ∷ block caller ∷ s.calls;
    }

-- the oldest buffered message leaves its slot
unfoldable pub pop_message : Endpoint → Endpoint
pop_message ep = record ep { head = u32 (ep.head + 1) % ipc_buffer_size; count = ep.count - 1 }

-- A blocked sender's message takes the slot that a receiver vacated.
unfoldable pub refill : Ipc → Ipc
refill s =
    let t = s.ep.send_head in
    let next = (s.threads t).wait_next in
    if t == 0 then s else record s {
      ep =
          push_message (s.threads t).ipc_payload (record (s.ep) {
            send_head = next;
            send_tail = if next == 0 then 0 else s.ep.send_tail;
          });
      calls = wake t ∷ s.calls;
    }

unfoldable pub endpoint_recv : (caller : ℕ) → Ipc → Ipc
endpoint_recv caller s =
    let m = get_or s.ep.buffer s.ep.head no_message in
    let blocked = put s.threads caller (record (s.threads caller) { wait_next = 0 }) in
    let q = push_waiter caller s.ep.recv_head s.ep.recv_tail blocked in
    if ltb 0 s.ep.count
    then refill (record s {
      ep = pop_message s.ep;
      threads = put s.threads caller (record (s.threads caller) { ipc_payload = m });
    })
    else record {
      ep = record (s.ep) { recv_head = q.0; recv_tail = q.1 };
      threads = q.2;
      calls = switch ∷ block caller ∷ s.calls;
    }

-- whether an invocation sends: `none` where an automatic one has neither right
unfoldable pub is_send : (rights options : ℕ) → Option Bool
is_send rights options =
    if options == cap_invoke_opt_send
    then some true
    else if options == cap_invoke_opt_recv
    then some false
    else if has_flag rights cap_right_write
    then some true
    else if has_flag rights cap_right_read
    then some false
    else none

unfoldable pub ipc_invoke_endpoint :
    (caller : ℕ) → Identity → (a0 a1 a2 options : ℕ) → Ipc → ℕ × Ipc
ipc_invoke_endpoint caller ident a0 a1 a2 options s =
    let m : Message = record { data0 = a0; data1 = a1; data2 = a2; data3 = ident.badge } in
    if ident.object_ptr == 0 then (u64_max, s) else elim (is_send ident.rights options) [
      | none ↦ (u64_max, s)
      | some true ↦
          if not (has_flag ident.rights cap_right_write)
          then (u64_max, s)
          else (0, endpoint_send caller m s)
      | some false ↦
          if not (has_flag ident.rights cap_right_read)
          then (u64_max, s)
          else (0, endpoint_recv caller s)
    ]
