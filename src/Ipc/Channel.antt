-- ===== src/Ipc/Channel.antt =====
-- What an endpoint promises: one queue of messages, first in, first out, and a queue of receivers
-- that wait while there is no message. The messages of blocked senders stand at the end of the queue.
use reaper_operating_system.Base.{
  ℕ, zero, suc, ◌+◌, ◌-◌, ◌%◌, ◌≤◌, ◌<◌, ◌≡◌, refl, sym, ap, ◌∙◌, ◌≢◌, List, [], ◌∷◌, ◌++◌, arith,
  ◌==◌, length, get_or, set, length-set, length-append, get_or-set_self, get_or-set_ne, Bool-cases,
  ==→eq, inl, inr,
}
use reaper_operating_system.Base.Word.{u32}
use reaper_operating_system.Ipc.{Ipc, Message, no_message, ipc_buffer_size}
use reaper_operating_system.Base.{Distinct}
use reaper_operating_system.Ipc.Waiters.{Queue, payloads}

pub record Channel : Type 0 where
  pub queue : List Message
  pub receivers : List ℕ

-- A message goes to the first waiting receiver, or else to the end of the queue.
unfoldable pub channel_send : Message → Channel → Channel
channel_send m ch = elim ch.receivers [
  | [] ↦ record ch { queue = ch.queue ++ (m ∷ []) }
  | r ∷ rs ↦ record ch { receivers = rs }
]

-- A receiver takes the first message, or else waits.
unfoldable pub channel_recv : ℕ → Channel → Channel
channel_recv caller ch = elim ch.queue [
  | [] ↦ record ch { receivers = ch.receivers ++ (caller ∷ []) }
  | m ∷ ms ↦ record ch { queue = ms }
]

-- The ring from `head` holds `msgs`.
pub record Buffered (buffer : List Message) (head tail count : ℕ) (msgs : List Message)
    : Type 0 where
  pub storage : length buffer ≡ ipc_buffer_size
  pub start : head < ipc_buffer_size
  pub end : tail ≡ (head + count) % ipc_buffer_size
  pub size : count ≡ length msgs
  pub room : length msgs ≤ ipc_buffer_size
  pub slots :
      (i : ℕ)
      → i < length msgs
      → get_or buffer ((head + i) % ipc_buffer_size) no_message ≡ get_or msgs i no_message

-- The endpoint and its threads stand for a channel, with `msgs` in the buffer and `senders` blocked.
pub record Represents (s : Ipc) (msgs : List Message) (senders : List ℕ) (ch : Channel)
    : Type 0 where
  pub buffered : Buffered s.ep.buffer s.ep.head s.ep.tail s.ep.count msgs
  pub send_queue : Queue s.threads s.ep.send_head s.ep.send_tail senders
  pub recv_queue : Queue s.threads s.ep.recv_head s.ep.recv_tail ch.receivers
  pub send_distinct : Distinct senders
  pub recv_distinct : Distinct ch.receivers
  pub full : 0 < length senders → length msgs ≡ ipc_buffer_size
  pub idle : 0 < length ch.receivers → length msgs ≡ 0
  pub queue : ch.queue ≡ msgs ++ payloads s.threads senders

get_or-append_old :
    (xs : List Message) (m : Message) (i : ℕ)
    → i < length xs
    → get_or (xs ++ (m ∷ [])) i no_message ≡ get_or xs i no_message
get_or-append_old [] m i h = absurd (omega arith)
get_or-append_old (x ∷ xs) m zero h = refl
get_or-append_old (x ∷ xs) m (suc i) h = get_or-append_old xs m i (omega arith)

get_or-append_new :
    (xs : List Message) (m : Message) → get_or (xs ++ (m ∷ [])) (length xs) no_message ≡ m
get_or-append_new [] m = refl
get_or-append_new (x ∷ xs) m = get_or-append_new xs m

pub Buffered-push :
    (buffer : List Message) (head tail count : ℕ) (msgs : List Message) (m : Message)
    → Buffered buffer head tail count msgs
    → length msgs < ipc_buffer_size
    → Buffered
        (set buffer tail m)
        head
        (u32 (tail + 1) % ipc_buffer_size)
        (u32 (count + 1))
        (msgs ++ (m ∷ []))
Buffered-push buffer head tail count msgs m b fits =
    let storage = b.storage in
    let start = b.start in
    let end = b.end in
    let size = b.size in
    let grown : length (msgs ++ (m ∷ [])) ≡ length msgs + 1 = length-append msgs (m ∷ []) in
    record {
      storage = length-set buffer tail m ∙ storage;
      start = start;
      end = omega arith;
      size = omega arith;
      room = omega arith;
      slots = λ i lt. elim (Bool-cases (i == length msgs)) [
        | inl e ↦
            let last : i ≡ length msgs = ==→eq i (length msgs) e in
            let at : (head + i) % ipc_buffer_size ≡ tail = omega arith in
            rw at (
              get_or-set_self buffer tail m no_message (omega arith)
              ∙ sym (
                  ap (λ j. get_or (msgs ++ (m ∷ [])) j no_message) last ∙ get_or-append_new msgs m))
        | inr e ↦
            let old : i < length msgs = ground (arith, grown) in
            let apart : tail ≢ (head + i) % ipc_buffer_size = λ same. omega arith in
            get_or-set_ne buffer m no_message apart
            ∙ b.slots i old
            ∙ sym (get_or-append_old msgs m i old)
      ];
    }

pub Buffered-pop :
    (buffer : List Message) (head tail count : ℕ) (m : Message) (msgs : List Message)
    → Buffered buffer head tail count (m ∷ msgs)
    → (get_or buffer head no_message ≡ m)
      × Buffered buffer (u32 (head + 1) % ipc_buffer_size) tail (count - 1) msgs
Buffered-pop buffer head tail count m msgs b =
    let storage = b.storage in
    let start = b.start in
    let end = b.end in
    let size = b.size in
    let room = b.room in
    let first : (head + 0) % ipc_buffer_size ≡ head = omega arith in
    (
      ap (λ j. get_or buffer j no_message) (sym first) ∙ b.slots 0 (omega arith),
      record {
        storage = storage;
        start = omega arith;
        end = omega arith;
        size = omega arith;
        room = omega arith;
        slots = λ i lt.
            let at : ((head + 1) % 4294967296 % ipc_buffer_size + i) % ipc_buffer_size
                ≡ (head + suc i) % ipc_buffer_size =
              omega arith in
            ap (λ j. get_or buffer j no_message) at ∙ b.slots (suc i) (omega arith);
      },
    )
