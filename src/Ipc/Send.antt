-- ===== src/Ipc/Send.antt =====
-- What `endpoint_send` does to the channel that an endpoint stands for.
use reaper_operating_system.Base.{
  ℕ, ◌<◌, ◌≡◌, refl, sym, ap, ◌∙◌, ◌≢◌, true, false, List, [], ◌∷◌, ◌++◌, arith, ltb, ◌==◌,
  if◌then◌else◌, length, ne→==, lt→ltb, le→ltb,
}
use reaper_operating_system.Ipc.{
  Ipc, Thread, Message, put, push_waiter, push_message, endpoint_send, ipc_buffer_size,
}
use reaper_operating_system.Base.{Apart}
use reaper_operating_system.Ipc.Waiters.{
  Queue-head, Queue-leave, Queue-SameLinks, SameLinks-keep, SameLinks-put, Distinct-append,
  payloads, payloads-put, payloads-append, put-same, push_waiter-Joined,
}
use reaper_operating_system.Ipc.Channel.{Channel, Buffered-push, Represents}

-- some contents of the buffer and some blocked senders with which the state stands for the channel
abbrev pub Implements : Ipc → Channel → Type 0
Implements s ch = (msgs : List Message) × (senders : List ℕ) × Represents s msgs senders ch

pub append_nil : (ms : List Message) → ms ++ [] ≡ ms
append_nil [] = refl
append_nil (m ∷ ms) = ap (λ t. m ∷ t) (append_nil ms)

pub append_assoc : (xs ys zs : List Message) → (xs ++ ys) ++ zs ≡ xs ++ (ys ++ zs)
append_assoc [] ys zs = refl
append_assoc (x ∷ xs) ys zs = ap (λ t. x ∷ t) (append_assoc xs ys zs)

-- no sender is blocked while a slot is free
pub no_senders :
    {s : Ipc} {msgs : List Message} {ch : Channel} (senders : List ℕ)
    → Represents s msgs senders ch
    → length msgs < ipc_buffer_size
    → senders ≡ []
no_senders [] rep room = refl
no_senders (x ∷ xs) rep room = let full = rep.full in absurd (omega arith)

pub send_direct :
    (caller : ℕ) (m : Message) (s : Ipc) (msgs : List Message) (q : List Message) (r : ℕ)
    (rs : List ℕ)
    → Represents s msgs [] (record { queue = q; receivers = r ∷ rs })
    → Represents (endpoint_send caller m s) msgs [] (record { queue = q; receivers = rs })
unfolding endpoint_send
send_direct caller m s msgs q r rs rep =
    let th = s.threads in
    let h = s.ep.recv_head in
    let first = Queue-head th h s.ep.recv_tail r rs rep.recv_queue in
    let test : (h == 0) ≡ false = ne→== h 0 (λ e. first.1 (sym first.0 ∙ e)) in
    let idle = rep.idle in
    rw test (record {
      buffered = rep.buffered;
      send_queue = rep.send_queue;
      recv_queue =
          Queue-SameLinks th (put th h (record (th h) { ipc_payload = m })) (th h).wait_next
            (if (th h).wait_next == 0 then 0 else s.ep.recv_tail) rs (SameLinks-keep th h m rs)
            (Queue-leave th h s.ep.recv_tail r rs rep.recv_queue);
      send_distinct = tt;
      recv_distinct = rep.recv_distinct.1;
      full = λ some. absurd (omega arith);
      idle = λ some. idle (omega arith);
      queue = rep.queue;
    })

pub send_buffered :
    (caller : ℕ) (m : Message) (s : Ipc) (msgs : List Message) (q : List Message)
    → Represents s msgs [] (record { queue = q; receivers = [] })
    → length msgs < ipc_buffer_size
    → Represents
        (endpoint_send caller m s)
        (msgs ++ (m ∷ []))
        []
        (record { queue = q ++ (m ∷ []); receivers = [] })
unfolding endpoint_send push_message
send_buffered caller m s msgs q rep room =
    let test : (s.ep.recv_head == 0) ≡ true = ap (λ n. n == 0) rep.recv_queue in
    let size = rep.buffered.size in
    let free : ltb s.ep.count ipc_buffer_size ≡ true =
      lt→ltb s.ep.count ipc_buffer_size (omega arith) in
    rw (test, free)
      (record {
        buffered =
            Buffered-push s.ep.buffer s.ep.head s.ep.tail s.ep.count msgs m rep.buffered room;
        send_queue = rep.send_queue;
        recv_queue = rep.recv_queue;
        send_distinct = tt;
        recv_distinct = tt;
        full = λ some. absurd (omega arith);
        idle = λ some. absurd (omega arith);
        queue =
            ap (λ t. t ++ (m ∷ [])) (rep.queue ∙ append_nil msgs)
            ∙ sym (append_nil (msgs ++ (m ∷ [])));
      })

pub send_blocked :
    (caller : ℕ) (m : Message) (s : Ipc) (msgs : List Message) (senders : List ℕ) (q : List Message)
    → Represents s msgs senders (record { queue = q; receivers = [] })
    → length msgs ≡ ipc_buffer_size
    → caller ≢ 0
    → Apart caller senders
    → Represents
        (endpoint_send caller m s)
        msgs
        (senders ++ (caller ∷ []))
        (record { queue = q ++ (m ∷ []); receivers = [] })
unfolding endpoint_send
send_blocked caller m s msgs senders q rep full nonzero apart =
    let v : Thread = record { wait_next = 0; ipc_payload = m } in
    let blocked = put s.threads caller v in
    let test : (s.ep.recv_head == 0) ≡ true = ap (λ n. n == 0) rep.recv_queue in
    let size = rep.buffered.size in
    let none_free : ltb s.ep.count ipc_buffer_size ≡ false =
      le→ltb s.ep.count ipc_buffer_size (omega arith) in
    let joined =
      push_waiter-Joined blocked caller s.ep.send_head s.ep.send_tail senders nonzero
        (ap (λ t. t.wait_next) (put-same s.threads caller v)) apart rep.send_distinct
        (Queue-SameLinks s.threads blocked s.ep.send_head s.ep.send_tail senders
          (SameLinks-put s.threads caller v senders apart) rep.send_queue) in
    let carried : payloads (push_waiter caller s.ep.send_head s.ep.send_tail blocked).2
          (senders ++ (caller ∷ []))
        ≡ payloads s.threads senders ++ (m ∷ []) =
      joined.1 (senders ++ (caller ∷ []))
      ∙ payloads-append blocked caller senders
      ∙ rw (payloads-put s.threads caller v senders apart, put-same s.threads caller v) refl in
    rw (test, none_free)
      (record {
        buffered = rep.buffered;
        send_queue = joined.0;
        recv_queue = rep.recv_queue;
        send_distinct = Distinct-append caller senders apart rep.send_distinct;
        recv_distinct = tt;
        full = λ some. full;
        idle = λ some. absurd (omega arith);
        queue =
            ap (λ t. t ++ (m ∷ [])) rep.queue
            ∙ append_assoc msgs (payloads s.threads senders) (m ∷ [])
            ∙ ap (λ t. msgs ++ t) (sym carried);
      })
