-- ===== src/Ipc/Receive.antt =====
-- What `endpoint_recv` does to the channel that an endpoint stands for.
use reaper_operating_system.Base.{
  ℕ, ◌+◌, ◌-◌, ◌%◌, ◌<◌, ◌≡◌, refl, sym, ap, ◌∙◌, ◌≢◌, true, false, List, [], ◌∷◌, ◌++◌, arith, ltb,
  ◌==◌, if◌then◌else◌, length, get_or, set, ne→==, lt→ltb, le→ltb, length-append,
}
use mathlib.Core.Path.{subst}
use reaper_operating_system.Base.Word.{u32}
use reaper_operating_system.Ipc.{
  Ipc, Thread, Message, no_message, wake, put, push_message, pop_message, refill, endpoint_recv,
}
use reaper_operating_system.Base.{Apart}
use reaper_operating_system.Ipc.Waiters.{
  Queue-head, Queue-leave, Queue-SameLinks, SameLinks-keep, SameLinks-put, Distinct-append,
  payloads, payloads-put, put-same, put_ne, push_waiter-Joined,
}
use reaper_operating_system.Ipc.Channel.{Buffered, Buffered-push, Buffered-pop, Represents}
use reaper_operating_system.Ipc.Send.{Implements, append_assoc}

-- after a receiver took the first message, before a sender is let in
drained : ℕ → Message → Ipc → Ipc
drained caller m s = record s {
  ep = pop_message s.ep;
  threads = put s.threads caller (record (s.threads caller) { ipc_payload = m });
}

recv_pops :
    (caller : ℕ) (m : Message) (s : Ipc)
    → 0 < s.ep.count
    → get_or s.ep.buffer s.ep.head no_message ≡ m
    → endpoint_recv caller s ≡ refill (drained caller m s)
unfolding endpoint_recv drained
recv_pops caller m s some at =
    let test = lt→ltb 0 s.ep.count some in rw test (ap (λ n. refill (drained caller n s)) at)

refill_idle : (s : Ipc) → s.ep.send_head ≡ 0 → refill s ≡ s
unfolding refill
refill_idle s e = let test : (s.ep.send_head == 0) ≡ true = ap (λ n. n == 0) e in rw test refl

-- after the first blocked sender's message took the free slot
refilled : Ipc → Ipc
refilled s =
    let t = s.ep.send_head in
    let next = (s.threads t).wait_next in
    record s {
      ep =
          push_message (s.threads t).ipc_payload (record (s.ep) {
            send_head = next;
            send_tail = if next == 0 then 0 else s.ep.send_tail;
          });
      calls = wake t ∷ s.calls;
    }

refill_next : (s : Ipc) → s.ep.send_head ≢ 0 → refill s ≡ refilled s
unfolding refill refilled
refill_next s ne = let test = ne→== s.ep.send_head 0 ne in rw test refl

rest_of : List Message → List Message
rest_of [] = []
rest_of (m ∷ ms) = ms

drained-Represents :
    (caller : ℕ) (s : Ipc) (m : Message) (ms : List Message) (q : List Message) (rs : List ℕ)
    → Represents s (m ∷ ms) [] (record { queue = m ∷ q; receivers = rs })
    → Represents (drained caller m s) ms [] (record { queue = q; receivers = rs })
unfolding drained pop_message rest_of
drained-Represents caller s m ms q rs rep =
    let idle = rep.idle in
    record {
      buffered = (Buffered-pop s.ep.buffer s.ep.head s.ep.tail s.ep.count m ms rep.buffered).1;
      send_queue = rep.send_queue;
      recv_queue =
          Queue-SameLinks s.threads (drained caller m s).threads s.ep.recv_head s.ep.recv_tail rs
            (SameLinks-keep s.threads caller m rs) rep.recv_queue;
      send_distinct = tt;
      recv_distinct = rep.recv_distinct;
      full = λ some. absurd (omega arith);
      idle = λ some. absurd (omega arith);
      queue = ap rest_of rep.queue;
    }

refilled-Represents :
    (caller : ℕ) (s : Ipc) (m : Message) (ms : List Message) (t : ℕ) (ts : List ℕ)
    (q : List Message) (rs : List ℕ)
    → Represents s (m ∷ ms) (t ∷ ts) (record { queue = m ∷ q; receivers = rs })
    → Apart caller (t ∷ ts)
    → Represents
        (refilled (drained caller m s))
        (ms ++ ((s.threads t).ipc_payload ∷ []))
        ts
        (record { queue = q; receivers = rs })
unfolding refilled drained pop_message push_message rest_of
refilled-Represents caller s m ms t ts q rs rep apart =
    let idle = rep.idle in
    let th = s.threads in
    let th' = put th caller (record (th caller) { ipc_payload = m }) in
    let popped = (Buffered-pop s.ep.buffer s.ep.head s.ep.tail s.ep.count m ms rep.buffered).1 in
    let full = rep.full in
    let linked =
      Queue-SameLinks th th' s.ep.send_head s.ep.send_tail (t ∷ ts)
        (SameLinks-keep th caller m (t ∷ ts)) rep.send_queue in
    let first = (Queue-head th' s.ep.send_head s.ep.send_tail t ts linked).0 in
    let carried : (th' s.ep.send_head).ipc_payload ≡ (th t).ipc_payload =
      ap (λ x. (th' x).ipc_payload) first
      ∙ ap (λ u. u.ipc_payload)
          (put_ne th caller t (record (th caller) { ipc_payload = m }) apart.0) in
    let grown : length (ms ++ ((th t).ipc_payload ∷ [])) ≡ length ms + 1 =
      length-append ms ((th t).ipc_payload ∷ []) in
    record {
      buffered =
          subst
            (λ n.
              Buffered (set s.ep.buffer s.ep.tail n) (u32 (s.ep.head + 1) % 16)
                (u32 (s.ep.tail + 1) % 16) (u32 (s.ep.count - 1 + 1))
                (ms ++ ((th t).ipc_payload ∷ [])))
            (sym carried)
            (Buffered-push s.ep.buffer (u32 (s.ep.head + 1) % 16) s.ep.tail (s.ep.count - 1) ms
              (th t).ipc_payload popped (omega arith));
      send_queue = Queue-leave th' s.ep.send_head s.ep.send_tail t ts linked;
      recv_queue =
          Queue-SameLinks th th' s.ep.recv_head s.ep.recv_tail rs (SameLinks-keep th caller m rs)
            rep.recv_queue;
      send_distinct = rep.send_distinct.1;
      recv_distinct = rep.recv_distinct;
      full = λ some. omega arith;
      idle = λ some. absurd (omega arith);
      queue =
          ap rest_of rep.queue
          ∙ ap (λ ps. ms ++ ((th t).ipc_payload ∷ ps))
              (sym (payloads-put th caller (record (th caller) { ipc_payload = m }) ts apart.1))
          ∙ sym (append_assoc ms ((th t).ipc_payload ∷ []) (payloads th' ts));
    }

after_pop :
    (caller : ℕ) (s : Ipc) (m : Message) (ms : List Message) (senders : List ℕ) (q : List Message)
    (rs : List ℕ)
    → Represents s (m ∷ ms) senders (record { queue = m ∷ q; receivers = rs })
    → Apart caller senders
    → Implements (refill (drained caller m s)) (record { queue = q; receivers = rs })
      × (((refill (drained caller m s)).threads caller).ipc_payload ≡ m)
unfolding drained refilled pop_message
after_pop caller s m ms [] q rs rep apart = rw (refill_idle (drained caller m s) rep.send_queue) (
    (
      (ms, [], drained-Represents caller s m ms q rs rep),
      ap (λ u. u.ipc_payload)
          (put-same s.threads caller (record (s.threads caller) { ipc_payload = m })),
    ))
after_pop caller s m ms (t ∷ ts) q rs rep apart =
    let first = Queue-head s.threads s.ep.send_head s.ep.send_tail t ts rep.send_queue in
    rw (refill_next (drained caller m s) (λ e. first.1 (sym first.0 ∙ e))) (
      (
        (
          ms ++ ((s.threads t).ipc_payload ∷ []),
          ts,
          refilled-Represents caller s m ms t ts q rs rep apart,
        ),
        ap (λ u. u.ipc_payload)
            (put-same s.threads caller (record (s.threads caller) { ipc_payload = m })),
      ))

pub recv_message :
    (caller : ℕ) (s : Ipc) (m : Message) (ms : List Message) (senders : List ℕ) (q : List Message)
    (rs : List ℕ)
    → Represents s (m ∷ ms) senders (record { queue = m ∷ q; receivers = rs })
    → Apart caller senders
    → Implements (endpoint_recv caller s) (record { queue = q; receivers = rs })
      × (((endpoint_recv caller s).threads caller).ipc_payload ≡ m)
recv_message caller s m ms senders q rs rep apart =
    let size = rep.buffered.size in
    let at = (Buffered-pop s.ep.buffer s.ep.head s.ep.tail s.ep.count m ms rep.buffered).0 in
    rw (recv_pops caller m s (omega arith) at) (after_pop caller s m ms senders q rs rep apart)

pub recv_blocked :
    (caller : ℕ) (s : Ipc) (rs : List ℕ)
    → Represents s [] [] (record { queue = []; receivers = rs })
    → caller ≢ 0
    → Apart caller rs
    → Represents
        (endpoint_recv caller s)
        []
        []
        (record { queue = []; receivers = rs ++ (caller ∷ []) })
unfolding endpoint_recv
recv_blocked caller s rs rep nonzero apart =
    let v : Thread = record (s.threads caller) { wait_next = 0 } in
    let blocked = put s.threads caller v in
    let size = rep.buffered.size in
    let empty : ltb 0 s.ep.count ≡ false = le→ltb 0 s.ep.count (omega arith) in
    let joined =
      push_waiter-Joined blocked caller s.ep.recv_head s.ep.recv_tail rs nonzero
        (ap (λ t. t.wait_next) (put-same s.threads caller v)) apart rep.recv_distinct
        (Queue-SameLinks s.threads blocked s.ep.recv_head s.ep.recv_tail rs
          (SameLinks-put s.threads caller v rs apart) rep.recv_queue) in
    rw empty (record {
      buffered = rep.buffered;
      send_queue = rep.send_queue;
      recv_queue = joined.0;
      send_distinct = tt;
      recv_distinct = Distinct-append caller rs apart rep.recv_distinct;
      full = λ some. absurd (omega arith);
      idle = λ some. refl;
      queue = refl;
    })
