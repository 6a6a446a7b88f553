-- ===== src/Ipc/Refine.antt =====
-- `ipc_invoke_endpoint` implements a channel.
use mathlib.Core.Path.{subst}
use mathlib.Core.List.{cons≢nil}
use reaper_operating_system.Base.{
  ℕ, ◌≡◌, refl, sym, ap, ◌∙◌, ◌≢◌, ◌⊎◌, true, false, List, [], ◌∷◌, ◌++◌, arith, ltb, ◌==◌, length,
  Bool-cases, inl, inr, ne→==, lt→ltb, ltb→lt,
}
use reaper_operating_system.Base.Word.{u64_max}
use reaper_operating_system.Base.Bits.{has_flag}
use reaper_operating_system.Ipc.{
  Identity, cap_right_write, cap_right_read, cap_invoke_opt_recv, cap_invoke_opt_send, is_send,
  ipc_invoke_endpoint, Ipc, Message, no_message, put, endpoint_send, endpoint_recv,
}
use reaper_operating_system.Base.{Apart}
use reaper_operating_system.Ipc.Waiters.{Queue-head, payloads, put-same}
use reaper_operating_system.Ipc.Channel.{Channel, channel_send, channel_recv, Represents}
use reaper_operating_system.Ipc.Send.{
  Implements, no_senders, send_direct, send_buffered, send_blocked,
}
use reaper_operating_system.Ipc.Receive.{recv_message, recv_blocked}

-- what a send leaves: the channel after it, and the message with a receiver that waited
abbrev pub Sent : Ipc → Message → (before after : Channel) → Type 0
Sent s m before after =
    Implements s after
    × ((r : ℕ) (rs : List ℕ) → before.receivers ≡ r ∷ rs → (s.threads r).ipc_payload ≡ m)

handed_over :
    (caller : ℕ) (m : Message) (s : Ipc) (r : ℕ)
    → s.ep.recv_head ≡ r
    → r ≢ 0
    → ((endpoint_send caller m s).threads r).ipc_payload ≡ m
unfolding endpoint_send
handed_over caller m s r at ne =
    let test : (s.ep.recv_head == 0) ≡ false = ne→== s.ep.recv_head 0 (λ e. ne (sym at ∙ e)) in
    rw test (
      ap
        (λ x.
          (put s.threads s.ep.recv_head (record (s.threads s.ep.recv_head) { ipc_payload = m })
            x).ipc_payload)
        (sym at)
      ∙ ap (λ t. t.ipc_payload)
          (put-same s.threads s.ep.recv_head
            (record (s.threads s.ep.recv_head) { ipc_payload = m })))

first_receiver : ℕ → List ℕ → ℕ
first_receiver d [] = d
first_receiver d (r ∷ rs) = r

endpoint_send-Sent :
    (caller : ℕ) (m : Message) (s : Ipc) (msgs : List Message) (senders : List ℕ) (q : List Message)
    (rs : List ℕ)
    → Represents s msgs senders (record { queue = q; receivers = rs })
    → caller ≢ 0
    → Apart caller senders
    → Sent
        (endpoint_send caller m s)
        m
        (record { queue = q; receivers = rs })
        (channel_send m (record { queue = q; receivers = rs }))
unfolding channel_send first_receiver
endpoint_send-Sent caller m s msgs senders q (r ∷ rs) rep nonzero apart =
    let idle = rep.idle in
    let unblocked = no_senders senders rep (omega arith) in
    let rep' =
      subst (λ xs. Represents s msgs xs (record { queue = q; receivers = r ∷ rs })) unblocked rep in
    let first = Queue-head s.threads s.ep.recv_head s.ep.recv_tail r rs rep.recv_queue in
    (
      (msgs, [], send_direct caller m s msgs q r rs rep'),
      λ r' rs' e.
          let same : r ≡ r' = ap (first_receiver 0) e in
          handed_over caller m s r' (first.0 ∙ same) (λ z. first.1 (same ∙ z)),
    )
endpoint_send-Sent caller m s msgs senders q [] rep nonzero apart =
    elim (Bool-cases (ltb (length msgs) 16)) [
      | inl free ↦
          let room = ltb→lt (length msgs) 16 free in
          let unblocked = no_senders senders rep room in
          let rep' =
            subst (λ xs. Represents s msgs xs (record { queue = q; receivers = [] })) unblocked
              rep in
          (
            (msgs ++ (m ∷ []), [], send_buffered caller m s msgs q rep' room),
            λ r rs e. absurd (cons≢nil (sym e)),
          )
      | inr used ↦
          let room = rep.buffered.room in
          let full : length msgs ≡ 16 = ground (arith, lt→ltb (length msgs) 16) in
          (
            (
              msgs,
              senders ++ (caller ∷ []),
              send_blocked caller m s msgs senders q rep full nonzero apart,
            ),
            λ r rs e. absurd (cons≢nil (sym e)),
          )
    ]

-- what a receive leaves: the channel after it, and the oldest message with the caller
abbrev pub Received : Ipc → ℕ → (before after : Channel) → Type 0
Received s caller before after =
    Implements s after
    × ((m : Message) (ms : List Message)
        → before.queue ≡ m ∷ ms
        → (s.threads caller).ipc_payload ≡ m)

first_message : List Message → Message
first_message [] = no_message
first_message (m ∷ ms) = m

endpoint_recv-Received :
    (caller : ℕ) (s : Ipc) (msgs : List Message) (senders : List ℕ) (ms : List Message)
    (rs : List ℕ)
    → Represents s msgs senders (record { queue = ms; receivers = rs })
    → ms ≡ msgs ++ payloads s.threads senders
    → caller ≢ 0
    → Apart caller senders
    → Apart caller rs
    → Received
        (endpoint_recv caller s)
        caller
        (record { queue = ms; receivers = rs })
        (channel_recv caller (record { queue = ms; receivers = rs }))
unfolding channel_recv first_message
endpoint_recv-Received caller s (n ∷ ns) senders (m ∷ q) rs rep e nonzero out_s out_r =
    let same : n ≡ m = ap first_message (sym e) in
    let rep' =
      subst (λ x. Represents s (x ∷ ns) senders (record { queue = m ∷ q; receivers = rs })) same
        rep in
    let got = recv_message caller s m ns senders q rs rep' out_s in
    (got.0, λ m' ms f. got.1 ∙ ap first_message f)
endpoint_recv-Received caller s [] [] (m ∷ q) rs rep e nonzero out_s out_r = absurd (cons≢nil e)
endpoint_recv-Received caller s [] (t ∷ ts) (m ∷ q) rs rep e nonzero out_s out_r =
    let full = rep.full in absurd (omega arith)
endpoint_recv-Received caller s [] [] [] rs rep e nonzero out_s out_r =
    ((([], [], recv_blocked caller s rs rep nonzero out_r)), λ m ms f. absurd (cons≢nil (sym f)))
endpoint_recv-Received caller s [] (t ∷ ts) [] rs rep e nonzero out_s out_r =
    absurd (cons≢nil (sym e))
endpoint_recv-Received caller s (m ∷ ms) senders [] rs rep e nonzero out_s out_r =
    absurd (cons≢nil (sym e))

-- the message of an invocation
abbrev pub message_of : Identity → (a0 a1 a2 : ℕ) → Message
message_of ident a0 a1 a2 = record { data0 = a0; data1 = a1; data2 = a2; data3 = ident.badge }

invoke_sends :
    (caller : ℕ) (ident : Identity) (a0 a1 a2 options : ℕ) (s : Ipc)
    → ident.object_ptr ≢ 0
    → has_flag ident.rights cap_right_write ≡ true
    → options ≢ cap_invoke_opt_recv
    → ipc_invoke_endpoint caller ident a0 a1 a2 options s
      ≡ (0, endpoint_send caller (message_of ident a0 a1 a2) s)
unfolding ipc_invoke_endpoint is_send
invoke_sends caller ident a0 a1 a2 options s there right send =
    let object : (ident.object_ptr == 0) ≡ false = ne→== ident.object_ptr 0 there in
    let forced : (options == cap_invoke_opt_recv) ≡ false =
      ne→== options cap_invoke_opt_recv send in
    elim (Bool-cases (options == cap_invoke_opt_send)) [
      | inl e ↦ rw (object, e, right) refl
      | inr e ↦ rw (object, e, forced, right, right) refl
    ]

invoke_receives :
    (caller : ℕ) (ident : Identity) (a0 a1 a2 options : ℕ) (s : Ipc)
    → ident.object_ptr ≢ 0
    → has_flag ident.rights cap_right_read ≡ true
    → (options ≡ cap_invoke_opt_recv)
      ⊎ ((options ≢ cap_invoke_opt_send) × (has_flag ident.rights cap_right_write ≡ false))
    → ipc_invoke_endpoint caller ident a0 a1 a2 options s ≡ (0, endpoint_recv caller s)
unfolding ipc_invoke_endpoint is_send
invoke_receives caller ident a0 a1 a2 options s there right (inl e) =
    let object : (ident.object_ptr == 0) ≡ false = ne→== ident.object_ptr 0 there in
    let no_send : (options == cap_invoke_opt_send) ≡ false = ne→== options 1 (λ z. omega arith) in
    let forced : (options == cap_invoke_opt_recv) ≡ true = ap (λ n. n == 2) e in
    rw (object, no_send, forced, right) refl
invoke_receives caller ident a0 a1 a2 options s there right (inr (other, none_)) =
    let object : (ident.object_ptr == 0) ≡ false = ne→== ident.object_ptr 0 there in
    let no_send : (options == cap_invoke_opt_send) ≡ false = ne→== options 1 other in
    elim (Bool-cases (options == cap_invoke_opt_recv)) [
      | inl e ↦ rw (object, no_send, e, right) refl
      | inr e ↦ rw (object, no_send, e, none_, right, right) refl
    ]

-- On an endpoint that stands for a channel, a send by a thread that is not among its senders,
-- through a capability with an object and the write right and not forced to receive, succeeds: the
-- endpoint then stands for the channel with the message and the badge given to the first waiting
-- receiver, who has it, or put at the end of the queue.
pub ipc_invoke_endpoint-channel_send :
    (caller : ℕ) (ident : Identity) (a0 a1 a2 options : ℕ) (s : Ipc) (msgs : List Message)
    (senders : List ℕ) (ch : Channel)
    → Represents s msgs senders ch
    → caller ≢ 0
    → Apart caller senders
    → ident.object_ptr ≢ 0
    → has_flag ident.rights cap_right_write ≡ true
    → options ≢ cap_invoke_opt_recv
    → ((ipc_invoke_endpoint caller ident a0 a1 a2 options s).0 ≡ 0)
      × Sent
          (ipc_invoke_endpoint caller ident a0 a1 a2 options s).1
          (message_of ident a0 a1 a2)
          ch
          (channel_send (message_of ident a0 a1 a2) ch)
ipc_invoke_endpoint-channel_send caller ident a0 a1 a2 options s msgs senders ch rep nonzero apart
      there right send =
    let e = invoke_sends caller ident a0 a1 a2 options s there right send in
    rw e (
      (
        refl,
        endpoint_send-Sent caller (message_of ident a0 a1 a2) s msgs senders ch.queue ch.receivers
            rep nonzero apart,
      ))

-- On an endpoint that stands for a channel, a receive by a thread that waits on neither side,
-- through a capability with an object and the read right, forced or automatic without the write
-- right, succeeds: the endpoint then stands for the channel without its oldest message, which the
-- caller has, or with the caller at the end of the waiting receivers.
pub ipc_invoke_endpoint-channel_recv :
    (caller : ℕ) (ident : Identity) (a0 a1 a2 options : ℕ) (s : Ipc) (msgs : List Message)
    (senders : List ℕ) (ch : Channel)
    → Represents s msgs senders ch
    → caller ≢ 0
    → Apart caller senders
    → Apart caller ch.receivers
    → ident.object_ptr ≢ 0
    → has_flag ident.rights cap_right_read ≡ true
    → (options ≡ cap_invoke_opt_recv)
      ⊎ ((options ≢ cap_invoke_opt_send) × (has_flag ident.rights cap_right_write ≡ false))
    → ((ipc_invoke_endpoint caller ident a0 a1 a2 options s).0 ≡ 0)
      × Received
          (ipc_invoke_endpoint caller ident a0 a1 a2 options s).1
          caller
          ch
          (channel_recv caller ch)
ipc_invoke_endpoint-channel_recv caller ident a0 a1 a2 options s msgs senders ch rep nonzero out_s
      out_r there right recv =
    let e = invoke_receives caller ident a0 a1 a2 options s there right recv in
    rw e (
      (
        refl,
        endpoint_recv-Received caller s msgs senders ch.queue ch.receivers rep rep.queue nonzero
            out_s out_r,
      ))

-- An invocation of a null endpoint, or without the right that it takes, fails and changes nothing.
pub ipc_invoke_endpoint_refused :
    (caller : ℕ) (ident : Identity) (a0 a1 a2 options : ℕ) (s : Ipc)
    → (ident.object_ptr ≡ 0)
      ⊎ ((options ≢ cap_invoke_opt_recv)
          × (has_flag ident.rights cap_right_write ≡ false)
          × ((options ≡ cap_invoke_opt_send) ⊎ (has_flag ident.rights cap_right_read ≡ false)))
      ⊎ ((options ≡ cap_invoke_opt_recv) × (has_flag ident.rights cap_right_read ≡ false))
    → ipc_invoke_endpoint caller ident a0 a1 a2 options s ≡ (u64_max, s)
unfolding ipc_invoke_endpoint is_send
ipc_invoke_endpoint_refused caller ident a0 a1 a2 options s why = ground arith
