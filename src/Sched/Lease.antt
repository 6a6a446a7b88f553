-- ===== src/Sched/Lease.antt =====
-- The lease of a thread over its life: `thread_create` (kernel/thread.c) and `entry_apply`
-- (kernel/entry.c) write it, `scheduler_lease_valid` checks it. Each epoch has one mode, `mode_of`, as
-- every transition of the kernel opens an epoch.
use native.Mathlib.Nat.{pow-le-pow_right}
use reaper_operating_system.Base.{
  ℕ, ◌^◌, ◌≤◌, ◌<◌, ◌≡◌, refl, sym, ap, ◌∙◌, ◌≢◌, inl, inr, Bool, true, false, ◌&&◌, some, List, [],
  ◌∷◌, leb, le→leb, ◌==◌, arith, Bool-cases, ==→eq, eq→==, ne→==, clash,
}
use reaper_operating_system.Base.Word.{u32}
use reaper_operating_system.Base.Bits.{testbit, has_flag-pow, testbit-pow}
use reaper_operating_system.Mode.{mode_kernel}
use reaper_operating_system.Sched.{EntryLease, lease_check, owned_by_kernel, scheduler_lease_valid}

-- the lease of a thread that `thread_create` gives an owner; the cache is zeroed
unfoldable pub thread_lease : (owner_mode security_epoch : ℕ) → EntryLease
thread_lease owner_mode security_epoch = record {
  owner_mode = some owner_mode;
  epoch = security_epoch;
  mode_mask = u32 (2 ^ owner_mode);
  validated_epoch = 0;
  valid_cache = false;
}

-- `entry_apply`; it leaves the cache alone.
unfoldable pub entry_apply : (current_mode security_epoch : ℕ) → EntryLease → EntryLease
entry_apply current_mode security_epoch t = record t {
  epoch = security_epoch;
  mode_mask = u32 (2 ^ current_mode);
}

-- what happens to a lease, in which epoch
pub data LeaseEvent : Type 0 where
  checked : ℕ → LeaseEvent
  applied : ℕ → LeaseEvent

abbrev pub epoch_of : LeaseEvent → ℕ
epoch_of (checked epoch) = epoch
epoch_of (applied epoch) = epoch

-- the epoch never goes back, from `now` to `last`
abbrev pub Advances : (now : ℕ) → List LeaseEvent → (last : ℕ) → Type 0
Advances now [] last = now ≤ last
Advances now (v ∷ vs) last = (now ≤ epoch_of v) × Advances (epoch_of v) vs last

-- The lease allows the mode, and is not older than the epoch.
abbrev pub entitled : EntryLease → (mode epoch : ℕ) → Bool
entitled t mode epoch = leb epoch t.epoch && testbit t.mode_mask mode

pub lease_check-entitled :
    (t : EntryLease) (mode epoch : ℕ) → lease_check t mode epoch ≡ entitled t mode epoch
unfolding lease_check
lease_check-entitled t mode epoch = rw (has_flag-pow mode t.mode_mask) (ground arith)

pub mask_bit : (mode k : ℕ) → mode < 32 → testbit (u32 (2 ^ mode)) k ≡ (mode == k)
mask_bit mode k small =
    let bound : 2 ^ mode ≤ 2 ^ 31 = pow-le-pow_right (omega arith) {j = 31} (omega arith) in
    let fits : u32 (2 ^ mode) ≡ 2 ^ mode = omega arith in
    ap (λ m. testbit m k) fits ∙ testbit-pow mode k

own_bit : (mode : ℕ) → mode < 32 → testbit (u32 (2 ^ mode)) mode ≡ true
own_bit mode small = mask_bit mode mode small ∙ ground arith

module _ (mode_of : ℕ → ℕ) where
  pub one_check :
      (t : EntryLease) (e : ℕ)
      → let u = (scheduler_lease_valid t (mode_of e) e).1 in
        (u.owner_mode ≡ t.owner_mode) × (u.epoch ≡ t.epoch) × (u.mode_mask ≡ t.mode_mask)
  unfolding scheduler_lease_valid
  one_check t e = elim (Bool-cases (owned_by_kernel t.owner_mode)) [
    | inl k ↦ rw k (refl, refl, refl)
    | inr k ↦ elim (Bool-cases (t.validated_epoch == e)) [
      | inl hit ↦ rw (k, hit) (refl, refl, refl)
      | inr miss ↦ rw (k, miss) (refl, refl, refl)
    ]
  ]

  unfoldable pub lease_event : LeaseEvent → EntryLease → EntryLease
  lease_event (checked epoch) t = (scheduler_lease_valid t (mode_of epoch) epoch).1
  lease_event (applied epoch) t = entry_apply (mode_of epoch) epoch t

  abbrev pub lease_after : List LeaseEvent → EntryLease → EntryLease
  lease_after [] t = t
  lease_after (v ∷ vs) t = lease_after vs (lease_event v t)

  -- A positive answer that is cached for the epoch is true.
  record Safe (t : EntryLease) (now : ℕ) : Type 0 where
    past : t.validated_epoch ≤ now
    sound : t.valid_cache ≡ true → t.validated_epoch ≡ now → entitled t (mode_of now) now ≡ true

  Safe-later : {t : EntryLease} {now later : ℕ} → now ≤ later → Safe t now → Safe t later
  Safe-later {t} {now} {later} h s = record {
    past = omega (arith, s.past);
    sound = λ c e. elim (Bool-cases (now == later)) [
      | inl same ↦
          let at = ==→eq now later same in
          ap (λ n. entitled t (mode_of n) n) (sym at) ∙ s.sound c (e ∙ sym at)
      | inr apart ↦
          let at : now ≡ later = omega (arith, s.past, h, e) in clash _ (eq→== now later at) apart
    ];
  }

  checked-Safe :
      (t : EntryLease) (epoch : ℕ)
      → Safe t epoch
      → Safe (scheduler_lease_valid t (mode_of epoch) epoch).1 epoch
  unfolding scheduler_lease_valid
  checked-Safe t epoch s = elim (Bool-cases (owned_by_kernel t.owner_mode)) [
    | inl e ↦ rw e s
    | inr e ↦ elim (Bool-cases (t.validated_epoch == epoch)) [
      | inl hit ↦ rw (e, hit) s
      | inr miss ↦
          rw (e, miss)
            (record {
              past = omega arith;
              sound = λ c same. sym (lease_check-entitled t (mode_of epoch) epoch) ∙ c;
            })
    ]
  ]

  applied-Safe :
      (t : EntryLease) (epoch : ℕ)
      → mode_of epoch < 32
      → Safe t epoch
      → Safe (entry_apply (mode_of epoch) epoch t) epoch
  unfolding entry_apply
  applied-Safe t epoch small s = record {
    past = s.past;
    sound = λ c e.
        let this = own_bit (mode_of epoch) small in
        let fresh = le→leb epoch epoch (omega arith) in rw (this, fresh) refl;
  }

  lease_event-Safe :
      (v : LeaseEvent) (t : EntryLease)
      → mode_of (epoch_of v) < 32
      → Safe t (epoch_of v)
      → Safe (lease_event v t) (epoch_of v)
  unfolding lease_event
  lease_event-Safe (checked epoch) t small s = checked-Safe t epoch s
  lease_event-Safe (applied epoch) t small s = applied-Safe t epoch small s

  lease_after-Safe :
      (vs : List LeaseEvent) (t : EntryLease) (now last : ℕ)
      → ((e : ℕ) → mode_of e < 32)
      → Advances now vs last
      → Safe t now
      → Safe (lease_after vs t) last
  lease_after-Safe [] t now last small h s = Safe-later h s
  lease_after-Safe (v ∷ vs) t now last small h s =
      lease_after-Safe vs (lease_event v t) (epoch_of v) last small h.1
        (lease_event-Safe v t (small (epoch_of v)) (Safe-later h.0 s))

  -- an answer of the check, from the cache or not
  answer-Safe :
      (t : EntryLease) (epoch : ℕ)
      → Safe t epoch
      → owned_by_kernel t.owner_mode ≡ false
      → (scheduler_lease_valid t (mode_of epoch) epoch).0 ≡ true
      → entitled t (mode_of epoch) epoch ≡ true
  unfolding scheduler_lease_valid
  answer-Safe t epoch s user h = elim (Bool-cases (t.validated_epoch == epoch)) [
    | inl hit ↦ s.sound (rw (user, hit) at h) (==→eq t.validated_epoch epoch hit)
    | inr miss ↦ sym (lease_check-entitled t (mode_of epoch) epoch) ∙ (rw (user, miss) at h)
  ]

  owner-lease_event :
      (v : LeaseEvent) (t : EntryLease) → (lease_event v t).owner_mode ≡ t.owner_mode
  unfolding lease_event entry_apply
  owner-lease_event (checked epoch) t = (one_check t epoch).0
  owner-lease_event (applied epoch) t = refl

  owner-lease_after :
      (vs : List LeaseEvent) (t : EntryLease) → (lease_after vs t).owner_mode ≡ t.owner_mode
  owner-lease_after [] t = refl
  owner-lease_after (v ∷ vs) t = owner-lease_after vs (lease_event v t) ∙ owner-lease_event v t

  new-Safe : (owner_mode epoch : ℕ) → Safe (thread_lease owner_mode epoch) epoch
  unfolding thread_lease
  new-Safe owner_mode epoch = record { past = omega arith; sound = λ c e. cc }

  owner-thread_lease :
      (owner_mode epoch : ℕ) → (thread_lease owner_mode epoch).owner_mode ≡ some owner_mode
  unfolding thread_lease
  owner-thread_lease owner_mode epoch = refl

  -- Where each epoch has one mode, below 32, and the epochs do not go back: whatever checks and
  -- new leases a thread has seen since its creation in a mode other than Kernel, if the scheduler
  -- finds its lease valid, then the lease is not older than the epoch and its mask allows the
  -- active mode, also where the answer comes from the cache.
  pub scheduler_lease_valid-entitled :
      (owner_mode born last : ℕ) (vs : List LeaseEvent)
      → ((e : ℕ) → mode_of e < 32)
      → owner_mode ≢ mode_kernel
      → Advances born vs last
      → (scheduler_lease_valid
          (lease_after vs (thread_lease owner_mode born))
          (mode_of last)
          last).0
        ≡ true
      → entitled (lease_after vs (thread_lease owner_mode born)) (mode_of last) last ≡ true
  unfolding owned_by_kernel
  scheduler_lease_valid-entitled owner_mode born last vs small user h answer =
      let t = lease_after vs (thread_lease owner_mode born) in
      let owner =
        owner-lease_after vs (thread_lease owner_mode born) ∙ owner-thread_lease owner_mode born in
      let test : owned_by_kernel t.owner_mode ≡ false =
        ap owned_by_kernel owner ∙ ne→== owner_mode mode_kernel user in
      answer-Safe t last
        (lease_after-Safe vs (thread_lease owner_mode born) born last small h
          (new-Safe owner_mode born))
        test answer
