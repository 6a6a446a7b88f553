-- ===== src/Examples/Log.antt =====
-- A strike on a new audit lattice, and entries of the fate ledger.
use reaper_operating_system.Base.{
  ℕ, ◌-◌, ◌<◌, ◌≡◌, refl, some, List, length, [], ◌∷◌, arith, take, select, replicate,
  length-replicate,
}
use reaper_operating_system.Audit.{
  Audit, AuditLattice, blank, no_meta, sched_meta, audit_strike, audit_init,
}
use reaper_operating_system.Audit.Ring.{IsValid}
use reaper_operating_system.Audit.Chain.{IsChained}
use reaper_operating_system.Audit.Entries.{AuditCall, kept}
use reaper_operating_system.Audit.Run.{Holds, strikes, strikes-kept}
use reaper_operating_system.Audit.Append.{Extends, audit_strike-Extends}
use reaper_operating_system.Mode.{ModeTransition, zero_record, zero_state}
use reaper_operating_system.Mode.Fate.{
  fate_append_record, sealed_entry, mode_get_history_filtered, fate_record_matches_filter,
}
use reaper_operating_system.Mode.Fate.Ledger.{
  Represents, Authentic, fate_append_record-Represents, sealed_entry-Authentic,
  mode_get_history_filtered-select,
}
use reaper_operating_system.Examples.{digest, env}

-- a ring of blank records between two indices
abbrev ring : (tail overflow_count : ℕ) → AuditLattice
ring tail lost = record {
  head = 0;
  tail = tail;
  overflow_count = lost;
  records = replicate 1024 blank;
}

abbrev log : (tail overflow_count : ℕ) → Audit
log tail lost = record {
  lattice = some (ring tail lost);
  root_system_seed = 5;
  current_fate_seed = 5;
  last_hash = replicate 32 0;
}

ring-IsValid : (tail lost : ℕ) → tail < 1024 → IsValid (ring tail lost)
ring-IsValid tail lost h = record {
  head_in = omega arith;
  tail_in = h;
  storage = length-replicate 1024 blank;
}

new-IsChained : IsChained (ring 0 0) (replicate 32 0)
new-IsChained = record {
  valid = ring-IsValid 0 0 (omega arith);
  linked = λ k h. absurd (omega arith);
  newest = λ k e. absurd (omega arith);
}

audit_strike-Extends_example :
    Extends (ring 0 0) (audit_strike digest env 3 0 9 (sched_meta 4 1) (log 0 0))
audit_strike-Extends_example =
    audit_strike-Extends digest env (log 0 0) refl new-IsChained 3 0 9 (sched_meta 4 1)

-- two scheduler records and a denied capability
abbrev calls : List AuditCall
calls =
    record { env = env; event_type = 3; result_code = 0; target_id = 9; metadata = sched_meta 4 1 }
    ∷ record { env = env; event_type = 4; result_code = 1; target_id = 8; metadata = no_meta }
    ∷ []

strikes-kept_example :
    Holds digest (strikes digest calls (audit_init digest 77)) (kept 1022 calls) (2 - 1022)
strikes-kept_example = strikes-kept digest 77 calls (omega arith, (omega arith, tt)) (omega arith)

-- with room for one, the second call becomes the marker
one_kept : length (kept 1 calls) ≡ 2
unfolding kept
one_kept = refl

new-Represents : Represents zero_state []
new-Represents = record {
  storage = length-replicate 256 zero_record;
  head = refl;
  holds = λ i lt short. absurd (omega arith);
}

abbrev entry : ModeTransition
entry = record zero_record { from_mode = 1; to_mode = 2; record_type = 0 }

fate_append_record-Represents_example :
    Represents (fate_append_record entry zero_state) (sealed_entry zero_state entry ∷ [])
fate_append_record-Represents_example =
    fate_append_record-Represents entry [] (omega arith) new-Represents

sealed_entry-Authentic_example : Authentic (sealed_entry zero_state entry ∷ [])
sealed_entry-Authentic_example = sealed_entry-Authentic entry [] new-Represents tt

mode_get_history_filtered-select_example :
    mode_get_history_filtered (fate_append_record entry zero_state) 4 1
    ≡ take 4 (
        select
          (λ r. fate_record_matches_filter r 1)
          (take 256 (sealed_entry zero_state entry ∷ [])))
mode_get_history_filtered-select_example =
    mode_get_history_filtered-select (fate_append_record entry zero_state) 4 1
      (sealed_entry zero_state entry ∷ []) fate_append_record-Represents_example
