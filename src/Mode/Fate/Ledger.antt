-- ===== src/Mode/Fate/Ledger.antt =====
-- The fate ledger against the list of all that was ever logged, newest first.
use reaper_operating_system.Base.{
  ℕ, zero, suc, ◌+◌, ◌-◌, ◌%◌, ◌^◌, ◌<◌, min, ◌≡◌, refl, ◌∙◌, ◌≢◌, true, List, [], ◌∷◌, arith, ltb,
  if◌then◌else◌, Bool-cases, inl, inr, length, get_or, set, length-set, get_or-set_self,
  get_or-set_ne, take, select, length-take, get_or-take,
}
use reaper_operating_system.Mode.{ModeState, ModeTransition, zero_record, mode_history_size}
use reaper_operating_system.Mode.Fate.{
  calculate_record_hash, prev_link, sealed_entry, fate_append_record, fate_record_matches_filter,
  history_from, mode_get_history_filtered,
}

-- The ring holds the newest 256 entries of `log`.
pub record Represents (s : ModeState) (log : List ModeTransition) : Type 0 where
  pub storage : length s.fate_history ≡ mode_history_size
  pub head : s.fate_head_index ≡ length log
  pub holds :
      (i : ℕ)
      → i < mode_history_size
      → i < length log
      → get_or s.fate_history ((length log - 1 - i) % mode_history_size) zero_record
        ≡ get_or log i zero_record

abbrev pub newest_hash : List ModeTransition → ℕ
newest_hash [] = 0
newest_hash (e ∷ log) = e.curr_hash

-- Each entry carries its own hash and names that of the entry before it, the first one 0.
abbrev pub Authentic : List ModeTransition → Type 0
Authentic [] = Unit {0}
Authentic (e ∷ log) =
    (calculate_record_hash e ≡ e) × (e.prev_hash ≡ newest_hash log) × Authentic log

-- The hash does not read the field that it is stored in.
calculate_record_hash_idem :
    (r : ModeTransition) → calculate_record_hash (calculate_record_hash r) ≡ calculate_record_hash r
unfolding calculate_record_hash
calculate_record_hash_idem r = refl

prev_hash-calculate_record_hash :
    (r : ModeTransition) → (calculate_record_hash r).prev_hash ≡ r.prev_hash
unfolding calculate_record_hash
prev_hash-calculate_record_hash r = refl

prev_link-newest :
    {s : ModeState} (log : List ModeTransition) → Represents s log → prev_link s ≡ newest_hash log
unfolding prev_link
prev_link-newest [] rep = ground (arith, rep)
prev_link-newest {s} (e ∷ log) rep =
    let some_head : ltb 0 s.fate_head_index ≡ true = ground (arith, rep.head) in
    let at : (s.fate_head_index - 1) % 256 ≡ (suc (length log) - 1 - 0) % 256 =
      omega (arith, rep.head) in
    rw (some_head, at, rep.holds 0 (omega arith) (omega arith))

holds-append :
    {s : ModeState} (r : ModeTransition) (log : List ModeTransition)
    → Represents s log
    → (i : ℕ) → i < mode_history_size
    → i < suc (length log)
    → get_or
        (set s.fate_history (s.fate_head_index % 256) r)
        ((suc (length log) - 1 - i) % 256)
        zero_record
      ≡ get_or (r ∷ log) i zero_record
holds-append {s} r log rep zero lt len =
    let at : (suc (length log) - 1 - 0) % 256 ≡ s.fate_head_index % 256 = omega (arith, rep.head) in
    rw (
      at,
      get_or-set_self s.fate_history (s.fate_head_index % 256) r zero_record (omega (arith, rep)),
    )
holds-append {s} r log rep (suc i) lt len =
    let at : (suc (length log) - 1 - suc i) % 256 ≡ (length log - 1 - i) % 256 = omega arith in
    let apart : s.fate_head_index % 256 ≢ (length log - 1 - i) % 256 = omega (arith, rep.head) in
    rw (
      at,
      get_or-set_ne s.fate_history r zero_record apart,
      rep.holds i (omega arith) (omega arith),
    )

-- Logging a record in a ledger that holds the newest entries of a log, shorter than 2^64, adds the
-- sealed record to the log: the ring still holds the newest 256 entries.
pub fate_append_record-Represents :
    {s : ModeState} (r : ModeTransition) (log : List ModeTransition)
    → length log + 1 < 2 ^ 64
    → Represents s log
    → Represents (fate_append_record r s) (sealed_entry s r ∷ log)
unfolding fate_append_record
fate_append_record-Represents {s} r log small rep = record {
  storage = rw length-set rep.storage;
  head = omega (arith, rep.head);
  holds = holds-append (sealed_entry s r) log rep;
}

-- If the ring holds the newest entries of a log that is authentic, so is the log with the new
-- entry: it carries its own hash and names the hash of the newest entry before it, or 0 if there
-- is none.
pub sealed_entry-Authentic :
    {s : ModeState} (r : ModeTransition) (log : List ModeTransition)
    → Represents s log
    → Authentic log
    → Authentic (sealed_entry s r ∷ log)
unfolding sealed_entry
sealed_entry-Authentic {s} r log rep a =
    let entry = record r { prev_hash = prev_link s } in
    (
      calculate_record_hash_idem entry,
      prev_hash-calculate_record_hash entry ∙ prev_link-newest log rep,
      a,
    )

-- the loop at `i` against what is left of the log, `xs`
history_from-select :
    (s : ModeState) (mode i room : ℕ) (xs : List ModeTransition)
    → ((j : ℕ)
        → j < length xs
        → get_or s.fate_history ((s.fate_head_index - 1 - (i + j) + 256) % 256) zero_record
          ≡ get_or xs j zero_record)
    → history_from s mode (length xs) i room
      ≡ take room (select (λ r. fate_record_matches_filter r mode) xs)
unfolding history_from
history_from-select s mode i zero [] at = refl
history_from-select s mode i (suc room) [] at = refl
history_from-select s mode i zero (x ∷ xs) at = refl
history_from-select s mode i (suc room) (x ∷ xs) at =
    let here : get_or s.fate_history ((s.fate_head_index - 1 - i + 256) % 256) zero_record ≡ x =
      (let e : i ≡ i + 0 = omega arith in rw e (at 0 (omega arith))) in
    let later = λ (r : ℕ). history_from-select s mode (i + 1) r xs (next at) in
    rw here (elim (Bool-cases (fate_record_matches_filter x mode)) [
      | inl hit ↦ rw (hit, later room)
      | inr miss ↦ rw (miss, later (suc room))
    ])
  where
    next :
        ((j : ℕ)
          → j < suc (length xs)
          → get_or s.fate_history ((s.fate_head_index - 1 - (i + j) + 256) % 256) zero_record
            ≡ get_or (x ∷ xs) j zero_record)
        → (j : ℕ) → j < length xs
        → get_or s.fate_history ((s.fate_head_index - 1 - (i + 1 + j) + 256) % 256) zero_record
          ≡ get_or xs j zero_record
    next all j h = let e : i + 1 + j ≡ i + suc j = omega arith in rw e (all (suc j) (omega arith))

available-min : (n : ℕ) → (if ltb n 256 then n else 256) ≡ min 256 n
available-min n = ground arith

-- For a ledger that holds the newest entries of a log, the history call returns the newest records
-- that pass its filter, newest first and at most as many as asked for, out of the newest 256 that
-- were ever logged.
pub mode_get_history_filtered-select :
    (s : ModeState) (count mode : ℕ) (log : List ModeTransition)
    → Represents s log
    → mode_get_history_filtered s count mode
      ≡ take count (select (λ r. fate_record_matches_filter r mode) (take mode_history_size log))
unfolding mode_get_history_filtered
mode_get_history_filtered-select s count mode log rep =
    let available : (if ltb s.fate_head_index 256 then s.fate_head_index else 256)
        ≡ length (take 256 log) =
      available-min s.fate_head_index ∙ omega (arith, rep.head, length-take 256 log) in
    rw available (history_from-select s mode 0 count (take 256 log) at)
  where
    at :
        (j : ℕ)
        → j < length (take 256 log)
        → get_or s.fate_history ((s.fate_head_index - 1 - (0 + j) + 256) % 256) zero_record
          ≡ get_or (take 256 log) j zero_record
    at j h =
        let short : (j < 256) × (j < length log) =
          (omega (arith, length-take 256 log), omega (arith, length-take 256 log)) in
        let slot : (s.fate_head_index - 1 - (0 + j) + 256) % 256 ≡ (length log - 1 - j) % 256 =
          omega (arith, rep.head) in
        rw (slot, get_or-take 256 j log zero_record short.0) (rep.holds j short.0 short.1)
