-- ===== src/Console/History/Ring.antt =====
-- console/src/history.ts, the class `HistoryRing`. A method that changes the ring returns the new
-- ring. A stored entry is a value here: a snapshot holds the entries as they were when it was taken.
pub mod Accounting
pub mod Spec
pub mod Ids
use agent_runtime_mcp.Base.{
  ℕ, ℤ, pos, int_eq, ◌+◌, ◌-◌, ◌*◌, Bool, ◌||◌, Option, none, some, List, [], ◌∷◌, ◌++◌, ltb,
  or_default, length, find, if◌then◌else◌,
}
use agent_runtime_mcp.Console.History.Entry.{
  Entry, HistoryEntry, NewHistoryEntry, drop_marker, marker_id, entry_lines, entry_bytes,
}

pub record RingOptions : Type 0 where
  pub max_lines : Option ℕ
  pub max_bytes : Option ℕ

pub record Ring : Type 0 where
  pub max_lines : ℕ
  pub max_bytes : ℕ
  pub entries : List HistoryEntry
  pub lines : ℕ
  pub bytes : ℕ
  pub next_id : ℕ
  pub dropped_entries : ℕ
  pub dropped_lines : ℕ

pub record RingSnapshot : Type 0 where
  pub entries : List HistoryEntry
  pub dropped_entries : ℕ
  pub dropped_lines : ℕ
  pub total_entries : ℕ
  pub total_lines : ℕ
  pub max_lines : ℕ
  pub max_bytes : ℕ

abbrev default_max_lines : ℕ
default_max_lines = 5000

abbrev default_max_bytes : ℕ
default_max_bytes = 2 * 1024 * 1024

unfoldable pub new_ring : RingOptions → Ring
new_ring options = record {
  max_lines = or_default options.max_lines default_max_lines;
  max_bytes = or_default options.max_bytes default_max_bytes;
  entries = [];
  lines = 0;
  bytes = 0;
  next_id = 1;
  dropped_entries = 0;
  dropped_lines = 0;
}

-- `this.lines > this.maxLines || this.bytes > this.maxBytes`
abbrev pub is_over : Ring → Bool
is_over r = ltb r.max_lines r.lines || ltb r.max_bytes r.bytes

-- One round of the loop of `evict`: the oldest entry leaves.
unfoldable pub shift : HistoryEntry → List HistoryEntry → Ring → Ring
shift removed rest r = record r {
  entries = rest;
  lines = r.lines - entry_lines removed;
  bytes = r.bytes - entry_bytes removed;
  dropped_entries = r.dropped_entries + 1;
  dropped_lines = r.dropped_lines + entry_lines removed;
}

-- The loop of `evict`, over the entries of the ring.
unfoldable pub evict_from : List HistoryEntry → Ring → Ring
evict_from [] r = r
evict_from (removed ∷ rest) r =
    let next = evict_from rest (shift removed rest r) in if is_over r then next else r

unfoldable pub evict : Ring → Ring
evict r = evict_from r.entries r

unfoldable pub alloc_id : Ring → Ring × ℤ
alloc_id r = (record r { next_id = r.next_id + 1 }, pos r.next_id)

-- `entry.id ?? this.allocId()`
unfoldable pub assign_id : Option ℤ → Ring → Ring × ℤ
unfolding alloc_id
assign_id none r = alloc_id r
assign_id (some id) r = (r, id)

unfoldable pub append_entry : HistoryEntry → Ring → Ring
append_entry stored r = record r {
  entries = r.entries ++ stored ∷ [];
  lines = r.lines + entry_lines stored;
  bytes = r.bytes + entry_bytes stored;
}

unfoldable pub push : NewHistoryEntry → Ring → Ring × HistoryEntry
push entry r =
    let (r', id) = assign_id entry.id r in
    let stored : HistoryEntry = record { id = id; body = entry.body } in
    (evict (append_entry stored r'), stored)

unfoldable pub get : ℤ → Ring → Option HistoryEntry
get id r = find (λ e. int_eq e.id id) r.entries

-- The first entry with that id is mutated where it stands.
unfoldable pub replace_first :
    ℤ → (HistoryEntry → HistoryEntry) → List HistoryEntry → List HistoryEntry
replace_first id mutate [] = []
replace_first id mutate (e ∷ es) =
    let rest = replace_first id mutate es in if int_eq e.id id then mutate e ∷ es else e ∷ rest

unfoldable pub update_found : ℤ → HistoryEntry → (HistoryEntry → HistoryEntry) → Ring → Ring
update_found id entry mutate r = record r {
  entries = replace_first id mutate r.entries;
  lines = r.lines - entry_lines entry + entry_lines (mutate entry);
  bytes = r.bytes - entry_bytes entry + entry_bytes (mutate entry);
}

unfoldable pub update : ℤ → (HistoryEntry → HistoryEntry) → Ring → Ring × Option HistoryEntry
update id mutate r = elim (get id r) [
  | none ↦ (r, none)
  | some entry ↦ (evict (update_found id entry mutate r), some (mutate entry))
]

pub snapshot : Ring → RingSnapshot
snapshot r = record {
  entries = if ltb 0 r.dropped_entries then marker ∷ r.entries else r.entries;
  dropped_entries = r.dropped_entries;
  dropped_lines = r.dropped_lines;
  total_entries = length r.entries;
  total_lines = r.lines;
  max_lines = r.max_lines;
  max_bytes = r.max_bytes;
}
  where
    marker : HistoryEntry
    marker = record {
      id = marker_id;
      body =
          drop_marker
            (record { dropped_entries = r.dropped_entries; dropped_lines = r.dropped_lines });
    }
