-- ===== src/Examples/Histories.antt =====
-- Witnesses for console/src/history.ts.
use agent_runtime_mcp.Base.{
  ◌≤◌, true, none, some, List, [], ◌∷◌, ◌++◌, codes, pos, ◌≡◌, refl, inl, inr, arith,
}
use agent_runtime_mcp.Console.History.Entry.{
  delivered, Body, user_turn, earlier_output, HistoryEntry,
}
use agent_runtime_mcp.Console.History.Ring.{RingOptions, new_ring}
use agent_runtime_mcp.Console.History.Ring.Accounting.{
  RingCall, pushes, updates, run, IsBounded, run-new_ring-IsBounded,
}
use agent_runtime_mcp.Console.History.Ring.Spec.{Holds, log, push_all, push_all-new_ring-Holds}
use agent_runtime_mcp.Console.History.DiffTail.{overlap, diff_tail}
use agent_runtime_mcp.Console.History.DiffTail.Aligned.{Aligns, overlap-Aligns, overlap-max}
use agent_runtime_mcp.Console.History.DiffTail.Growth.{lines, diff_tail-growth}

abbrev small_ring : RingOptions
small_ring = record { max_lines = some 2; max_bytes = some 10 }

abbrev sent : Body
sent = user_turn (record {
  text = codes "ls";
  submit = true;
  sent_at = codes "t0";
  transport_result = delivered;
})

abbrev sent_long : Body
sent_long = user_turn (record {
  text = codes "make -k";
  submit = true;
  sent_at = codes "t1";
  transport_result = delivered;
})

abbrev blanked : HistoryEntry → HistoryEntry
blanked e = record {
  id = e.id;
  body = earlier_output (record { text = []; truncated = true; observed_at = [] });
}

abbrev ring_calls : List RingCall
ring_calls =
    pushes (record { id = none; body = sent })
    ∷ pushes (record { id = none; body = sent_long })
    ∷ pushes (record { id = some (pos 9); body = sent_long })
    ∷ updates (pos 2) blanked
    ∷ []

run-new_ring-IsBounded_example : IsBounded (run ring_calls (new_ring small_ring))
run-new_ring-IsBounded_example = run-new_ring-IsBounded small_ring ring_calls

push_all-new_ring-Holds_example :
    Holds
      (push_all (sent ∷ sent_long ∷ sent ∷ []) (new_ring small_ring))
      (log 1 (sent ∷ sent_long ∷ sent ∷ []))
push_all-new_ring-Holds_example = push_all-new_ring-Holds small_ring (sent ∷ sent_long ∷ sent ∷ [])

overlap-Aligns_example :
    Aligns
      (codes "a" ∷ codes "b" ∷ [])
      (codes "b" ∷ codes "c" ∷ [])
      (overlap (codes "a" ∷ codes "b" ∷ []) (codes "b" ∷ codes "c" ∷ []))
overlap-Aligns_example = overlap-Aligns (codes "a" ∷ codes "b" ∷ []) (codes "b" ∷ codes "c" ∷ [])

overlap-max_example : 1 ≤ overlap (codes "a" ∷ codes "b" ∷ []) (codes "b" ∷ codes "c" ∷ [])
overlap-max_example =
    overlap-max (codes "a" ∷ codes "b" ∷ []) (codes "b" ∷ codes "c" ∷ []) 1
      (inr (inl (omega arith, omega arith, refl)))

diff_tail-growth_example :
    diff_tail (lines (codes "a" ∷ [] ∷ [])) (lines ((codes "a" ∷ codes "b" ∷ []) ++ [] ∷ []))
    ≡ record { appended = lines (codes "b" ∷ []); overlapped = 1 }
diff_tail-growth_example =
    diff_tail-growth (codes "a" ∷ []) (codes "b" ∷ []) ([] ∷ []) ([] ∷ []) (((λ e. cc), tt), tt)
      (((λ e. cc), tt), tt) (λ e. cc) (λ e. cc) (refl, tt) (refl, tt)
