-- ===== src/Examples/Observations.antt =====
-- Witnesses for src/observation.ts.
use agent_runtime_mcp.Base.{
  Text, Option, none, some, ℕ, ◌*◌, true, List, [], ◌∷◌, length, codes, text_eq, ◌≡◌, refl, arith,
}
use agent_runtime_mcp.Runtime.Observation.{
  Event, Token, Observer, Step, sample_due, renewed, sampled, new_observer, trim_from, trim_history,
  take_sample, run_sample, schedule_sample, take_step, take_steps, validate_token, renew,
  events_after,
}
use agent_runtime_mcp.Runtime.Errors.{ok, ChannelErrorCode}
use agent_runtime_mcp.Runtime.Observation.Cursors.{token_of, issue, admit, Issue, issue_all}
use agent_runtime_mcp.Runtime.Observation.Cursors.Held.{issue-admit}
use agent_runtime_mcp.Runtime.Observation.Complete.{seqs, events_after-take_steps}

-- Two events fit into the history.
abbrev large_events : List Event → ℕ
large_events es = 100000 * length es

abbrev three_changes : List Step
three_changes =
    sample_due 250 260 (codes "w1") (sampled true (codes "i") (codes "b"))
    ∷ sample_due 500 510 (codes "w2") (sampled true (codes "i") (codes "c"))
    ∷ renewed 600
    ∷ sample_due 750 760 (codes "w3") (sampled true (codes "i") (codes "d"))
    ∷ []

abbrev first_cursor : Token
first_cursor = record {
  observer = codes "o";
  channel_id = codes "a";
  instance_id = codes "x";
  seq = 1;
  exp = 300000;
}

abbrev changed_observer : Observer
changed_observer =
    take_steps large_events three_changes
      (new_observer (codes "o") (codes "a") (codes "x") 0 (codes "i") (codes "a"))

events_after-take_steps_example : seqs (events_after 1 changed_observer.events) ≡ 2 ∷ 3 ∷ []
unfolding new_observer trim_from trim_history take_sample run_sample schedule_sample take_step
    take_steps validate_token renew text_eq
events_after-take_steps_example =
    events_after-take_steps large_events (codes "o") (codes "a") (codes "x") 0 (codes "i")
      (codes "a") three_changes changed_observer 800 first_cursor refl refl (omega arith)

abbrev fresh_observer : Observer
fresh_observer = new_observer (codes "o") (codes "a") (codes "x") 0 (codes "i") (codes "a")

abbrev none_retired : Text → Option ChannelErrorCode
none_retired cursor = none

abbrev one_observer : Text → Option Observer
one_observer id = some fresh_observer

abbrev second_issue : Issue
second_issue = record { now = 700; cursor = codes "d"; observer = fresh_observer; seq = 0 }

issue-admit_example :
    admit 800 none_retired one_observer
      (codes "a")
      (codes "c")
      15
      (issue_all (second_issue ∷ []) (issue 600 (codes "c") fresh_observer 0 []).0)
    ≡ ok tt
unfolding new_observer issue text_eq
issue-admit_example =
    issue-admit 600 800 (codes "c") fresh_observer fresh_observer 0 []
      (token_of 600 fresh_observer 0) (second_issue ∷ []) none_retired one_observer 15 refl refl
      ((omega arith, refl), tt) refl
      (record { id_eq = refl; channel_eq = refl; instance_eq = refl }) (omega arith) (omega arith)
      refl (omega arith) (omega arith) (omega arith)
