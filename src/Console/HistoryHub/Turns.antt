-- ===== src/Console/HistoryHub/Turns.antt =====
-- console/src/observer.ts: a user turn ends the block of output before it.
use agent_runtime_mcp.Base.{
  ℕ, Bool, none, List, Text, All, All-map, ◌≡◌, refl, sym, subst, false, Option-cases, inl, inr,
  if-elim,
}
use agent_runtime_mcp.Console.Events
use agent_runtime_mcp.Console.History.Entry.{
  BlockState, UserTurn, TransportResult, HistoryEntry, user_turn,
}
use agent_runtime_mcp.Console.History.Ring.{Ring, RingOptions}
use agent_runtime_mcp.Console.History.Ring.Ids.{push-body}
use agent_runtime_mcp.Console.HistoryHub.{Options, ChannelState, broadcast, has_viewers}
use agent_runtime_mcp.Console.HistoryHub.Blocks.{
  open_block, close_current_block, push_body, record_event,
}
use agent_runtime_mcp.Console.HistoryHub.Lifted.{run-All}
use agent_runtime_mcp.Console.HistoryHub.Manager.{HubCall, new_hub, run}
use agent_runtime_mcp.Console.HistoryHub.Watched.{IsSound, new_channel-IsSound, step-IsSound}
use agent_runtime_mcp.Console.HistoryHub.OnlyCurrent.{IsShut, is_open_body, push-All}
use agent_runtime_mcp.Console.HistoryHub.OpenBlock.{
  open_block-current, open_block-IsShut, IsShut-open_block, update-IsShut, close_block-IsShut,
}

broadcast-ring :
    (appended updated : List HistoryEntry) (cs : ChannelState)
    → (broadcast appended updated cs).ring ≡ cs.ring
unfolding broadcast
broadcast-ring appended updated cs =
    if-elim (λ (cs' : ChannelState). cs'.ring ≡ cs.ring) (has_viewers cs) _ _ (λ _. refl)
      (λ _. refl)

-- Closing leaves no block open.
close_current_block-IsShut :
    (now : Text) (cs : ChannelState)
    → IsSound cs
    → All IsShut (close_current_block BlockState.closed now cs).0.ring.entries
unfolding close_current_block
close_current_block-IsShut now cs sound = elim (Option-cases (open_block cs)) [
  | inl no_block ↦ rw (no_block, close_current_block) (open_block-IsShut cs sound no_block)
  | inr (id, found) ↦
      rw (found, close_current_block)
        (update-IsShut cs.current_block_id id _ cs.ring (open_block-current cs id found)
          (λ e. close_block-IsShut BlockState.closed now e.id e.body refl) sound)
]

record_event-IsShut :
    (now id text : Text) (submit : Bool) (sent_at : Text) (result : TransportResult)
    (cs : ChannelState)
    → IsSound cs
    → All IsShut (record_event now (Events.user_turn id text submit sent_at result) cs).ring.entries
unfolding record_event
record_event-IsShut now id text submit sent_at result cs sound =
    let ended = (close_current_block BlockState.closed now cs).0 in
    let turn : UserTurn = record {
      text = text;
      submit = submit;
      sent_at = sent_at;
      transport_result = result;
    } in
    subst (λ (r : Ring). All IsShut r.entries)
      (sym (broadcast-ring _ _ (push_body (user_turn turn) ended).0))
      (push-All IsShut (user_turn turn) ended.ring (close_current_block-IsShut now cs sound)
        (subst (λ b. is_open_body b ≡ false) (sym (push-body (user_turn turn) ended.ring)) refl))

-- Whatever happened to a hub before: when a user turn of one of its channels is recorded, no block of
-- output that is not closed stays in the history of that channel, nor one that would be extended, so that
-- the next output starts a block of its own behind the turn.
pub record_event-IsShut-run :
    (o : Options) (ring : RingOptions) (observed managers : ℕ) (calls : List (Text × HubCall))
    (now id text : Text) (submit : Bool) (sent_at : Text) (result : TransportResult)
    → All
        (λ (cs : ChannelState).
          let cs' = record_event now (Events.user_turn id text submit sent_at result) cs in
          All IsShut cs'.ring.entries × (open_block cs' ≡ none))
        (run calls (new_hub o ring observed managers)).channels
unfolding new_hub
record_event-IsShut-run o ring observed managers calls now id text submit sent_at result =
    All-map (run calls (new_hub o ring observed managers)).channels
      (λ cs sound.
        let shut = record_event-IsShut now id text submit sent_at result cs sound in
        (shut, IsShut-open_block _ shut))
      (run-All IsSound new_channel-IsSound step-IsSound calls (new_hub o ring observed managers) tt)
