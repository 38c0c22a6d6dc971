-- ===== src/Console/HistoryHub/Quiet.antt =====
-- console/src/observer.ts: what the parts that ask the server for nothing leave as it is.
use agent_runtime_mcp.Base.{
  Option, false, List, [], ◌∷◌, Text, ◌≡◌, refl, ◌∙◌, Option-cases, inl, inr, if-elim, is_empty,
}
use agent_runtime_mcp.Console.Events.{ConsoleEvent}
use agent_runtime_mcp.Console.Events
use agent_runtime_mcp.Console.History.Entry.{
  BlockState, OutputBlock, HistoryEntry, Body, earlier_output, output_block, user_turn, control,
  drop_marker,
}
use agent_runtime_mcp.Console.History.Ring.Ids.{push-IsGood, update-IsGood}
use agent_runtime_mcp.Console.HistoryHub.{
  ObservationState, ChannelState, PullMode, earlier, output, has_viewers, broadcast, set_state,
}
use agent_runtime_mcp.Console.HistoryHub.OnlyCurrent.{SoundAt, is_open_body}
use agent_runtime_mcp.Console.HistoryHub.OpenBlock.{
  open_block-current, open_block-IsShut, update-OnlyCurrent, close-OnlyCurrent, open-OnlyCurrent,
  shut-OnlyCurrent,
}
use agent_runtime_mcp.Console.HistoryHub.Blocks.{
  Read, Pulled, in_block, close_current_block, open_block, record_event, pull, pull_earlier,
  pull_output, push_body,
}

-- Viewers, loop, cursor, timers and requests are the same, and the ring is good, with at most its
-- current block open, if it was.
pub record Quiet (cs cs' : ChannelState) : Type 0 where
  pub same_viewers : cs'.viewers ≡ cs.viewers
  pub same_requests : cs'.requests ≡ cs.requests
  pub same_cursor : cs'.cursor ≡ cs.cursor
  pub same_loop : cs'.loop ≡ cs.loop
  pub same_timer : cs'.poll_timer ≡ cs.poll_timer
  pub same_strays : cs'.strays ≡ cs.strays
  pub same_ticks : cs'.ticks ≡ cs.ticks
  pub ring_good : SoundAt cs.current_block_id cs.ring → SoundAt cs'.current_block_id cs'.ring

pub Quiet-refl : (cs : ChannelState) → Quiet cs cs
Quiet-refl cs = record {
  same_viewers = refl;
  same_requests = refl;
  same_cursor = refl;
  same_loop = refl;
  same_timer = refl;
  same_strays = refl;
  same_ticks = refl;
  ring_good = λ b. b;
}

pub Quiet-trans : (a b c : ChannelState) → Quiet a b → Quiet b c → Quiet a c
Quiet-trans a b c p q = record {
  same_viewers = q.same_viewers ∙ p.same_viewers;
  same_requests = q.same_requests ∙ p.same_requests;
  same_cursor = q.same_cursor ∙ p.same_cursor;
  same_loop = q.same_loop ∙ p.same_loop;
  same_timer = q.same_timer ∙ p.same_timer;
  same_strays = q.same_strays ∙ p.same_strays;
  same_ticks = q.same_ticks ∙ p.same_ticks;
  ring_good = λ h. q.ring_good (p.ring_good h);
}

-- A change of the ring and of fields that `Quiet` is not about.
Quiet-ring :
    (cs cs' : ChannelState)
    → (SoundAt cs.current_block_id cs.ring → SoundAt cs'.current_block_id cs'.ring)
    → cs'.viewers ≡ cs.viewers
    → cs'.requests ≡ cs.requests
    → cs'.cursor ≡ cs.cursor
    → cs'.loop ≡ cs.loop
    → cs'.poll_timer ≡ cs.poll_timer
    → cs'.strays ≡ cs.strays
    → cs'.ticks ≡ cs.ticks
    → Quiet cs cs'
Quiet-ring cs cs' r v q c l p s t = record {
  same_viewers = v;
  same_requests = q;
  same_cursor = c;
  same_loop = l;
  same_timer = p;
  same_strays = s;
  same_ticks = t;
  ring_good = r;
}

pub broadcast-Quiet :
    (appended updated : List HistoryEntry) (cs : ChannelState)
    → Quiet cs (broadcast appended updated cs)
unfolding broadcast
broadcast-Quiet appended updated cs =
    if-elim (Quiet cs) (has_viewers cs) _ _
      (λ _. Quiet-ring cs _ (λ b. b) refl refl refl refl refl refl refl) (λ _. Quiet-refl cs)

pub set_state-Quiet :
    (state : ObservationState) (detail : Option Text) (cs : ChannelState)
    → Quiet cs (set_state state detail cs)
unfolding set_state
set_state-Quiet state detail cs =
    Quiet-trans cs (record cs { state = state; detail = detail }) _
      (Quiet-ring cs _ (λ b. b) refl refl refl refl refl refl refl) (broadcast-Quiet [] [] _)

in_block-id : (f : OutputBlock → OutputBlock) (e : HistoryEntry) → (in_block f e).id ≡ e.id
in_block-id f e = Body-elim e.body
  where
    Body-elim : (body : Body) → (in_block f (record { id = e.id; body = body })).id ≡ e.id
    Body-elim (earlier_output x) = refl
    Body-elim (output_block x) = refl
    Body-elim (user_turn x) = refl
    Body-elim (control x) = refl
    Body-elim (drop_marker x) = refl

pub close_current_block-Quiet :
    (s : BlockState) (now : Text) (cs : ChannelState) → Quiet cs (close_current_block s now cs).0
unfolding close_current_block
close_current_block-Quiet s now cs = elim (Option-cases (open_block cs)) [
  | inl no_block ↦ rw (no_block, close_current_block) (Quiet-refl cs)
  | inr (id, found) ↦
      rw (found, close_current_block)
        (Quiet-ring cs _
          (λ (good, all). (
            update-IsGood id _ cs.ring (in_block-id _) good,
            close-OnlyCurrent s now cs.current_block_id id cs.ring (open_block-current cs id found)
                (in_block-id _) (good, all),
          ))
          refl refl refl refl refl refl refl)
]

push_body-Quiet :
    (body : Body) (cs : ChannelState) → is_open_body body ≡ false → Quiet cs (push_body body cs).0
push_body-Quiet body cs shut =
    Quiet-ring cs _
      (λ (good, all).
        (push-IsGood _ cs.ring good, shut-OnlyCurrent cs.current_block_id body cs.ring shut all))
      refl refl refl refl refl refl refl

pub record_event-Quiet :
    (now : Text) (event : ConsoleEvent) (cs : ChannelState) → Quiet cs (record_event now event cs)
unfolding record_event
record_event-Quiet now (Events.user_turn channel_id text submit sent_at result) cs =
    let ended = (close_current_block BlockState.closed now cs).0 in
    Quiet-trans cs ended _ (close_current_block-Quiet BlockState.closed now cs) (
      Quiet-trans ended (push_body _ ended).0 _ (push_body-Quiet _ ended refl)
        (broadcast-Quiet _ _ _))
record_event-Quiet now (Events.control channel_id name sent_at result) cs =
    Quiet-trans cs (push_body _ cs).0 _ (push_body-Quiet _ cs refl) (broadcast-Quiet _ _ _)

pull_output-Quiet :
    (appended : Text) (r : Read) (cs : ChannelState) → Quiet cs (pull_output appended r cs).channel
unfolding pull_output
pull_output-Quiet [] r cs = Quiet-refl cs
pull_output-Quiet (c ∷ appended) r cs = elim (Option-cases (open_block cs)) [
  | inl no_block ↦
      rw (no_block, pull_output)
        (Quiet-ring cs _
          (λ (good, all). (
            push-IsGood _ cs.ring good,
            open-OnlyCurrent _ cs.ring (open_block-IsShut cs (good, all) no_block),
          ))
          refl refl refl refl refl refl refl)
  | inr (id, found) ↦
      rw (found, pull_output)
        (Quiet-ring cs _
          (λ (good, all). (
            update-IsGood id _ cs.ring (in_block-id _) good,
            update-OnlyCurrent cs.current_block_id id _ cs.ring (open_block-current cs id found)
                (in_block-id _) all,
          ))
          refl refl refl refl refl refl refl)
]

pull_earlier-Quiet : (r : Read) (cs : ChannelState) → Quiet cs (pull_earlier r cs).channel
unfolding pull_earlier
pull_earlier-Quiet r cs =
    if-elim (λ (p : Pulled). Quiet cs p.channel) (is_empty r.text) _ _ (λ _. Quiet-refl cs)
      (λ _. push_body-Quiet _ cs refl)

pub pull-Quiet :
    (mode : PullMode) (r : Read) (cs : ChannelState) → Quiet cs (pull mode r cs).channel
unfolding pull
pull-Quiet earlier r cs =
    Quiet-trans cs (record cs { last_read = r.text }) _
      (Quiet-ring cs _ (λ b. b) refl refl refl refl refl refl refl) (pull_earlier-Quiet r _)
pull-Quiet output r cs =
    Quiet-trans cs (record cs { last_read = r.text }) _
      (Quiet-ring cs _ (λ b. b) refl refl refl refl refl refl refl) (pull_output-Quiet _ r _)
