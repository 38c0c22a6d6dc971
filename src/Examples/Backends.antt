-- ===== src/Examples/Backends.antt =====
-- Witnesses for src/tmux-backend.ts.
use agent_runtime_mcp.Base.{
  ◌≤◌, Bool, true, false, ◌&&◌, none, some, List, [], ◌∷◌, All, Text, codes, utf8, utf8_char,
  byte_length, ltb, ◌≡◌, ◌↔◌, refl, subst, arith, not, every, is_surrogate, text_eq, starts_with,
  split, value_from, join,
}
use agent_runtime_mcp.Runtime.Errors.{Result, ok}
use agent_runtime_mcp.Runtime.TmuxBackend.Utf8.{
  take_last_utf8_bytes, IsScalar, skip_continuation, decode, decode_from, lead,
}
use agent_runtime_mcp.Runtime.TmuxBackend.Utf8.Suffix.{
  IsLongestTail, take_last_utf8_bytes-IsLongestTail,
}
use agent_runtime_mcp.Runtime.TmuxBackend.Config.{
  natural, TmuxBackendConfig, ResolvedTmuxBackendConfig, is_set, is_session_allowed,
  bounded_positive, resolve_config, IsResolved, resolve_config-IsResolved,
}
use agent_runtime_mcp.Runtime.TmuxBackend.Panes.{
  channel_id_for_pane, parse_channel_id, parse_pane_lines, parse_pane_line, parse_tmux_index,
}
use agent_runtime_mcp.Runtime.TmuxBackend.Panes.Ids.{parse_channel_id_iff}
use agent_runtime_mcp.Runtime.TmuxBackend.Listing.{
  IsVisible, list_channels-IsVisible, get_channel-IsVisible,
}
use agent_runtime_mcp.Runtime.TmuxBackend.{
  Channel, read, write_text_capability, control, observe, list_channels, Command, Runner, answered,
  Backend, validate_read_bounds, get_channel, list_visible_panes, run_tmux, visible_panes,
  find_channel, to_channel, read_of, split_captured_lines, read_channel,
}
use agent_runtime_mcp.Runtime.TmuxBackend.Sending.{write_text}
use agent_runtime_mcp.Runtime.TmuxBackend.Reads.Channel.{IsTextual, IsRead, read_channel-IsRead}
use agent_runtime_mcp.Runtime.TmuxBackend.Writes.Traces.{IsWritten, write_text-IsWritten}

take_last_utf8_bytes-IsLongestTail_example :
    IsLongestTail
      (0xe9 ∷ 0x20ac ∷ 0x61 ∷ [])
      3
      (take_last_utf8_bytes (0xe9 ∷ 0x20ac ∷ 0x61 ∷ []) 3).text
    × ((take_last_utf8_bytes (0xe9 ∷ 0x20ac ∷ 0x61 ∷ []) 3).truncated
        ≡ ltb 3 (byte_length (0xe9 ∷ 0x20ac ∷ 0x61 ∷ [])))
take_last_utf8_bytes-IsLongestTail_example =
    take_last_utf8_bytes-IsLongestTail (0xe9 ∷ 0x20ac ∷ 0x61 ∷ []) 3
      ((omega arith, refl), ((omega arith, refl), ((omega arith, refl), tt)))

abbrev print : Text
print = codes "0123456789ab"

parse_channel_id_iff_example :
    (parse_channel_id print (codes "tmux:0123456789ab:7") ≡ ok (codes "%7"))
    ↔ (channel_id_for_pane print (codes "%7") ≡ ok (codes "tmux:0123456789ab:7"))
parse_channel_id_iff_example =
    parse_channel_id_iff print (codes "tmux:0123456789ab:7") (codes "%7") (refl, refl)

abbrev configured : TmuxBackendConfig
configured = record {
  tmux_executable = none;
  socket_name = some (codes "s");
  socket_path = none;
  allowed_sessions = none;
  timeout_ms = none;
  max_channels = none;
  default_read_lines = none;
  max_read_lines = some (natural 50);
  max_read_bytes = some (natural 100);
}

abbrev resolved : ResolvedTmuxBackendConfig
resolved = record {
  tmux_executable = codes "tmux";
  socket_name = some (codes "s");
  socket_path = none;
  allowed_sessions = none;
  timeout_ms = 3000;
  max_channels = 256;
  default_read_lines = 50;
  max_read_lines = 50;
  max_read_bytes = 100;
}

configured-resolved : resolve_config configured ≡ ok resolved
unfolding resolve_config bounded_positive
configured-resolved = refl

resolve_config-IsResolved_example :
    IsResolved resolved × ((is_set configured.socket_name && is_set configured.socket_path) ≡ false)
resolve_config-IsResolved_example =
    resolve_config-IsResolved configured resolved configured-resolved

abbrev backend : Backend
backend = record { config = resolved; fingerprint = print; is_linux = true }

-- A server with one pane, whose screen shows two lines.
abbrev one_pane : Runner
one_pane [] c = answered (codes "%7\tdev\t@1\t0\t0\t\t\n")
one_pane (first ∷ rest) c = answered (codes "ls\nREADME\n")

All-IsScalar :
    (s : Text) → every (λ c. ltb c 0x110000 && not (is_surrogate c)) s ≡ true → All IsScalar s
All-IsScalar [] h = tt
All-IsScalar (c ∷ s) h =
    ((ground (arith, h), ground (arith, h)), All-IsScalar s (ground (arith, h)))

answered-inj : {s t : Text} → answered s ≡ answered t → s ≡ t
answered-inj e = cc

one_pane-IsTextual : IsTextual one_pane
one_pane-IsTextual [] c stdout h =
    subst (All IsScalar) (answered-inj h) (All-IsScalar (codes "%7\tdev\t@1\t0\t0\t\t\n") refl)
one_pane-IsTextual (first ∷ rest) c stdout h =
    subst (All IsScalar) (answered-inj h) (All-IsScalar (codes "ls\nREADME\n") refl)

read_once :
    (read_channel backend one_pane (codes "tmux:0123456789ab:7") (some 1) none []).1
    ≡ ok (record {
      channel_id = codes "tmux:0123456789ab:7";
      text = codes "README";
      truncated = true;
      line_count = 1;
      byte_count = 6;
    })
unfolding read_channel validate_read_bounds parse_channel_id text_eq starts_with get_channel
    list_visible_panes run_tmux visible_panes parse_pane_lines parse_pane_line parse_tmux_index
    split value_from is_session_allowed find_channel to_channel channel_id_for_pane read_of
    split_captured_lines join take_last_utf8_bytes utf8 utf8_char skip_continuation decode
    decode_from lead byte_length
read_once = refl

read_channel-IsRead_example : IsRead backend one_pane (codes "tmux:0123456789ab:7") 1 100 (record {
  channel_id = codes "tmux:0123456789ab:7";
  text = codes "README";
  truncated = true;
  line_count = 1;
  byte_count = 6;
})
read_channel-IsRead_example =
    read_channel-IsRead backend one_pane (codes "tmux:0123456789ab:7") (some 1) none [] _
      one_pane-IsTextual read_once

write_text-IsWritten_example :
    (steps : List Command) × (r : Result Bool) × (write_text backend one_pane
        (codes "1-u")
        (codes "tmux:0123456789ab:7")
        (codes "ls")
        true
        []
      ≡ (steps, r))
    × IsWritten backend one_pane
        (codes "agent-runtime-mcp-write-1-u")
        (codes "tmux:0123456789ab:7")
        (codes "ls")
        true
        []
        steps
        r
write_text-IsWritten_example =
    write_text-IsWritten backend one_pane (codes "1-u") (codes "tmux:0123456789ab:7") (codes "ls")
      true []

abbrev shown : Channel
shown = record {
  channel_id = codes "tmux:0123456789ab:7";
  capabilities = read ∷ write_text_capability ∷ control ∷ observe ∷ [];
  title = none;
  cwd = none;
  pane = record {
    pane_id = codes "%7";
    session_name = codes "dev";
    window_id = codes "@1";
    window_index = 0;
    pane_index = 0;
    title = none;
    cwd = none;
  };
}

listed : (list_channels backend one_pane []).1 ≡ ok (shown ∷ [])
unfolding list_channels list_visible_panes run_tmux visible_panes parse_pane_lines parse_pane_line
    parse_tmux_index split value_from is_session_allowed to_channel channel_id_for_pane
listed = refl

list_channels-IsVisible_example :
    (1 ≤ backend.config.max_channels) × All (IsVisible backend one_pane) (shown ∷ [])
list_channels-IsVisible_example = list_channels-IsVisible backend one_pane [] (shown ∷ []) listed

found : (get_channel backend one_pane (codes "tmux:0123456789ab:7") []).1 ≡ ok shown
unfolding get_channel parse_channel_id text_eq starts_with list_visible_panes run_tmux visible_panes
    parse_pane_lines parse_pane_line parse_tmux_index split value_from is_session_allowed
    find_channel to_channel channel_id_for_pane
found = refl

get_channel-IsVisible_example :
    IsVisible backend one_pane shown × (shown.channel_id ≡ codes "tmux:0123456789ab:7")
get_channel-IsVisible_example =
    get_channel-IsVisible backend one_pane (codes "tmux:0123456789ab:7") [] shown found
