-- ===== src/Runtime/TmuxBackend/Panes.antt =====
-- src/tmux-backend.ts: the lines that tmux prints for its panes, and the identifiers of channels.
pub mod Ids
use agent_runtime_mcp.Base.{
  ℕ, zero, suc, Bool, true, false, not, ◌&&◌, ◌||◌, Option, none, some, List, [], ◌∷◌, ◌++◌, Text,
  codes, is_empty, starts_with, is_digit, is_hex, value_from, split, text_eq, leb, ◌==◌, length,
  take, drop, every, if◌then◌else◌,
}
use agent_runtime_mcp.Runtime.Errors.{
  ChannelError, channel_not_found, backend_operation_failed, text, plain, Result, ok, thrown, ◌>>=◌,
  ◌>>◌, require,
}

pub record TmuxPane : Type 0 where
  pub pane_id : Text
  pub session_name : Text
  pub window_id : Text
  pub window_index : ℕ
  pub pane_index : ℕ
  pub title : Option Text
  pub cwd : Option Text

-- `/^\d+$/`
abbrev pub is_digits : Text → Bool
is_digits s = not (is_empty s) && every is_digit s

abbrev pub max_safe_integer : ℕ
max_safe_integer = 9007199254740991

unfoldable pub parse_tmux_index : Text → Result ℕ
parse_tmux_index value = do
  require (is_digits value) (plain backend_operation_failed)
  require (leb (value_from 10 0 value) max_safe_integer) (plain backend_operation_failed)
  ok (value_from 10 0 value)

-- `...(field ? { field } : {})`
abbrev pub non_empty : Text → Option Text
non_empty s = if is_empty s then none else some s

abbrev pub parse_fields : List Text → Result TmuxPane
parse_fields (pane_id ∷ session_name ∷ window_id ∷ window_index ∷ pane_index ∷ title ∷ cwd ∷ []) =
    do
      require (not (is_empty pane_id || is_empty session_name || is_empty window_id))
          (plain backend_operation_failed)
      window ← parse_tmux_index window_index
      pane ← parse_tmux_index pane_index
      ok (record {
        pane_id = pane_id;
        session_name = session_name;
        window_id = window_id;
        window_index = window;
        pane_index = pane;
        title = non_empty title;
        cwd = non_empty cwd;
      })
parse_fields fields = thrown (plain backend_operation_failed)

unfoldable pub parse_pane_line : Text → Result TmuxPane
parse_pane_line line = parse_fields (split b'\t' line)

-- `map(parsePaneLine)`, which throws at the first line that is malformed
unfoldable pub parse_pane_lines : List Text → Result (List TmuxPane)
parse_pane_lines [] = ok []
parse_pane_lines (line ∷ lines) = do
  pane ← parse_pane_line line
  panes ← parse_pane_lines lines
  ok (pane ∷ panes)

unfoldable pub channel_id_for_pane : Text → Text → Result Text
channel_id_for_pane fingerprint [] = thrown (plain backend_operation_failed)
channel_id_for_pane fingerprint (c ∷ digits) =
    if c == b'%' && is_digits digits
    then ok (codes "tmux:" ++ (fingerprint ++ b':' ∷ digits))
    else thrown (plain backend_operation_failed)

-- `/^tmux:([a-f0-9]{12}):(\d+)$/`, with the fingerprint and the number that it captures
abbrev pub is_channel_id : Text → Bool
is_channel_id id =
    starts_with id (codes "tmux:")
    && length (take 12 (drop 5 id)) == 12
    && every is_hex (take 12 (drop 5 id))
    && starts_with (drop 12 (drop 5 id)) (b':' ∷ [])
    && is_digits (drop 1 (drop 12 (drop 5 id)))

unfoldable pub parse_channel_id : Text → Text → Result Text
parse_channel_id fingerprint id =
    if not (is_channel_id id) || not (text_eq (take 12 (drop 5 id)) fingerprint)
    then thrown (record { code = channel_not_found; details = (codes "channel_id", text id) ∷ [] })
    else ok (b'%' ∷ drop 1 (drop 12 (drop 5 id)))
