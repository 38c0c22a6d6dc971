-- ===== src/Runtime/TmuxBackend/Reads/Channel.antt =====
-- src/tmux-backend.ts: `readChannel` with any runner.
use agent_runtime_mcp.Base.{
  ℕ, ◌≤◌, Bool, false, not, ◌&&◌, Option, List, Text, codes, leb, or_default, if-elim, All, ◌≡◌,
  refl, ap, subst, arith,
}
use agent_runtime_mcp.Runtime.Errors.{Result, ok, thrown, ok-inj}
use agent_runtime_mcp.Runtime.TmuxBackend.Utf8.{IsScalar}
use agent_runtime_mcp.Runtime.TmuxBackend.Panes.{parse_channel_id}
use agent_runtime_mcp.Runtime.TmuxBackend.{
  ChannelRead, Backend, Command, Reply, Runner, answered, failed, Proc, ◌>>=◌, lift, run_tmux,
  classify_tmux_failure, validate_read_bounds, capture_pane, get_channel, read_of, read_channel,
}
use agent_runtime_mcp.Runtime.TmuxBackend.Reads.{IsBoundedRead, read_of-IsBoundedRead}

pub >>=-eq-ok :
    {A B : Type 0} (m : Proc A) (f : A → Proc B) (log : List Command) {y : B}
    → ((m >>= f) log).1 ≡ ok y
    → (a : A) × ((m log).1 ≡ ok a) × ((f a (m log).0).1 ≡ ok y)
>>=-eq-ok {A} {B} m f log {y} h = go (m log).1 (m log).0 h
  where
    go :
        (r : Result A) (after : List Command)
        → (elim r as (λ _. List Command × Result B) [
          | ok a ↦ f a after
          | thrown e ↦ (after, thrown e)
        ]).1
          ≡ ok y
        → (a : A) × (r ≡ ok a) × ((f a after).1 ≡ ok y)
    go (ok a) after e = (a, refl, e)
    go (thrown t) after e = absurd (cc e)

-- Every output that the runner gives is the decoding of some bytes.
abbrev pub IsTextual : Runner → Type 0
IsTextual runner =
    (log : List Command) (c : Command) (stdout : Text)
    → runner log c ≡ answered stdout
    → All IsScalar stdout

module _ (b : Backend) (runner : Runner) where
  run_tmux-eq-ok :
      (c : Command) (operation : Text) (mutation : Bool) (log : List Command) (stdout : Text)
      → (run_tmux b runner c operation mutation log).1 ≡ ok stdout
      → runner log c ≡ answered stdout
  unfolding run_tmux
  run_tmux-eq-ok c operation mutation log stdout h = go (runner log c) h
    where
      go :
          (reply : Reply)
          → (elim reply as (λ _. Result Text) [
            | answered out ↦ ok out
            | failed failure ↦ thrown (classify_tmux_failure failure operation mutation)
          ])
            ≡ ok stdout
          → reply ≡ answered stdout
      go (answered out) e = ap answered (ok-inj e)
      go (failed failure) e = absurd (cc e)

  validate_read_bounds-eq-ok :
      (lines bytes : ℕ)
      → validate_read_bounds b runner lines bytes ≡ ok tt
      → (1 ≤ lines)
        × (lines ≤ b.config.max_read_lines)
        × (1 ≤ bytes)
        × (bytes ≤ b.config.max_read_bytes)
  unfolding validate_read_bounds
  validate_read_bounds-eq-ok lines bytes h =
      if-elim
        (λ o.
          o ≡ ok tt
          → (1 ≤ lines)
            × (lines ≤ b.config.max_read_lines)
            × (1 ≤ bytes)
            × (bytes ≤ b.config.max_read_bytes))
        (not (leb 1 lines && leb lines b.config.max_read_lines)) _ _ (λ _ e. absurd (cc e))
        (λ few.
          if-elim
            (λ o.
              o ≡ ok tt
              → (1 ≤ lines)
                × (lines ≤ b.config.max_read_lines)
                × (1 ≤ bytes)
                × (bytes ≤ b.config.max_read_bytes))
            (not (leb 1 bytes && leb bytes b.config.max_read_bytes)) _ _ (λ _ e. absurd (cc e))
            (λ small _. ground (arith, few, small)))
        h

  -- What a read returns comes from one capture of the pane that the channel names.
  pub record IsRead (channel_id : Text) (lines bytes : ℕ) (r : ChannelRead) : Type 0 where
    pub few : lines ≤ b.config.max_read_lines
    pub small : bytes ≤ b.config.max_read_bytes
    pub pane_id : Text
    pub parsed : parse_channel_id b.fingerprint channel_id ≡ ok pane_id
    pub before : List Command
    pub stdout : Text
    pub captured : runner before (capture_pane b runner pane_id lines) ≡ answered stdout
    pub bounded : IsBoundedRead lines bytes stdout r

  -- A read that succeeds was asked for within the configured limits, returns an end of what one capture
  -- of the channel's pane printed, returns a text within the lines and bytes asked for (by default those
  -- of the configuration) with its right counts, and all of the output where it says that nothing was
  -- cut off.
  pub read_channel-IsRead :
      (channel_id : Text) (lines bytes : Option ℕ) (log : List Command) (r : ChannelRead)
      → IsTextual runner
      → (read_channel b runner channel_id lines bytes log).1 ≡ ok r
      → IsRead channel_id
          (or_default lines b.config.default_read_lines)
          (or_default bytes b.config.max_read_bytes)
          r
  unfolding read_channel
  read_channel-IsRead channel_id lines_option bytes_option log r textual h =
      let lines = or_default lines_option b.config.default_read_lines in
      let bytes = or_default bytes_option b.config.max_read_bytes in
      let finish : Text → Proc ChannelRead =
        λ out. lift (ok (read_of b runner channel_id lines bytes out)) in
      let capture : Text → Proc Text =
        λ pane. run_tmux b runner (capture_pane b runner pane lines) (codes "capture-pane") false in
      let parsing : Proc Text = lift (parse_channel_id b.fingerprint channel_id) in
      let looking : Text → Proc ChannelRead =
        λ pane. get_channel b runner channel_id >>= λ _. capture pane >>= finish in
      let (valid, v, h₁) =
        >>=-eq-ok (lift (validate_read_bounds b runner lines bytes)) (λ _. parsing >>= looking) log
          h in
      let (pane_id, parsed, h₂) = >>=-eq-ok parsing looking log h₁ in
      let (channel, found, h₃) =
        >>=-eq-ok (get_channel b runner channel_id) (λ _. capture pane_id >>= finish) log h₂ in
      let before = (get_channel b runner channel_id log).0 in
      let (stdout, ran, h₄) = >>=-eq-ok (capture pane_id) finish before h₃ in
      let captured =
        run_tmux-eq-ok (capture_pane b runner pane_id lines) (codes "capture-pane") false before
          stdout ran in
      let (_, few, _, small) = validate_read_bounds-eq-ok lines bytes v in
      record {
        few = few;
        small = small;
        pane_id = pane_id;
        parsed = parsed;
        before = before;
        stdout = stdout;
        captured = captured;
        bounded = subst (IsBoundedRead lines bytes stdout) (ok-inj h₄) (
            read_of-IsBoundedRead b runner channel_id lines bytes stdout
              (textual before _ stdout captured));
      }
