-- ===== src/Runtime/TmuxBackend/Writes/Traces.antt =====
-- src/tmux-backend.ts: all the ways in which `writeText` can go.
use mathlib.Core.List.{append_assoc, append-nil}
use agent_runtime_mcp.Base.{
  Bool, true, false, List, [], ◌∷◌, ◌++◌, Text, codes, ◌≡◌, ◌⊎◌, refl, sym, ap, subst, ◌∙◌, inl,
  inr,
}
use agent_runtime_mcp.Runtime.Errors.{ChannelError, Result, ok, thrown}
use agent_runtime_mcp.Runtime.Input.{enter, validate_ordinary_text}
use agent_runtime_mcp.Runtime.TmuxBackend.Panes.{parse_channel_id}
use agent_runtime_mcp.Runtime.TmuxBackend.{
  Backend, Command, Runner, Proc, Channel, ◌>>=◌, lift, catch, run_tmux, list_panes, get_channel,
}
use agent_runtime_mcp.Runtime.TmuxBackend.Sending.{
  load_buffer, paste_buffer, send_keys, deliver, control_operation, send_control_to_pane,
  submit_error, submit_text, write_text,
}
use agent_runtime_mcp.Runtime.TmuxBackend.Writes.{
  Result-cases, >>=-ok, >>=-thrown, catch-ok, catch-thrown, Succeeds, Fails, run_tmux-Succeeds,
  get_channel-Succeeds, IsDelivered, delivered, load_failed, paste_failed, deliver-IsDelivered,
}

module _ (b : Backend) (runner : Runner) where
  submit_text-Succeeds :
      (pane_id : Text) (log : List Command)
      → (Succeeds b runner log (send_keys b runner pane_id enter)
          × (submit_text b runner pane_id true log
              ≡ (log ++ send_keys b runner pane_id enter ∷ [], ok true)))
        ⊎ ((e : ChannelError) × Fails b runner log
              (send_keys b runner pane_id enter)
              (control_operation enter)
              true
              e
            × (submit_text b runner pane_id true log
                ≡ (log ++ send_keys b runner pane_id enter ∷ [], thrown (submit_error b runner e))))
  unfolding submit_text send_control_to_pane
  submit_text-Succeeds pane_id log =
      elim (run_tmux-Succeeds b runner keys (control_operation enter) true log) [
        | inl (answer, (out, e)) ↦ inl (
          answer,
          >>=-ok (catch b runner (sending >>= sent) handler) done
              (catch-ok b runner (sending >>= sent) handler (>>=-ok sending sent e)),
        )
        | inr (t, failing, e) ↦ inr (
          t,
          failing,
          >>=-thrown (catch b runner (sending >>= sent) handler) done
              (catch-thrown b runner (sending >>= sent) handler (>>=-thrown sending sent e)),
        )
      ]
    where
      keys : Command
      keys = send_keys b runner pane_id enter

      sending : Proc Text
      sending = run_tmux b runner keys (control_operation enter) true

      sent : Text → Proc (Unit {0})
      sent out = lift (ok tt)

      handler : ChannelError → Proc (Unit {0})
      handler e = lift (thrown (submit_error b runner e))

      done : Unit {0} → Proc Bool
      done u = lift (ok true)

  -- The commands that a call runs after those before it, how the runner answers them, and what the call
  -- returns.
  pub data IsWritten (buffer_name channel_id s : Text) (submit : Bool) (log : List Command)
      : List Command → Result Bool → Type 0 where
    -- Nothing is run for a text or an identifier that is not valid.
    bad_text :
        (e : ChannelError)
        → validate_ordinary_text s ≡ thrown e
        → IsWritten buffer_name channel_id s submit log [] (thrown e)
    bad_channel_id :
        (e : ChannelError)
        → parse_channel_id b.fingerprint channel_id ≡ thrown e
        → IsWritten buffer_name channel_id s submit log [] (thrown e)
    not_found :
        (e : ChannelError)
        → (get_channel b runner channel_id log).1 ≡ thrown e
        → IsWritten buffer_name channel_id s submit log (list_panes b runner ∷ []) (thrown e)
    not_delivered :
        (pane_id : Text) (channel : Channel)
        → parse_channel_id b.fingerprint channel_id ≡ ok pane_id
        → Succeeds b runner log (list_panes b runner)
        → (get_channel b runner channel_id log).1 ≡ ok channel
        → (steps : List Command) (e : ChannelError)
        → IsDelivered b runner buffer_name pane_id s
            (log ++ list_panes b runner ∷ [])
            steps
            (thrown e)
        → IsWritten buffer_name channel_id s submit log (list_panes b runner ∷ steps) (thrown e)
    written :
        (pane_id : Text) (channel : Channel)
        → parse_channel_id b.fingerprint channel_id ≡ ok pane_id
        → Succeeds b runner log (list_panes b runner)
        → (get_channel b runner channel_id log).1 ≡ ok channel
        → IsDelivered b runner buffer_name pane_id s
            (log ++ list_panes b runner ∷ [])
            (load_buffer b runner buffer_name s ∷ paste_buffer b runner buffer_name pane_id ∷ [])
            (ok tt)
        → submit ≡ false
        → IsWritten buffer_name channel_id s submit log
            (list_panes b runner
              ∷ load_buffer b runner buffer_name s
              ∷ paste_buffer b runner buffer_name pane_id
              ∷ [])
            (ok false)
    submitted :
        (pane_id : Text) (channel : Channel)
        → parse_channel_id b.fingerprint channel_id ≡ ok pane_id
        → Succeeds b runner log (list_panes b runner)
        → (get_channel b runner channel_id log).1 ≡ ok channel
        → IsDelivered b runner buffer_name pane_id s
            (log ++ list_panes b runner ∷ [])
            (load_buffer b runner buffer_name s ∷ paste_buffer b runner buffer_name pane_id ∷ [])
            (ok tt)
        → Succeeds b runner
            ((log ++ list_panes b runner ∷ [])
              ++ load_buffer b runner buffer_name s
                ∷ paste_buffer b runner buffer_name pane_id
                ∷ [])
            (send_keys b runner pane_id enter)
        → submit ≡ true
        → IsWritten buffer_name channel_id s submit log
            (list_panes b runner
              ∷ load_buffer b runner buffer_name s
              ∷ paste_buffer b runner buffer_name pane_id
              ∷ send_keys b runner pane_id enter
              ∷ [])
            (ok true)
    -- The text is delivered and its submission fails; the error says both.
    not_submitted :
        (pane_id : Text) (channel : Channel)
        → parse_channel_id b.fingerprint channel_id ≡ ok pane_id
        → Succeeds b runner log (list_panes b runner)
        → (get_channel b runner channel_id log).1 ≡ ok channel
        → IsDelivered b runner buffer_name pane_id s
            (log ++ list_panes b runner ∷ [])
            (load_buffer b runner buffer_name s ∷ paste_buffer b runner buffer_name pane_id ∷ [])
            (ok tt)
        → (e : ChannelError)
        → Fails b runner
            ((log ++ list_panes b runner ∷ [])
              ++ load_buffer b runner buffer_name s
                ∷ paste_buffer b runner buffer_name pane_id
                ∷ [])
            (send_keys b runner pane_id enter)
            (control_operation enter)
            true
            e
        → submit ≡ true
        → IsWritten buffer_name channel_id s submit log
            (list_panes b runner
              ∷ load_buffer b runner buffer_name s
              ∷ paste_buffer b runner buffer_name pane_id
              ∷ send_keys b runner pane_id enter
              ∷ [])
            (thrown (submit_error b runner e))

  IsDelivered-ok :
      (buffer_name pane_id s : Text) (log steps : List Command) (r : Result (Unit {0}))
      → IsDelivered b runner buffer_name pane_id s log steps r
      → r ≡ ok tt
      → steps ≡ load_buffer b runner buffer_name s ∷ paste_buffer b runner buffer_name pane_id ∷ []
  IsDelivered-ok buffer_name pane_id s log _ _ (delivered l p) h = refl
  IsDelivered-ok buffer_name pane_id s log _ _ (load_failed e f) h = absurd (cc h)
  IsDelivered-ok buffer_name pane_id s log _ _ (paste_failed e l f) h = absurd (cc h)

  -- The part of a call that follows the search for the channel.
  write_found :
      (buffer_name channel_id pane_id s : Text) (submit : Bool) (before : List Command)
      (channel : Channel)
      → parse_channel_id b.fingerprint channel_id ≡ ok pane_id
      → Succeeds b runner before (list_panes b runner)
      → (get_channel b runner channel_id before).1 ≡ ok channel
      → let log = before ++ list_panes b runner ∷ [] in
        (steps : List Command) × (r : Result Bool) × ((deliver b runner buffer_name pane_id s
              >>= λ _. submit_text b runner pane_id submit)
            log
          ≡ (log ++ steps, r))
        × IsWritten buffer_name channel_id s submit before (list_panes b runner ∷ steps) r
  write_found buffer_name channel_id pane_id s submit before channel parsed listed found =
      let (steps, r, e, d) =
        deliver-IsDelivered b runner buffer_name pane_id s (before ++ list_panes b runner ∷ []) in
      go steps r submit e d
    where
      log : List Command
      log = before ++ list_panes b runner ∷ []

      load : Command
      load = load_buffer b runner buffer_name s

      paste : Command
      paste = paste_buffer b runner buffer_name pane_id

      delivering : Proc (Unit {0})
      delivering = deliver b runner buffer_name pane_id s

      exactly :
          (steps : List Command)
          → IsDelivered b runner buffer_name pane_id s log steps (ok tt)
          → IsDelivered b runner buffer_name pane_id s log (load ∷ paste ∷ []) (ok tt)
      exactly steps d =
          subst (λ l. IsDelivered b runner buffer_name pane_id s log l (ok tt))
            (IsDelivered-ok buffer_name pane_id s log steps (ok tt) d refl) d

      go :
          (steps : List Command) (r : Result (Unit {0})) (submit : Bool)
          → delivering log ≡ (log ++ steps, r)
          → IsDelivered b runner buffer_name pane_id s log steps r
          → (all : List Command) × (result : Result Bool) × ((delivering >>= λ _.
                  submit_text b runner pane_id submit)
                log
              ≡ (log ++ all, result))
            × IsWritten buffer_name channel_id s submit before (list_panes b runner ∷ all) result
      go steps (thrown t) submit e d = (
        steps,
        thrown t,
        >>=-thrown delivering (λ _. submit_text b runner pane_id submit) e,
        not_delivered pane_id channel parsed listed found steps t d,
      )
      go steps (ok tt) false e d = (
        load ∷ paste ∷ [],
        ok false,
        >>=-ok delivering (λ _. submit_text b runner pane_id false) e
            ∙ unfold submit_text in
              ap (λ l. (log ++ l, ok false))
                (IsDelivered-ok buffer_name pane_id s log steps (ok tt) d refl),
        written pane_id channel parsed listed found (exactly steps d) refl,
      )
      go steps (ok tt) true e d =
          let exact : log ++ steps ≡ log ++ load ∷ paste ∷ [] =
            ap (λ l. log ++ l) (IsDelivered-ok buffer_name pane_id s log steps (ok tt) d refl) in
          let joined =
            append_assoc log (load ∷ paste ∷ []) (send_keys b runner pane_id enter ∷ []) in
          elim (submit_text-Succeeds pane_id (log ++ load ∷ paste ∷ [])) [
            | inl (keys, sent) ↦ (
              _,
              ok true,
              >>=-ok delivering (λ _. submit_text b runner pane_id true) e
                  ∙ ap (submit_text b runner pane_id true) exact
                  ∙ sent
                  ∙ ap (λ l. (l, ok true)) joined,
              submitted pane_id channel parsed listed found (exactly steps d) keys refl,
            )
            | inr (t, failing, sent) ↦ (
              _,
              thrown (submit_error b runner t),
              >>=-ok delivering (λ _. submit_text b runner pane_id true) e
                  ∙ ap (submit_text b runner pane_id true) exact
                  ∙ sent
                  ∙ ap (λ l. (l, thrown (submit_error b runner t))) joined,
              not_submitted pane_id channel parsed listed found (exactly steps d) t failing refl,
            )
          ]

  -- Whatever the runner answers, a call runs one of the command sequences of `IsWritten`, in that order
  -- and nothing else: the text is loaded and pasted at most once, Enter is sent at most once and only
  -- after the runner took the paste, the buffer is removed where the runner failed the load or the paste,
  -- and the call succeeds only if the runner answered every command; the error of a load, a paste or Enter
  -- is the classified failure of the runner.
  pub write_text-IsWritten :
      (unique channel_id s : Text) (submit : Bool) (log : List Command)
      → (steps : List Command) × (r : Result Bool) × (write_text b runner unique channel_id s submit
            log
          ≡ (log ++ steps, r))
        × IsWritten (codes "agent-runtime-mcp-write-" ++ unique) channel_id s submit log steps r
  unfolding write_text
  write_text-IsWritten unique channel_id s submit log =
      elim (Result-cases (validate_ordinary_text s)) [
        | inr (t, invalid) ↦ (
          [],
          thrown t,
          rw invalid (ap (λ l. (l, thrown t)) (sym (append-nil log))),
          bad_text t invalid,
        )
        | inl (u, valid) ↦ elim (Result-cases (parse_channel_id b.fingerprint channel_id)) [
          | inr (t, unparsed) ↦ (
            [],
            thrown t,
            rw (valid, unparsed) (ap (λ l. (l, thrown t)) (sym (append-nil log))),
            bad_channel_id t unparsed,
          )
          | inl (pane_id, parsed) ↦
              let name = codes "agent-runtime-mcp-write-" ++ unique in
              let rest : Channel → Proc Bool =
                λ _. deliver b runner name pane_id s >>= λ _. submit_text b runner pane_id submit in
              elim (get_channel-Succeeds b runner channel_id pane_id log parsed) [
                | inr (t, e) ↦ (
                  list_panes b runner ∷ [],
                  thrown t,
                  rw (valid, parsed) (>>=-thrown (get_channel b runner channel_id) rest e),
                  not_found t (ap (λ (p : List Command × Result Channel). p.1) e),
                )
                | inl (listed, (channel, e)) ↦
                    let (steps, r, w, is_written) =
                      write_found name channel_id pane_id s submit log channel parsed listed
                        (ap (λ (p : List Command × Result Channel). p.1) e) in
                    (
                      list_panes b runner ∷ steps,
                      r,
                      rw (valid, parsed)
                          (>>=-ok (get_channel b runner channel_id) rest e
                            ∙ w
                            ∙ ap (λ l. (l, r)) (append_assoc log (list_panes b runner ∷ []) steps)),
                      is_written,
                    )
              ]
        ]
      ]
