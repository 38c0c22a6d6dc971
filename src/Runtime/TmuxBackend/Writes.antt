-- ===== src/Runtime/TmuxBackend/Writes.antt =====
-- src/tmux-backend.ts: the commands that `writeText` runs, with any runner.
pub mod Traces
use mathlib.Core.List.{append_assoc, append-nil}
use agent_runtime_mcp.Base.{
  Bool, true, false, List, [], ◌∷◌, ◌++◌, Text, codes, ◌≡◌, ◌⊎◌, refl, sym, ap, subst, ◌∙◌, inl,
  inr,
}
use agent_runtime_mcp.Runtime.Errors.{ChannelError, Result, ok, thrown}
use agent_runtime_mcp.Runtime.Input.{enter, validate_ordinary_text}
use agent_runtime_mcp.Runtime.TmuxBackend.Panes.{parse_channel_id}
use agent_runtime_mcp.Runtime.TmuxBackend.{
  Backend, Channel, Command, ExecFailure, Reply, answered, failed, classify_tmux_failure, Runner,
  Proc, ◌>>=◌, lift, catch, run_tmux, list_panes, visible_panes, list_visible_panes, get_channel,
  find_channel,
}
use agent_runtime_mcp.Runtime.TmuxBackend.Sending.{
  load_buffer, paste_buffer, delete_buffer, send_keys, cleanup_buffer, deliver,
  send_control_to_pane, submit_error, submit_text, write_text,
}

pub Result-cases :
    {A : Type 0} (r : Result A) → ((a : A) × (r ≡ ok a)) ⊎ ((e : ChannelError) × (r ≡ thrown e))
Result-cases (ok a) = inl (a, refl)
Result-cases (thrown e) = inr (e, refl)

Reply-cases :
    (r : Reply) → ((out : Text) × (r ≡ answered out)) ⊎ ((f : ExecFailure) × (r ≡ failed f))
Reply-cases (answered out) = inl (out, refl)
Reply-cases (failed f) = inr (f, refl)

pub >>=-ok :
    {A B : Type 0} (m : Proc A) (f : A → Proc B) {log after : List Command} {a : A}
    → m log ≡ (after, ok a)
    → (m >>= f) log ≡ f a after
>>=-ok {A} {B} m f e =
    ap
      (λ (p : List Command × Result A). elim p.1 as (λ _. List Command × Result B) [
        | ok x ↦ f x p.0
        | thrown t ↦ (p.0, thrown t)
      ])
      e

pub >>=-thrown :
    {A B : Type 0} (m : Proc A) (f : A → Proc B) {log after : List Command} {t : ChannelError}
    → m log ≡ (after, thrown t)
    → (m >>= f) log ≡ (after, thrown t)
>>=-thrown {A} {B} m f e =
    ap
      (λ (p : List Command × Result A). elim p.1 as (λ _. List Command × Result B) [
        | ok x ↦ f x p.0
        | thrown t ↦ (p.0, thrown t)
      ])
      e

module _ (b : Backend) (runner : Runner) where
  pub catch-ok :
      {A : Type 0} (m : Proc A) (handler : ChannelError → Proc A) {log after : List Command} {a : A}
      → m log ≡ (after, ok a)
      → catch b runner m handler log ≡ (after, ok a)
  catch-ok {A} m handler e =
      ap
        (λ (p : List Command × Result A). elim p.1 as (λ _. List Command × Result A) [
          | ok x ↦ (p.0, ok x)
          | thrown t ↦ handler t p.0
        ])
        e

  pub catch-thrown :
      {A : Type 0} (m : Proc A) (handler : ChannelError → Proc A) {log after : List Command}
      {t : ChannelError}
      → m log ≡ (after, thrown t)
      → catch b runner m handler log ≡ handler t after
  catch-thrown {A} m handler e =
      ap
        (λ (p : List Command × Result A). elim p.1 as (λ _. List Command × Result A) [
          | ok x ↦ (p.0, ok x)
          | thrown t ↦ handler t p.0
        ])
        e

  -- A procedure runs the commands and then either gives a result or throws.
  abbrev pub Ends : {A : Type 0} → Proc A → List Command → List Command → Type 0
  Ends {A} m log after =
      ((a : A) × (m log ≡ (after, ok a))) ⊎ ((t : ChannelError) × (m log ≡ (after, thrown t)))

  pub run_tmux-Ends :
      (c : Command) (operation : Text) (mutation : Bool) (log : List Command)
      → Ends (run_tmux b runner c operation mutation) log (log ++ c ∷ [])
  unfolding run_tmux
  run_tmux-Ends c operation mutation log =
      elim (Result-cases (run_tmux b runner c operation mutation log).1) [
        | inl (a, e) ↦ inl (a, ap (λ r. (log ++ c ∷ [], r)) e)
        | inr (t, e) ↦ inr (t, ap (λ r. (log ++ c ∷ [], r)) e)
      ]

  -- The runner answers the command, or it fails with this error.
  abbrev pub Succeeds : (before : List Command) → Command → Type 0
  Succeeds before c = (out : Text) × (runner before c ≡ answered out)

  pub record Fails (before : List Command) (c : Command) (operation : Text) (mutation : Bool)
      (e : ChannelError) : Type 0 where
    pub failure : ExecFailure
    pub reply_eq : runner before c ≡ failed failure
    pub error_eq : e ≡ classify_tmux_failure failure operation mutation

  pub run_tmux-Succeeds :
      (c : Command) (operation : Text) (mutation : Bool) (log : List Command)
      → (Succeeds log c
          × ((out : Text) × (run_tmux b runner c operation mutation log ≡ (log ++ c ∷ [], ok out))))
        ⊎ ((e : ChannelError) × Fails log c operation mutation e
            × (run_tmux b runner c operation mutation log ≡ (log ++ c ∷ [], thrown e)))
  unfolding run_tmux
  run_tmux-Succeeds c operation mutation log = elim (Reply-cases (runner log c)) [
    | inl (out, e) ↦ inl ((out, e), (out, rw (e, run_tmux) refl))
    | inr (f, e) ↦ inr (
      classify_tmux_failure f operation mutation,
      record { failure = f; reply_eq = e; error_eq = refl },
      rw (e, run_tmux) refl,
    )
  ]

  pub >>=-lift-Ends :
      {A B : Type 0} (m : Proc A) (f : A → Result B) (log after : List Command)
      → Ends m log after
      → Ends (m >>= λ a. lift (f a)) log after
  >>=-lift-Ends m f log after (inr (t, e)) = inr (t, >>=-thrown m (λ a. lift (f a)) e)
  >>=-lift-Ends m f log after (inl (a, e)) = elim (Result-cases (f a)) [
    | inl (x, g) ↦ inl (x, >>=-ok m (λ a. lift (f a)) e ∙ ap (λ r. (after, r)) g)
    | inr (t, g) ↦ inr (t, >>=-ok m (λ a. lift (f a)) e ∙ ap (λ r. (after, r)) g)
  ]

  pub get_channel-Ends :
      (channel_id pane_id : Text) (log : List Command)
      → parse_channel_id b.fingerprint channel_id ≡ ok pane_id
      → Ends (get_channel b runner channel_id) log (log ++ list_panes b runner ∷ [])
  unfolding get_channel list_visible_panes
  get_channel-Ends channel_id pane_id log parsed = rw parsed (
      >>=-lift-Ends (list_visible_panes b runner) (find_channel b runner channel_id pane_id) log _ (
        >>=-lift-Ends (run_tmux b runner (list_panes b runner) (codes "list-panes") false)
          (visible_panes b runner) log _
          (run_tmux-Ends (list_panes b runner) (codes "list-panes") false log)))

  -- A channel is found only where the runner lists the panes.
  pub get_channel-Succeeds :
      (channel_id pane_id : Text) (log : List Command)
      → parse_channel_id b.fingerprint channel_id ≡ ok pane_id
      → (Succeeds log (list_panes b runner)
          × ((channel : Channel) × (get_channel b runner channel_id log
                ≡ (log ++ list_panes b runner ∷ [], ok channel))))
        ⊎ ((e : ChannelError) × (get_channel b runner channel_id log
              ≡ (log ++ list_panes b runner ∷ [], thrown e)))
  unfolding get_channel list_visible_panes
  get_channel-Succeeds channel_id pane_id log parsed =
      elim (run_tmux-Succeeds (list_panes b runner) (codes "list-panes") false log) [
        | inl (answer, _) ↦ elim (get_channel-Ends channel_id pane_id log parsed) [
          | inl found ↦ inl (answer, found)
          | inr lost ↦ inr lost
        ]
        | inr (e, _, ran) ↦ inr (
          e,
          rw (parsed, get_channel)
              (>>=-thrown (list_visible_panes b runner)
                (λ panes. lift (find_channel b runner channel_id pane_id panes))
                (>>=-thrown (run_tmux b runner (list_panes b runner) (codes "list-panes") false)
                  (λ stdout. lift (visible_panes b runner stdout)) ran)),
        )
      ]

  cleanup_buffer-log :
      (buffer_name : Text) (log : List Command)
      → cleanup_buffer b runner buffer_name log
        ≡ (log ++ delete_buffer b runner buffer_name ∷ [], ok tt)
  unfolding cleanup_buffer
  cleanup_buffer-log buffer_name log =
      let deleting =
        run_tmux b runner (delete_buffer b runner buffer_name) (codes "delete-buffer") false in
      let done : Text → Proc (Unit {0}) = λ _. lift (ok tt) in
      let ignore : ChannelError → Proc (Unit {0}) = λ _. lift (ok tt) in
      elim (run_tmux-Ends (delete_buffer b runner buffer_name) (codes "delete-buffer") false log) [
        | inl (out, e) ↦ catch-ok (deleting >>= done) ignore (>>=-ok deleting done e)
        | inr (t, e) ↦ catch-thrown (deleting >>= done) ignore (>>=-thrown deleting done e)
      ]

  -- The runner takes the text and the paste, or the buffer is removed after the step that failed.
  pub data IsDelivered (buffer_name pane_id s : Text) (log : List Command)
      : List Command → Result (Unit {0}) → Type 0 where
    delivered :
        Succeeds log (load_buffer b runner buffer_name s)
        → Succeeds
            (log ++ load_buffer b runner buffer_name s ∷ [])
            (paste_buffer b runner buffer_name pane_id)
        → IsDelivered buffer_name pane_id s log
            (load_buffer b runner buffer_name s ∷ paste_buffer b runner buffer_name pane_id ∷ [])
            (ok tt)
    load_failed :
        (e : ChannelError)
        → Fails log (load_buffer b runner buffer_name s) (codes "load-buffer") false e
        → IsDelivered buffer_name pane_id s log
            (load_buffer b runner buffer_name s ∷ delete_buffer b runner buffer_name ∷ [])
            (thrown e)
    paste_failed :
        (e : ChannelError)
        → Succeeds log (load_buffer b runner buffer_name s)
        → Fails
            (log ++ load_buffer b runner buffer_name s ∷ [])
            (paste_buffer b runner buffer_name pane_id)
            (codes "paste-buffer")
            true
            e
        → IsDelivered buffer_name pane_id s log
            (load_buffer b runner buffer_name s
              ∷ paste_buffer b runner buffer_name pane_id
              ∷ delete_buffer b runner buffer_name
              ∷ [])
            (thrown e)

  pub deliver-IsDelivered :
      (buffer_name pane_id s : Text) (log : List Command)
      → (steps : List Command) × (r : Result (Unit {0})) × (deliver b runner buffer_name pane_id s
            log
          ≡ (log ++ steps, r))
        × IsDelivered buffer_name pane_id s log steps r
  unfolding deliver
  deliver-IsDelivered buffer_name pane_id s log =
      elim (run_tmux-Succeeds load (codes "load-buffer") false log) [
        | inr (t, failing_load, e) ↦ (
          load ∷ delete ∷ [],
          thrown t,
          catch-thrown (loading >>= pasting) handler (>>=-thrown loading pasting e)
              ∙ >>=-ok cleaning (failing t) (cleanup_buffer-log buffer_name (log ++ load ∷ []))
              ∙ ap (λ l. (l, thrown t)) (append_assoc log (load ∷ []) (delete ∷ [])),
          load_failed t failing_load,
        )
        | inl (loads, (out, e)) ↦
            elim (run_tmux-Succeeds paste (codes "paste-buffer") true (log ++ load ∷ [])) [
              | inr (t, failing_paste, p) ↦ (
                load ∷ paste ∷ delete ∷ [],
                thrown t,
                catch-thrown (loading >>= pasting) handler
                      (>>=-ok loading pasting e ∙ >>=-thrown (pasted) done p)
                    ∙ >>=-ok cleaning (failing t)
                        (cleanup_buffer-log buffer_name ((log ++ load ∷ []) ++ paste ∷ []))
                    ∙ ap (λ l. (l, thrown t))
                        (ap (λ l. l ++ delete ∷ []) (append_assoc log (load ∷ []) (paste ∷ []))
                          ∙ append_assoc log (load ∷ paste ∷ []) (delete ∷ [])),
                paste_failed t loads failing_paste,
              )
              | inl (pastes, (out2, p)) ↦ (
                load ∷ paste ∷ [],
                ok tt,
                catch-ok (loading >>= pasting) handler
                      (>>=-ok loading pasting e ∙ >>=-ok pasted done p)
                    ∙ ap (λ l. (l, ok tt)) (append_assoc log (load ∷ []) (paste ∷ [])),
                delivered loads pastes,
              )
            ]
      ]
    where
      load : Command
      load = load_buffer b runner buffer_name s

      paste : Command
      paste = paste_buffer b runner buffer_name pane_id

      delete : Command
      delete = delete_buffer b runner buffer_name

      loading : Proc Text
      loading = run_tmux b runner load (codes "load-buffer") false

      pasted : Proc Text
      pasted = run_tmux b runner paste (codes "paste-buffer") true

      done : Text → Proc (Unit {0})
      done out = lift (ok tt)

      pasting : Text → Proc (Unit {0})
      pasting out = pasted >>= done

      cleaning : Proc (Unit {0})
      cleaning = cleanup_buffer b runner buffer_name

      failing : ChannelError → Unit {0} → Proc (Unit {0})
      failing t u = lift (thrown t)

      handler : ChannelError → Proc (Unit {0})
      handler t = cleaning >>= failing t
