-- ===== src/Console/HttpApp/Guarded.antt =====
-- console/src/http-app.ts, `createRequestHandler`: which requests can have an effect.
use agent_runtime_mcp.Base.{
  Option, none, false, true, some, [], ◌∷◌, ◌++◌, Text, codes, text_eq, starts_with, is_empty, ◌||◌,
  has_char, drop, length, ◌≡◌, ◌≢◌, ◌⊎◌, refl, ap, Option-cases, inl, inr, if-elim,
}
use agent_runtime_mcp.Console.History.Raw.{format_raw_transcript}
use agent_runtime_mcp.Console.HistoryHub.Manager.{
  Hub, ChannelSnapshot, snapshots, watches, ensure, channel_snapshot, raw_transcript, call,
  add_viewer,
}
use agent_runtime_mcp.Console.McpClient.Calls.{Answer, answered, failed}
use agent_runtime_mcp.Console.HttpApp.{
  McpCall, World, Request, Reply, Handled, App, AuthorityCheck, health, list_channels, get_channel,
  write_text, send_control, send_error, replied, http_request, sse_open, log_line, authorized,
  wrong_host, bad_origin, wrong_origin, check_request_authority,
}
use agent_runtime_mcp.Console.HttpApp.Authority.{IsOurs, check_request_authority_iff}
use agent_runtime_mcp.Console.HttpApp.Lifecycle.{LifecycleAction}
use agent_runtime_mcp.Console.HttpApp.Mutations.{Kind}
use agent_runtime_mcp.Console.HttpApp.Router.{
  HistoryKind, history_kind, events_kind, safe_path, mutation_route, history_route, lifecycle_route,
  wants_raw, handle_history, handle_events, ask_server, channels_prefix, get_one, static_files,
  static_name, route_rest, history_handler, route_get, is_read_method, is_post, route_post, route,
  admit, guarded, handle_request,
}
use agent_runtime_mcp.Console.Tmux.{includes}

abbrev pub IsRead : McpCall → Type 0
IsRead c = elim c [ write_text id s submit ↦ ⊥ | send_control id control ↦ ⊥ | _ ↦ Unit ]

-- What a request that is no POST leads to: nothing; one question to the server that only tells what there
-- is; a snapshot of the one channel that the path names; or one more viewer of it, with its stream, if
-- there is room. Everything else of the state is as it was.
pub data IsLook (w : World) (path : Text) (a a' : App) : Type 0 where
  nothing : a' ≡ a → IsLook w path a a'
  asks : (c : McpCall) → IsRead c → a' ≡ record a { calls = a.calls ++ c ∷ [] } → IsLook w path a a'
  shows :
      (encoded id : Text)
      → history_route path ≡ some (encoded, history_kind)
      → w.decode_component encoded ≡ some id
      → a' ≡ record a { hub = call w.now (snapshots id) a.hub }
      → IsLook w path a a'
  streams_to :
      (encoded id : Text)
      → history_route path ≡ some (encoded, events_kind)
      → w.decode_component encoded ≡ some id
      → (add_viewer w.now id (length a.streams) a.hub).1 ≡ true
      → a'
        ≡ log_line (sse_open id) (record a {
          hub = call w.now (watches id (length a.streams)) a.hub;
          streams = a.streams ++ record { channel_id = id; is_open = true } ∷ [];
        })
      → IsLook w path a a'
  full :
      (encoded id : Text)
      → history_route path ≡ some (encoded, events_kind)
      → w.decode_component encoded ≡ some id
      → (add_viewer w.now id (length a.streams) a.hub).1 ≡ false
      → a' ≡ record a { hub = call w.now (watches id (length a.streams)) a.hub }
      → IsLook w path a a'

-- What a request can come to: a refusal, nothing, a look, or a POST to a route with effects.
pub data IsGuarded (w : World) (r : Request) (a a' : App) (reply : Reply) : Type 0 where
  forbidden :
      ¬ IsOurs w r a.expected_host
      → reply ≡ send_error 403 (codes "FORBIDDEN")
      → a' ≡ log_line (http_request r.method (safe_path w r) 403) a
      → IsGuarded w r a a' reply
  untouched :
      IsOurs w r a.expected_host
      → a' ≡ log_line (http_request r.method (safe_path w r) reply.status) a
      → IsGuarded w r a a' reply
  looked :
      (before : App)
      → IsOurs w r a.expected_host
      → is_read_method r.method ≡ true
      → IsLook w (safe_path w r) a before
      → a' ≡ log_line (http_request r.method (safe_path w r) reply.status) before
      → IsGuarded w r a a' reply
  posted :
      (before : App)
      → IsOurs w r a.expected_host
      → is_post r.method ≡ true
      → ((id : Text) × (kind : Kind) × (mutation_route (safe_path w r) ≡ some (id, kind)))
        ⊎ ((action : LifecycleAction) × (lifecycle_route (safe_path w r) ≡ some action))
      → a' ≡ log_line (http_request r.method (safe_path w r) reply.status) before
      → IsGuarded w r a a' reply

raw_transcript-hub : (id : Text) (h : Hub) → (raw_transcript id h).0 ≡ (ensure id h).0
unfolding raw_transcript channel_snapshot
raw_transcript-hub id h = by_answer (channel_snapshot id h).1
  where
    by_answer :
        (taken : Answer ChannelSnapshot)
        → (elim taken as (λ _. Hub × Answer Text) [
          | failed e ↦ ((ensure id h).0, failed e)
          | answered s ↦ ((ensure id h).0, answered (format_raw_transcript s.ring))
        ]).0
          ≡ (ensure id h).0
    by_answer (failed e) = refl
    by_answer (answered s) = refl

module _ (w : World) (r : Request) (path : Text) (a : App) where
  abbrev Ends : App × Handled → Type 0
  Ends p = IsLook w path a p.0

  ask_server-IsLook : (c : McpCall) → IsRead c → Ends (ask_server w c a)
  unfolding ask_server
  ask_server-IsLook c reads = asks c reads refl

  handle_history-IsLook :
      (encoded id : Text)
      → history_route path ≡ some (encoded, history_kind)
      → w.decode_component encoded ≡ some id
      → Ends (handle_history w r id a)
  unfolding handle_history channel_snapshot call
  handle_history-IsLook encoded id there decoded =
      if-elim Ends (wants_raw w r) _ _
        (λ _.
          shows encoded id there decoded
            (ap (λ h. record a { hub = h }) (raw_transcript-hub id a.hub)))
        (λ _. shows encoded id there decoded refl)

  handle_events-IsLook :
      (encoded id : Text)
      → history_route path ≡ some (encoded, events_kind)
      → w.decode_component encoded ≡ some id
      → Ends (handle_events w id a)
  unfolding handle_events call
  handle_events-IsLook encoded id there decoded =
      if-elim Ends (add_viewer w.now id (length a.streams) a.hub).1 _ _
        (λ room. streams_to encoded id there decoded room refl)
        (λ no_room. full encoded id there decoded no_room refl)

  by_kind-IsLook :
      (encoded id : Text) (kind : HistoryKind)
      → history_route path ≡ some (encoded, kind)
      → w.decode_component encoded ≡ some id
      → Ends (elim kind as (λ _. App × Handled) [
        | history_kind ↦ handle_history w r id a
        | events_kind ↦ handle_events w id a
      ])
  by_kind-IsLook encoded id history_kind there decoded =
      handle_history-IsLook encoded id there decoded
  by_kind-IsLook encoded id events_kind there decoded =
      handle_events-IsLook encoded id there decoded

  history_handler-IsLook :
      (encoded : Text) (kind : HistoryKind)
      → history_route path ≡ some (encoded, kind)
      → Ends (history_handler w r encoded kind a)
  history_handler-IsLook encoded kind there = elim (Option-cases (w.decode_component encoded)) [
    | inl bad ↦ rw (bad, history_handler) (nothing refl)
    | inr (id, e) ↦ rw (e, history_handler) (by_kind-IsLook encoded id kind there e)
  ]

  get_one-IsLook : Ends (get_one w path a)
  get_one-IsLook = elim (Option-cases (w.decode_component (drop (length channels_prefix) path))) [
    | inl bad ↦ rw (bad, get_one) (nothing refl)
    | inr (id, e) ↦
        rw (e, get_one)
          (if-elim Ends (is_empty id || has_char b'/' id) _ _ (λ _. nothing refl)
            (λ _. ask_server-IsLook (get_channel id) tt))
  ]

  -- Two replies that change nothing.
  same-IsLook :
      {B : Type 0} (o : Option B) (x : Handled) (f : B → Handled)
      → Ends (elim o as (λ _. App × Handled) [ none ↦ (a, x) | some s ↦ (a, f s) ])
  same-IsLook none x f = nothing refl
  same-IsLook (some s) x f = nothing refl

  route_rest-IsLook : Ends (route_rest w path a)
  unfolding route_rest
  route_rest-IsLook =
      if-elim Ends (starts_with path channels_prefix) _ _ (λ _. get_one-IsLook)
        (λ _.
          if-elim Ends (includes static_files (static_name path)) _ _
            (λ _. same-IsLook (w.file_size (static_name path)) _ _) (λ _. nothing refl))

  route_get-IsLook : Ends (route_get w r path a)
  unfolding route_get
  route_get-IsLook =
      if-elim Ends (text_eq path (codes "/api/health")) _ _ (λ _. ask_server-IsLook health tt)
        (λ _.
          if-elim Ends (text_eq path (codes "/api/channels")) _ _
            (λ _. ask_server-IsLook list_channels tt)
            (λ _.
              if-elim Ends (text_eq path (codes "/api/lifecycle")) _ _
                (λ _. same-IsLook a.lifecycle _ _)
                (λ _.
                  if-elim Ends (text_eq path (codes "/api/terminal")) _ _
                    (λ _. same-IsLook a.terminal _ _)
                    (λ _. elim (Option-cases (history_route path)) [
                      | inl other ↦ rw other route_rest-IsLook
                      | inr ((encoded, kind), e) ↦ rw e (history_handler-IsLook encoded kind e)
                    ]))))

-- What a request that is authorized can do before it is logged.
abbrev IsRouted : World → Request → (path : Text) → App → App → Type 0
IsRouted w r path a a' =
    (a' ≡ a)
    ⊎ ((is_read_method r.method ≡ true) × IsLook w path a a')
    ⊎ ((is_post r.method ≡ true)
        × (((id : Text) × (kind : Kind) × (mutation_route path ≡ some (id, kind)))
            ⊎ ((action : LifecycleAction) × (lifecycle_route path ≡ some action))))

route_post-IsRouted :
    (w : World) (r : Request) (path : Text) (a : App)
    → is_post r.method ≡ true
    → IsRouted w r path a (route_post w r path a).0
unfolding route_post
route_post-IsRouted w r path a post = elim (Option-cases (mutation_route path)) [
  | inr ((id, kind), e) ↦ inr (inr (post, inl (id, kind, e)))
  | inl other ↦ elim (Option-cases (lifecycle_route path)) [
    | inr (action, e) ↦ inr (inr (post, inr (action, e)))
    | inl neither ↦ rw (other, neither, route_post) (inl refl)
  ]
]

route-IsRouted :
    (w : World) (r : Request) (path : Text) (a : App) → IsRouted w r path a (route w r path a).0
unfolding route
route-IsRouted w r path a =
    if-elim (λ (p : App × Handled). IsRouted w r path a p.0) (is_post r.method) _ _
      (λ post. route_post-IsRouted w r path a post)
      (λ _.
        if-elim (λ (p : App × Handled). IsRouted w r path a p.0) (is_read_method r.method) _ _
          (λ reads. inr (inl (reads, route_get-IsLook w r path a))) (λ _. inl refl))

AuthorityCheck-cases : (c : AuthorityCheck) → (c ≡ authorized) ⊎ (c ≢ authorized)
AuthorityCheck-cases authorized = inl refl
AuthorityCheck-cases wrong_host = inr (λ e. cc)
AuthorityCheck-cases bad_origin = inr (λ e. cc)
AuthorityCheck-cases wrong_origin = inr (λ e. cc)

guarded-authorized :
    (w : World) (r : Request) (path : Text) (a : App)
    → check_request_authority w r a.expected_host ≡ authorized
    → guarded w r path a ≡ route w r path a
unfolding guarded
guarded-authorized w r path a e = ap (λ c. admit c a (route w r path a)) e

admit-forbidden :
    (c : AuthorityCheck) (a : App) (routed : App × Handled)
    → c ≢ authorized
    → admit c a routed ≡ (a, replied (send_error 403 (codes "FORBIDDEN")))
admit-forbidden authorized a routed other = absurd (other refl)
admit-forbidden wrong_host a routed other = refl
admit-forbidden bad_origin a routed other = refl
admit-forbidden wrong_origin a routed other = refl

guarded-forbidden :
    (w : World) (r : Request) (path : Text) (a : App)
    → check_request_authority w r a.expected_host ≢ authorized
    → guarded w r path a ≡ (a, replied (send_error 403 (codes "FORBIDDEN")))
unfolding guarded
guarded-forbidden w r path a other = admit-forbidden _ a (route w r path a) other

-- A request that does not name the authority of the console as its host, or comes from another origin,
-- is refused with status 403, and does nothing but the line in the log. Of the others, a GET or HEAD at
-- most asks the server one question that changes nothing, has the hub take a snapshot of the channel
-- that its path names, or, on the route of events, adds a viewer of that channel with its stream; all
-- else of the state stays. Only a POST to the route of a text, a control or a session can do more. Any
-- other request changes nothing. The last line of the log is the request with the status of its reply.
pub handle_request-IsGuarded :
    (w : World) (r : Request) (a : App)
    → IsGuarded w r a (handle_request w r a).0 (handle_request w r a).1
unfolding handle_request
handle_request-IsGuarded w r a =
    let path = safe_path w r in
    elim (AuthorityCheck-cases (check_request_authority w r a.expected_host)) [
      | inr other ↦
          rw (guarded-forbidden w r path a other, handle_request)
            (forbidden (λ ours. other ((check_request_authority_iff w r a.expected_host).1 ours))
              refl refl)
      | inl yes' ↦
          let ours = (check_request_authority_iff w r a.expected_host).0 yes' in
          rw (guarded-authorized w r path a yes', handle_request)
            (elim (route-IsRouted w r path a) [
              | inl same ↦ untouched ours (ap (log_line _) same)
              | inr (inl (reads, look)) ↦ looked (route w r path a).0 ours reads look refl
              | inr (inr (post, there)) ↦ posted (route w r path a).0 ours post there refl
            ])
    ]
