-- ===== src/Console/HttpApp/Reported.antt =====
-- console/src/http-app.ts, `handleMutation`: what the server is asked and what the listeners are told.
use agent_runtime_mcp.Base.{
  ℕ, true, false, Option, none, some, List, [], ◌∷◌, ◌++◌, map, Text, codes, text_eq, text_eq_iff,
  ◌≡◌, ◌≢◌, ◌⊎◌, ◌∙◌, refl, sym, none-absurd, true-absurd, subst, ap, Option-cases, Bool-cases, inl,
  inr, if-elim,
}
use agent_runtime_mcp.Console.Events.{ConsoleEvent, emit}
use agent_runtime_mcp.Console.History.Entry.{delivered, ambiguous}
use agent_runtime_mcp.Console.HistoryHub.Manager.{call, hears}
use agent_runtime_mcp.Console.HttpApp.{
  World, Request, Handled, App, BodyRead, delivered_body, send_error, invalid, replied, raised,
  read_json_body, parsed, body_refused, parse_body, read_chunks, start_reading, tell, ask,
}
use agent_runtime_mcp.Console.HttpApp.Asked.{
  IsAsked, AsksFor, mutation_of-IsAsked, IsAsked-mutation_of,
}
use agent_runtime_mcp.Console.HttpApp.Mutations.{
  Kind, Mutation, call_of, event_of, mutation_of, is_ambiguous_timeout, deliver, run_mutation,
  mutate_json, handle_mutation,
}
use agent_runtime_mcp.Console.Json.{
  Json, Members, undefined, null, array, boolean, number, string, object,
}
use agent_runtime_mcp.Console.McpClient.Calls.{
  McpError, unavailable, tool_error, other_error, Answer, answered, failed,
}

-- The event is delivered to every listener, and recorded by the history.
pub record IsTold (now : Text) (event : ConsoleEvent) (a a' : App) : Type 0 where
  pub deliveries_eq : a'.bus.deliveries ≡ a.bus.deliveries ++ map (λ l. (l, event)) a.bus.listeners
  pub hub_eq : a'.hub ≡ call now (hears event) a.hub

pub record IsSilent (a a' : App) : Type 0 where
  pub bus_eq : a'.bus ≡ a.bus
  pub hub_eq : a'.hub ≡ a.hub

-- How a request for a text or a control of the channel `id` can end.
pub data IsReported (w : World) (r : Request) (kind : Kind) (id : Text) (a a' : App)
    (reply : Handled) : Type 0 where
  -- The body asks for nothing of that kind: the server is not asked.
  refuses :
      (status : ℕ)
      → ((m : Mutation) → ¬ AsksFor w r kind m)
      → ((status ≡ 400) ⊎ (status ≡ 413))
        × ((status ≡ 400) ⊎ (read_json_body w.parse_json r.chunks ≡ body_refused status))
      → reply ≡ replied (invalid status)
      → a' ≡ a
      → IsReported w r kind id a a' reply
  delivers :
      (m : Mutation) (result : Members)
      → AsksFor w r kind m
      → w.server (call_of id m) ≡ answered result
      → a'.calls ≡ a.calls ++ call_of id m ∷ []
      → IsTold w.now (event_of id w.now m delivered) a a'
      → reply ≡ replied (record { status = 200; body = delivered_body result })
      → IsReported w r kind id a a' reply
  -- The request timed out: what it asked for may have happened.
  times_out :
      (m : Mutation)
      → AsksFor w r kind m
      → w.server (call_of id m) ≡ failed (tool_error (codes "TIMEOUT"))
      → a'.calls ≡ a.calls ++ call_of id m ∷ []
      → IsTold w.now (event_of id w.now m ambiguous) a a'
      → reply ≡ replied (send_error 504 (codes "TIMEOUT"))
      → IsReported w r kind id a a' reply
  -- Any other failure: nobody is told of a turn that did not happen.
  fails :
      (m : Mutation) (e : McpError)
      → AsksFor w r kind m
      → w.server (call_of id m) ≡ failed e
      → e ≢ tool_error (codes "TIMEOUT")
      → a'.calls ≡ a.calls ++ call_of id m ∷ []
      → IsSilent a a'
      → reply ≡ raised e
      → IsReported w r kind id a a' reply

is_ambiguous_timeout-true :
    (e : McpError) → is_ambiguous_timeout e ≡ true → e ≡ tool_error (codes "TIMEOUT")
unfolding is_ambiguous_timeout
is_ambiguous_timeout-true (tool_error code) h =
    ap tool_error ((text_eq_iff code (codes "TIMEOUT")).0 h)
is_ambiguous_timeout-true unavailable h = absurd (cc h)
is_ambiguous_timeout-true other_error h = absurd (cc h)

is_ambiguous_timeout-false :
    (e : McpError) → is_ambiguous_timeout e ≡ false → e ≢ tool_error (codes "TIMEOUT")
unfolding is_ambiguous_timeout text_eq
is_ambiguous_timeout-false e h = λ same. true-absurd (rw (← h) (rw same refl))

parsed-inj : {u v : Json} → parsed u ≡ parsed v → u ≡ v
parsed-inj e = cc

object-inj : {m n : Members} → parsed (object m) ≡ parsed (object n) → m ≡ n
object-inj e = cc

refused-absurd : {status : ℕ} {value : Json} → body_refused status ≢ parsed value
refused-absurd e = cc

module _ (w : World) (r : Request) (kind : Kind) (id : Text) where
  deliver-IsReported :
      (m : Mutation) (answer : Answer Members) (a : App)
      → AsksFor w r kind m
      → w.server (call_of id m) ≡ answer
      → IsReported w r kind id a
          (deliver w id m answer (ask (call_of id m) a)).0
          (deliver w id m answer (ask (call_of id m) a)).1
  unfolding deliver tell emit
  deliver-IsReported m (answered result) a asks e =
      delivers m result asks e refl (record { deliveries_eq = refl; hub_eq = refl }) refl
  deliver-IsReported m (failed f) a asks e = elim (Bool-cases (is_ambiguous_timeout f)) [
    | inl timeout ↦
        rw (timeout, deliver)
          (times_out m asks (e ∙ ap failed (is_ambiguous_timeout-true f timeout)) refl
            (record { deliveries_eq = refl; hub_eq = refl }) refl)
    | inr other ↦
        rw (other, deliver)
          (fails m f asks e (is_ambiguous_timeout-false f other) refl
            (record { bus_eq = refl; hub_eq = refl }) refl)
  ]

  run_mutation-IsReported :
      (members : Members) (o : Option Mutation) (a : App)
      → read_json_body w.parse_json r.chunks ≡ parsed (object members)
      → mutation_of kind members ≡ o
      → IsReported w r kind id a (run_mutation w id o a).0 (run_mutation w id o a).1
  run_mutation-IsReported members none a body e =
      refuses 400
        (λ m asks. none-absurd (
          sym e
          ∙ IsAsked-mutation_of members kind m
              (subst (λ ms. IsAsked ms kind m) (object-inj (sym asks.body_eq ∙ body)) asks.asked)))
        (inl refl, inl refl) refl refl
  run_mutation-IsReported members (some m) a body e =
      deliver-IsReported m (w.server (call_of id m)) a
        (record { members = members; body_eq = body; asked = mutation_of-IsAsked members kind m e })
        refl

  -- A value that is no object asks for nothing.
  other_value-IsReported :
      (value : Json) (a : App)
      → read_json_body w.parse_json r.chunks ≡ parsed value
      → ((members : Members) → value ≢ object members)
      → IsReported w r kind id a a (replied (invalid 400))
  other_value-IsReported value a body other =
      refuses 400 (λ m asks. other asks.members (parsed-inj (sym body ∙ asks.body_eq)))
        (inl refl, inl refl) refl refl

  mutate_json-IsReported :
      (value : Json) (a : App)
      → read_json_body w.parse_json r.chunks ≡ parsed value
      → IsReported w r kind id a (mutate_json w kind id value a).0 (mutate_json w kind id value a).1
  mutate_json-IsReported (object m) a body =
      run_mutation-IsReported m (mutation_of kind m) a body refl
  mutate_json-IsReported undefined a body = other_value-IsReported undefined a body (λ m e. cc)
  mutate_json-IsReported null a body = other_value-IsReported null a body (λ m e. cc)
  mutate_json-IsReported array a body = other_value-IsReported array a body (λ m e. cc)
  mutate_json-IsReported (boolean b) a body = other_value-IsReported (boolean b) a body (λ m e. cc)
  mutate_json-IsReported (number n) a body = other_value-IsReported (number n) a body (λ m e. cc)
  mutate_json-IsReported (string s) a body = other_value-IsReported (string s) a body (λ m e. cc)

abbrev IsBodyStatus : BodyRead → Type 0
IsBodyStatus b = elim b [
  | parsed value ↦ Unit
  | body_refused status ↦ (status ≡ 400) ⊎ (status ≡ 413)
]

parse_body-IsBodyStatus :
    (parse : List ℕ → Option Json) (bytes : List ℕ) → IsBodyStatus (parse_body parse bytes)
parse_body-IsBodyStatus parse bytes = elim (Option-cases (parse bytes)) [
  | inl bad ↦ rw (bad, IsBodyStatus) (inl refl)
  | inr (value, good) ↦ rw (good, IsBodyStatus) tt
]

read_json_body-IsBodyStatus :
    (parse : List ℕ → Option Json) (chunks : List (List ℕ))
    → IsBodyStatus (read_json_body parse chunks)
unfolding read_json_body
read_json_body-IsBodyStatus parse chunks =
    let r = read_chunks chunks start_reading in
    if-elim IsBodyStatus r.too_large (body_refused 413) (parse_body parse r.kept) (λ _. inr refl)
      (λ _. parse_body-IsBodyStatus parse r.kept)

BodyRead-cases :
    (b : BodyRead)
    → ((value : Json) × (b ≡ parsed value)) ⊎ ((status : ℕ) × (b ≡ body_refused status))
BodyRead-cases (parsed value) = inl (value, refl)
BodyRead-cases (body_refused status) = inr (status, refl)

-- A request for a text or a control ends in one of four ways. Where its body does not ask for one (an
-- object with a text and, if given, a Boolean `submit`, or with one of the three controls), the reply has
-- status 400, or 413 where the body is too large, and nothing changes. Otherwise the server is asked for
-- exactly that once, for this channel, and its answer decides: a result is told to every listener as
-- delivered, with status 200; a time-out is told as ambiguous, with status 504; and after any other error
-- nobody is told anything, and the error is passed on.
pub handle_mutation-IsReported :
    (w : World) (r : Request) (kind : Kind) (id : Text) (a : App)
    → IsReported w r kind id a (handle_mutation w r kind id a).0 (handle_mutation w r kind id a).1
unfolding handle_mutation
handle_mutation-IsReported w r kind id a =
    elim (BodyRead-cases (read_json_body w.parse_json r.chunks)) [
      | inl (value, e) ↦ rw (e, handle_mutation) (mutate_json-IsReported w r kind id value a e)
      | inr (status, e) ↦
          rw (e, handle_mutation)
            (refuses status (λ m asks. refused-absurd (sym e ∙ asks.body_eq))
              (subst IsBodyStatus e (read_json_body-IsBodyStatus w.parse_json r.chunks), inr e) refl
              refl)
    ]
