-- ===== src/Coordinator/Explanations.antt =====
-- A query about an object from the gateway of internal/app/coordinator to the store and the snapshots
-- of internal/app/clusteragent.
use Prim.Native.String.{String}
use mathlib.Core.Bool.{Bool, false, not, ◌&&◌}
use mathlib.Core.List.{List, [], ◌∷◌, ◌++◌, Perm, map, mem-cons_self, not-mem-nil}
use mathlib.Core.List.Perm
use mathlib.Core.Option.{Option, none, some}
use mathlib.Core.Path.{◌≡◌, refl, sym, ap, subst, ◌∙◌}
use mathlib.Core.Logic.{inl, inr, ◌≢◌}
use mcp_k8s.Base.{Bool-cases, ◌==◌, text_keys, num_keys, if◌then◌else◌, Ranging, keep}
use mcp_k8s.Base.Result.{Result, ok, err, ◌>>=◌, is_ok}
use mcp_k8s.Event.{NormalizedEvent, Time, Sorting, OldestFirst}
use mcp_k8s.Enrichment.Snapshot.{ObjectSnapshot, get_object_snapshot}
use mcp_k8s.Store.Query.{query}
use mcp_k8s.Store.Invariant.{IsValid}
use mcp_k8s.Store.Answers.{matches, stored}
use mcp_k8s.Store.Selection.{query_lem}
use mcp_k8s.Store.Episodes.{keep-perm}
use mcp_k8s.Planner.{
  Query, Step, Method, object_step, explain_object_issue, explain_object_issue_steps, steps_for,
  plan,
}
use mcp_k8s.Correlation.{CorrelatedEvent, Timeline, CauseIndex, correlate}
use mcp_k8s.Correlation.Complete.{event_of, correlate_lem}
use mcp_k8s.Proto.{Timestamps, PbOwnerRef}
use mcp_k8s.Messages.{AgentClient, PbObjectSnapshot}
use mcp_k8s.Executor.{
  ExecutionResult, empty_result, object_request, collect, run_step, run_method, run_steps,
}
use mcp_k8s.Agent.{
  GrpcServer, namespace_filter, server_owner_chain, server_snapshot, to_proto_snapshot,
}
use mcp_k8s.Agent.Answers.{
  Wire, received, delivered_snapshot, is_encodable, client_of, is_about,
  run_step-get_events_for_object,
}
use mcp_k8s.Response.{ResponseMode, Response}
use mcp_k8s.Gateway.Planned.{handle_query-run_steps}
use mcp_k8s.Gateway.{
  QueryRequest, is_nil, response_body, parse_intent, parse_mode, to_query, answer_status,
  handle_query,
}

object_planned :
    (q : Query)
    → (q.cluster_name == "") ≡ false
    → (q.object_kind == "") ≡ false
    → (q.object_name == "") ≡ false
    → q.intent ≡ explain_object_issue
    → plan q
      ≡ ok (record {
        cluster_name = q.cluster_name;
        steps =
            object_step q Method.get_events_for_object
            ∷ object_step q Method.resolve_owner_chain
            ∷ object_step q Method.get_object_snapshot
            ∷ [];
      })
unfolding plan steps_for explain_object_issue_steps
object_planned q named kind name intent = rw (named, intent, kind, name) refl

is_nil-perm {ℓ} : {A : Type ℓ} (xs ys : List A) → Perm xs ys → is_nil xs ≡ is_nil ys
is_nil-perm [] [] same = refl
is_nil-perm [] (y ∷ ys) same = absurd (not-mem-nil ((Perm.mem_iff same).1 mem-cons_self))
is_nil-perm (x ∷ xs) [] same = absurd (not-mem-nil ((Perm.mem_iff same).0 mem-cons_self))
is_nil-perm (x ∷ xs) (y ∷ ys) same = refl

module _ (T : Timestamps) (wire : Wire) (s : GrpcServer T) where
  -- The result behind the events of an object.
  abbrev with_events : List NormalizedEvent → ExecutionResult T
  with_events evs = record (empty_result T) { events = [] ++ evs }

  -- The result behind the owner chain, from what the agent answers.
  abbrev with_owners : Step → ExecutionResult T → Result (List PbOwnerRef) → ExecutionResult T
  with_owners st r owners =
      collect T st r (owners >>= λ chain. ok (record r { chains = r.chains ++ chain ∷ [] }))

  -- The result behind the reply with the snapshot.
  abbrev with_reply :
      Step → ExecutionResult T → Result (Option PbObjectSnapshot) → ExecutionResult T
  with_reply st r reply = collect T st r (
      reply >>= λ (snapshot : Option PbObjectSnapshot).
      ok (elim snapshot [
        | none ↦ r
        | some snap ↦ record r { snapshots = r.snapshots ++ snap ∷ [] }
      ]))

  abbrev reply_to : Result ObjectSnapshot → Result (Option PbObjectSnapshot)
  reply_to state = delivered_snapshot wire (state >>= λ snap. ok (some (to_proto_snapshot snap)))

  -- Whether a snapshot is read and can be sent.
  abbrev pub arrives : Result ObjectSnapshot → Bool
  arrives (err why) = false
  arrives (ok snap) = is_encodable wire (to_proto_snapshot snap)

  is_ok-reply_to : (state : Result ObjectSnapshot) → is_ok (reply_to state) ≡ arrives state
  is_ok-reply_to (err why) = refl
  is_ok-reply_to (ok snap) = elim (Bool-cases (is_encodable wire (to_proto_snapshot snap))) [
    | inl sent ↦ rw sent refl
    | inr cut ↦ rw cut refl
  ]

  reply_to_some : (state : Result ObjectSnapshot) → reply_to state ≢ ok none
  reply_to_some (err why) = λ none_sent. cc
  reply_to_some (ok snap) = elim (Bool-cases (is_encodable wire (to_proto_snapshot snap))) [
    | inl sent ↦ rw sent (λ none_sent. cc)
    | inr cut ↦ rw cut (λ none_sent. cc)
  ]

  with_reply_lem :
      (st su : Step) (evs : List NormalizedEvent) (owners : Result (List PbOwnerRef))
      (reply : Result (Option PbObjectSnapshot))
      → reply ≢ ok none
      → let r = with_reply su (with_owners st (with_events evs) owners) reply in
        (r.events ≡ evs)
        × (answer_status r ≡ (if is_nil evs && not (is_ok reply) then 207 else 200))
  unfolding answer_status
  with_reply_lem st su [] (ok chain) (ok none) there = absurd (there refl)
  with_reply_lem st su [] (ok chain) (ok (some snap)) there = (refl, refl)
  with_reply_lem st su [] (ok chain) (err why) there = (refl, refl)
  with_reply_lem st su [] (err off) (ok none) there = absurd (there refl)
  with_reply_lem st su [] (err off) (ok (some snap)) there = (refl, refl)
  with_reply_lem st su [] (err off) (err why) there = (refl, refl)
  with_reply_lem st su (e ∷ evs) (ok chain) (ok none) there = absurd (there refl)
  with_reply_lem st su (e ∷ evs) (ok chain) (ok (some snap)) there = (refl, refl)
  with_reply_lem st su (e ∷ evs) (ok chain) (err why) there = (refl, refl)
  with_reply_lem st su (e ∷ evs) (err off) (ok none) there = absurd (there refl)
  with_reply_lem st su (e ∷ evs) (err off) (ok (some snap)) there = (refl, refl)
  with_reply_lem st su (e ∷ evs) (err off) (err why) there = (refl, refl)

  -- The events of the object that the agent's store answers with.
  abbrev pub events_of : QueryRequest → List NormalizedEvent
  events_of req =
      keep (is_about T wire req.object_kind req.object_name)
        (query s.ids s.store (namespace_filter T req.namespace))

  -- The stored events of the request's namespace that are about its object.
  abbrev pub stored_about : QueryRequest → List NormalizedEvent
  stored_about req =
      keep (is_about T wire req.object_kind req.object_name)
        (keep (matches (namespace_filter T req.namespace)) (stored s.store.by_id))

  events_of-perm : (req : QueryRequest) → IsValid s.store → Perm (events_of req) (stored_about req)
  events_of-perm req valid =
      let about = is_about T wire req.object_kind req.object_name in
      let (all, perm, newest, limited) =
        query_lem s.ids s.store (namespace_filter T req.namespace) valid in
      subst (λ l. Perm (keep about l) (stored_about req)) (sym limited) (keep-perm about perm)

  abbrev pub state_of : QueryRequest → Result ObjectSnapshot
  state_of req =
      get_object_snapshot s.objects s.enricher req.namespace req.object_kind req.object_name

  run_steps-object :
      (now : Time) (req : QueryRequest)
      → let q = to_query now req in
        (r : ExecutionResult T) × (run_steps T
            (client_of T wire s)
            (object_step q Method.get_events_for_object
              ∷ object_step q Method.resolve_owner_chain
              ∷ object_step q Method.get_object_snapshot
              ∷ [])
            (empty_result T)
          ≡ r)
        × (r.events ≡ events_of req)
        × (answer_status r
            ≡ (if is_nil (events_of req) && not (arrives (state_of req)) then 207 else 200))
  unfolding run_steps run_step run_method to_query server_snapshot
  run_steps-object now req =
      let q = to_query now req in
      let first = object_step q Method.get_events_for_object in
      let chain = object_step q Method.resolve_owner_chain in
      let snap = object_step q Method.get_object_snapshot in
      let owners = received wire (server_owner_chain T s (object_request chain)) in
      let reply = reply_to (state_of req) in
      let (events, status) =
        with_reply_lem chain snap (events_of req) owners reply (reply_to_some (state_of req)) in
      let code = λ (sent : Bool). if is_nil (events_of req) && not sent then 207 else 200 in
      (
        with_reply snap (with_owners chain (with_events (events_of req)) owners) reply,
        ap (λ r. with_reply snap (with_owners chain r owners) reply)
            (ap (collect T first (empty_result T))
              (run_step-get_events_for_object T wire s first (empty_result T) refl)),
        events,
        status ∙ ap code (is_ok-reply_to (state_of req)),
      )

module _ (T : Timestamps) (wire : Wire) (quote : String → String)
    (clients : String → Result (AgentClient T))
    (build_with : String → ResponseMode → Timeline → ExecutionResult T → Response)
    (idx : CauseIndex) (by_time : Sorting NormalizedEvent (λ e. e.last_seen))
    (by_event_time : Sorting CorrelatedEvent (λ ce. ce.event.last_seen))
    (range : Ranging (String × List CorrelatedEvent)) (s : GrpcServer T) where
  -- If the cluster is named and has this agent, its store is valid, and the request asks to explain an
  -- object that it names by kind and name, then the reply has the response that is built from one
  -- timeline, and the status 207 if there are no events and the object's snapshot fails or cannot be
  -- sent, as when a termination message in it is not UTF-8, and 200 otherwise. The timeline holds, oldest first, exactly the stored events of the request's namespace
  -- that are about an object of this kind and name, whatever reason, time bound or limit the request
  -- gives.
  pub handle_query-explain_object_issue :
      (now : Time) (req : QueryRequest)
      → IsValid s.store
      → clients req.cluster_name ≡ ok (client_of T wire s)
      → (req.cluster_name == "") ≡ false
      → (req.object_kind == "") ≡ false
      → (req.object_name == "") ≡ false
      → parse_intent req.intent ≡ explain_object_issue
      → (tl : Timeline) × (result : ExecutionResult T) × Perm
          (map event_of tl.events)
          (stored_about T wire s req)
        × OldestFirst (λ ce. ce.event.last_seen) tl.events
        × (handle_query T quote clients
              (correlate idx by_time by_event_time range)
              build_with
              now
              (ok req)
            ≡ record {
              status =
                  if is_nil (stored_about T wire s req)
                    && not (arrives T wire s (state_of T wire s req))
                  then 207
                  else 200;
              body = response_body (build_with req.cluster_name (parse_mode req.mode) tl result);
            })
  unfolding to_query
  handle_query-explain_object_issue now req valid found named kind name intent =
      let (r, ran, events, status) = run_steps-object T wire s now req in
      let timeline_of = correlate idx by_time by_event_time range in
      let (same, oldest, roots) = correlate_lem idx by_time by_event_time range r.events in
      let of_object = events_of-perm T wire s req valid in
      let body =
        response_body
          (build_with req.cluster_name (parse_mode req.mode) (timeline_of r.events) r) in
      let code = λ (none_left : Bool).
        if none_left && not (arrives T wire s (state_of T wire s req)) then 207 else 200 in
      (
        timeline_of r.events,
        r,
        Perm.trans same (subst (λ l. Perm l (stored_about T wire s req)) (sym events) of_object),
        oldest,
        handle_query-run_steps T quote clients timeline_of build_with now req _ (client_of T wire s)
              r named (object_planned (to_query now req) named kind name intent) found ran
            ∙ ap (λ n. record { status = n; body = body })
                (status
                  ∙ ap code
                      (is_nil-perm (events_of T wire s req) (stored_about T wire s req) of_object)),
      )
