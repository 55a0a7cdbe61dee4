-- ===== src/Agent/Answers.antt =====
-- The agent of internal/app/clusteragent/server.go behind the executor of
-- internal/app/coordinator/executor.go: what a step brings back from the store.
use mcp_k8s.Base.{
  Bytes, true, if◌then◌else◌, ◌^◌, ◌<◌, String, ◌≡◌, refl, sym, ap, subst, ◌∙◌, inl, inr, Bool,
  ◌&&◌, Option, none, some, List, [], ◌∷◌, ◌++◌, Bool-cases, ◌==◌, num_keys, text_keys, keep,
  to_int-to_int32,
}
use mcp_k8s.Base.Result.{Result, ok, err}
use mcp_k8s.Event.{NormalizedEvent}
use mcp_k8s.Store.Query.{Filter, query}
use mcp_k8s.Planner.{Method, Step}
use mcp_k8s.Proto.{
  Timestamps, from_proto_events, from_proto_event-to_proto_event, from_proto_events-to_proto_events,
  time_or_zero-to_timestamp_pb,
}
use mcp_k8s.Messages.{AgentClient, PbContainerStatus, PbObjectSnapshot}
use mcp_k8s.Executor.{ExecutionResult, run_step, run_method, list_request}
use mcp_k8s.Agent.{
  GrpcServer, list_filter, list_events, namespace_filter, match_events, get_events_for_object,
  get_namespace_summary, server_owner_chain, server_snapshot, get_container_logs, get_pod_metrics,
}

-- gRPC between the two: a value that can be encoded arrives as it is sent, an error with the text
-- that `told` makes of it, and a call on a server that panics with the error `lost`. A message whose
-- texts are not all UTF-8 cannot be encoded, and the call fails with the error `refused`; messages
-- are within the size limit. The texts of a model are UTF-8, so this concerns bytes only.
pub record Wire : Type 0 where
  pub told : String → String
  pub lost : String
  pub refused : String
  pub is_utf8 : Bytes → Bool

abbrev pub received {ℓ} : {A : Type ℓ} → Wire → Result A → Result A
received wire (ok a) = ok a
received wire (err why) = err (wire.told why)

abbrev pub answered {ℓ} : {A : Type ℓ} → Wire → Option (Result A) → Result A
answered wire none = err wire.lost
answered wire (some a) = received wire a

-- Whether the termination messages of a snapshot can be encoded.
abbrev pub are_encodable : Wire → List PbContainerStatus → Bool
are_encodable wire [] = true
are_encodable wire (c ∷ statuses) =
    wire.is_utf8 c.last_termination_message && are_encodable wire statuses

abbrev pub is_encodable : Wire → PbObjectSnapshot → Bool
is_encodable wire snap = are_encodable wire snap.container_statuses

-- The reply to `GetObjectSnapshot` on its way.
abbrev pub delivered_snapshot :
    Wire → Result (Option PbObjectSnapshot) → Result (Option PbObjectSnapshot)
delivered_snapshot wire (err why) = err (wire.told why)
delivered_snapshot wire (ok none) = ok none
delivered_snapshot wire (ok (some snap)) =
    if is_encodable wire snap then ok (some snap) else err wire.refused

module _ (T : Timestamps) (wire : Wire) where
  abbrev pub client_of : GrpcServer T → AgentClient T
  client_of s = record {
    list_events = λ req. received wire (list_events T s req);
    get_events_for_object = λ req. received wire (get_events_for_object T s req);
    get_namespace_summary = λ req. received wire (get_namespace_summary T s req);
    resolve_owner_chain = λ req. received wire (server_owner_chain T s req);
    get_object_snapshot = λ req. delivered_snapshot wire (server_snapshot T s req);
    get_container_logs = λ req. received wire (get_container_logs T s req);
    get_pod_metrics = λ req. answered wire (get_pod_metrics T s req);
  }

  -- The filter that a step asks for.
  abbrev pub step_filter : Step → Filter
  step_filter s = record {
    namespace = s.namespace;
    object_uid = "";
    reason = s.reason;
    since = s.since;
    limit = s.limit;
  }

  list_filter-list_request :
      (st : Step) → st.limit < 2 ^ 31 → list_filter T (list_request T st) ≡ step_filter st
  list_filter-list_request st small = λ i. record {
    namespace = st.namespace;
    object_uid = "";
    reason = st.reason;
    since = time_or_zero-to_timestamp_pb T st.since i;
    limit = to_int-to_int32 st.limit small i;
  }

  -- A step that lists events, with a limit that fits int32, adds exactly the answer of the agent's
  -- store to the step's own filter: reason, time bound and limit arrive unchanged, and so do the
  -- events.
  pub run_step-list_events :
      (s : GrpcServer T) (st : Step) (r : ExecutionResult T)
      → st.method ≡ Method.list_events
      → st.limit < 2 ^ 31
      → run_step T (client_of s) st r
        ≡ ok (record r { events = r.events ++ query s.ids s.store (step_filter st) })
  unfolding run_step run_method list_events
  run_step-list_events s st r m small =
      let filtered = ap (query s.ids s.store) (list_filter-list_request st small) in
      let sent =
        from_proto_events-to_proto_events T
          (query s.ids s.store (list_filter T (list_request T st))) in
      subst
        (λ m.
          run_method T (client_of s) m st r
          ≡ ok (record r { events = r.events ++ query s.ids s.store (step_filter st) }))
        (sym m) (ap (λ evs. ok (record r { events = r.events ++ evs })) (sent ∙ filtered))

  abbrev pub is_about : String → String → NormalizedEvent → Bool
  is_about kind name e = e.involved_object_kind == kind && e.involved_object_name == name

  from_proto_events-match_events :
      (kind name : String) (evs : List NormalizedEvent)
      → from_proto_events T (match_events T kind name evs) ≡ keep (is_about kind name) evs
  unfolding from_proto_events match_events
  from_proto_events-match_events kind name [] = refl
  from_proto_events-match_events kind name (e ∷ evs) = elim (Bool-cases (is_about kind name e)) [
    | inl about ↦ rw about (λ i.
        from_proto_event-to_proto_event T e i ∷ from_proto_events-match_events kind name evs i)
    | inr other ↦ rw other (from_proto_events-match_events kind name evs)
  ]

  -- A step that asks for the events of an object adds exactly the events of its namespace in the
  -- agent's store that are about an object of this kind and name, newest first as the store
  -- answers.
  pub run_step-get_events_for_object :
      (s : GrpcServer T) (st : Step) (r : ExecutionResult T)
      → st.method ≡ Method.get_events_for_object
      → run_step T (client_of s) st r
        ≡ ok (record r {
          events =
              r.events
              ++ keep
                  (is_about st.kind st.name)
                  (query s.ids s.store (namespace_filter T st.namespace));
        })
  unfolding run_step run_method get_events_for_object
  run_step-get_events_for_object s st r m =
      subst
        (λ m.
          run_method T (client_of s) m st r
          ≡ ok (record r {
            events =
                r.events
                ++ keep (is_about st.kind st.name)
                    (query s.ids s.store (namespace_filter T st.namespace));
          }))
        (sym m)
        (ap (λ evs. ok (record r { events = r.events ++ evs }))
          (from_proto_events-match_events st.kind st.name
            (query s.ids s.store (namespace_filter T st.namespace))))
