-- ===== src/Watcher/Draining.antt =====
-- The goroutine of internal/app/clusteragent/watcher.go works off the channel.
use mcp_k8s.Base.{
  ℕ, zero, suc, ◌+◌, ◌^◌, ◌<◌, ◌≡◌, refl, ap, ◌∙◌, true, Option, none, some, List, [], ◌∷◌, arith,
  num_keys, text_keys, length,
}
use mcp_k8s.Event.{NormalizedEvent}
use mcp_k8s.Store.{Store, add}
use mcp_k8s.Store.Invariant.{IsValid}
use mcp_k8s.Store.Adds.{add-IsValid}
use mcp_k8s.Enrichment.{Client}
use mcp_k8s.Watcher.{Watcher, Action, received, finished, enrich, receive, finish, step, run}

-- One round of the loop for each event.
abbrev pub rounds : ℕ → List Action
rounds zero = []
rounds (suc n) = received ∷ finished ∷ rounds n

abbrev Drains : Client → ℕ → Watcher → Type 0
Drains c n w =
    (v : Watcher) × (run c (rounds n) w ≡ some v)
    × (v.pipeline ≡ [])
    × (v.in_flight ≡ none)
    × IsValid v.store

receive_one :
    (w : Watcher) (e : NormalizedEvent) (rest : List NormalizedEvent)
    → w.running ≡ true
    → w.in_flight ≡ none
    → w.pipeline ≡ e ∷ rest
    → receive w ≡ some (record w { pipeline = rest; in_flight = some e })
unfolding receive
receive_one w e rest going idle front = ground arith

finish_one :
    (c : Client) (w : Watcher) (e : NormalizedEvent) (t : Store)
    → w.in_flight ≡ some e
    → add w.store (enrich c e) ≡ some t
    → finish c w ≡ some (record w { store = t; in_flight = none })
unfolding finish
finish_one c w e t busy added = ground arith

one_round :
    (c : Client) (w : Watcher) (e : NormalizedEvent) (rest : List NormalizedEvent) (t : Store)
    (n : ℕ)
    → w.running ≡ true
    → w.in_flight ≡ none
    → w.pipeline ≡ e ∷ rest
    → add w.store (enrich c e) ≡ some t
    → run c (rounds (suc n)) w
      ≡ run c (rounds n) (record w { store = t; pipeline = rest; in_flight = none })
unfolding run step
one_round c w e rest t n going idle front added =
    let u = record w { pipeline = rest; in_flight = some e } in
    let next = λ (actions : List Action) (o : Option Watcher). elim o as (λ _. Option Watcher) [
      | none ↦ none
      | some v ↦ run c actions v
    ] in
    ap (next (finished ∷ rounds n)) (receive_one w e rest going idle front)
    ∙ ap (next (rounds n)) (finish_one c u e t refl added)

drain_from :
    (c : Client) (n : ℕ) (p : List NormalizedEvent) (w : Watcher)
    → w.pipeline ≡ p
    → length p ≡ n
    → w.running ≡ true
    → w.in_flight ≡ none
    → IsValid w.store
    → w.store.next_id + n < 2 ^ 64
    → Drains c n w
unfolding run
drain_from c zero [] w front size going idle valid bound = (w, refl, front, idle, valid)
drain_from c zero (e ∷ rest) w front size going idle valid bound = absurd (omega arith)
drain_from c (suc n) [] w front size going idle valid bound = absurd (omega arith)
drain_from c (suc n) (e ∷ rest) w front size going idle valid bound =
    let (t, added, valid', next) = add-IsValid w.store (enrich c e) valid (omega arith) in
    let u = record w { store = t; pipeline = rest; in_flight = none } in
    let (v, later, empty, done, valid_v) =
      drain_from c n rest u refl (omega arith) going refl valid' (omega arith) in
    (v, one_round c w e rest t n going idle front added ∙ later, empty, done, valid_v)

-- From a state in which the goroutine runs and is between two events, and the store is valid with
-- ids left for what is in the channel, as many rounds of the loop as there are events in the channel
-- can be made one after the other; after them the channel is empty and the store is valid.
pub run-rounds :
    (c : Client) (w : Watcher)
    → w.running ≡ true
    → w.in_flight ≡ none
    → IsValid w.store
    → w.store.next_id + length w.pipeline < 2 ^ 64
    → (v : Watcher) × (run c (rounds (length w.pipeline)) w ≡ some v)
      × (v.pipeline ≡ [])
      × (v.in_flight ≡ none)
      × IsValid v.store
run-rounds c w going idle valid bound =
    drain_from c (length w.pipeline) w.pipeline w refl refl going idle valid bound
