-- ===== src/Watcher/Startup.antt =====
-- The bound of the channel of internal/app/clusteragent/watcher.go, and what it keeps of the events
-- that come in before the goroutine is launched.
use mcp_k8s.Base.{
  ℕ, zero, suc, ◌≤◌, String, ◌≡◌, refl, sym, ap, subst, ◌∙◌, inl, inr, Option, none, some, List, [],
  ◌∷◌, ◌++◌, arith, ltb, ltb→lt, not-ltb→le, Bool-cases, num_keys, text_keys, length, take,
  length-append, take_of_length-le,
}
use mathlib.Core.List.{append_assoc, append-nil}
use mcp_k8s.Event.{NormalizedEvent}
use mcp_k8s.Event.Normalize.{RawEvent, normalize}
use mcp_k8s.Store.{Store}
use mcp_k8s.Enrichment.{Client}
use mcp_k8s.Watcher.{
  Watcher, Action, delivered, launched, received, finished, left, pipeline_buffer, offer, handle,
  receive, finish, launch, leave, step, run, new_watcher,
}

offer-length :
    (e : NormalizedEvent) (p : List NormalizedEvent)
    → length p ≤ pipeline_buffer
    → length (offer e p) ≤ pipeline_buffer
unfolding offer
offer-length e p h = elim (Bool-cases (ltb (length p) pipeline_buffer)) [
  | inl room ↦ rw room (omega (arith, length-append p (e ∷ []), ltb→lt _ _ room))
  | inr full ↦ rw full h
]

abbrev pub IsBounded : Watcher → Type 0
IsBounded w = length w.pipeline ≤ pipeline_buffer

step-IsBounded :
    (c : Client) (a : Action) (w v : Watcher) → step c a w ≡ some v → IsBounded w → IsBounded v
unfolding step receive launch leave finish handle
step-IsBounded c (delivered none) w v h b = let same : w ≡ v = cc in subst IsBounded same b
step-IsBounded c (delivered (some raw)) w v h b =
    let e = normalize w.cluster_name raw in
    let same : record w { pipeline = offer e w.pipeline } ≡ v = cc in
    subst IsBounded same (offer-length e w.pipeline b)
step-IsBounded c launched w v h b = ground arith
step-IsBounded c received w v h b = ground arith
step-IsBounded c finished w v h b = ground arith
step-IsBounded c left w v h b = ground arith

-- However a run goes, the channel never holds more than 512 events if it did not at the start.
pub run-IsBounded :
    (c : Client) (actions : List Action) (w v : Watcher)
    → IsBounded w
    → run c actions w ≡ some v
    → IsBounded v
unfolding run
run-IsBounded c [] w v b h = let same : w ≡ v = cc in subst IsBounded same b
run-IsBounded c (a ∷ actions) w v b h =
    go (λ u g k. run-IsBounded c actions u v g k) (step c a w) refl
  where
    go :
        ((u : Watcher) → IsBounded u → run c actions u ≡ some v → IsBounded v)
        → (o : Option Watcher) → step c a w ≡ o
        → IsBounded v
    go rest none stuck = let no : none ≡ some v = rw (stuck, run) at h in absurd cc
    go rest (some u) moved = rest u (step-IsBounded c a w u moved b) (rw (moved, run) at h)

-- Events that are delivered one after the other.
abbrev pub deliveries : List RawEvent → List Action
deliveries [] = []
deliveries (raw ∷ raws) = delivered (some raw) ∷ deliveries raws

abbrev pub normalize_all : String → List RawEvent → List NormalizedEvent
normalize_all cluster_name [] = []
normalize_all cluster_name (raw ∷ raws) =
    normalize cluster_name raw ∷ normalize_all cluster_name raws

take-take-append {ℓ} :
    {A : Type ℓ} (n : ℕ) (xs ys : List A) → take n (take n xs ++ ys) ≡ take n (xs ++ ys)
take-take-append zero xs ys = refl
take-take-append (suc n) [] ys = refl
take-take-append (suc n) (x ∷ xs) ys = ap (◌∷◌ x) (take-take-append n xs ys)

take_of_append {ℓ} : {A : Type ℓ} (xs ys : List A) → take (length xs) (xs ++ ys) ≡ xs
take_of_append [] ys = refl
take_of_append (x ∷ xs) ys = ap (◌∷◌ x) (take_of_append xs ys)

offer-take :
    (e : NormalizedEvent) (p : List NormalizedEvent)
    → length p ≤ pipeline_buffer
    → offer e p ≡ take pipeline_buffer (p ++ e ∷ [])
unfolding offer
offer-take e p b = elim (Bool-cases (ltb (length p) pipeline_buffer)) [
  | inl room ↦ rw room (
      sym (
        take_of_length-le pipeline_buffer (p ++ e ∷ [])
          (omega (arith, length-append p (e ∷ []), ltb→lt _ _ room))))
  | inr full ↦
      let size : length p ≡ pipeline_buffer = omega (arith, not-ltb→le _ _ full) in
      rw full (sym (ap (λ n. take n (p ++ e ∷ [])) (sym size) ∙ take_of_append p (e ∷ [])))
]

run-deliveries :
    (c : Client) (raws : List RawEvent) (w : Watcher)
    → IsBounded w
    → run c (deliveries raws) w
      ≡ some (record w {
        pipeline = take pipeline_buffer (w.pipeline ++ normalize_all w.cluster_name raws);
      })
unfolding run step handle
run-deliveries c [] w b =
    ap (λ p. some (record w { pipeline = p }))
      (sym (
        ap (take pipeline_buffer) (append-nil w.pipeline)
        ∙ take_of_length-le pipeline_buffer w.pipeline b))
run-deliveries c (raw ∷ raws) w b =
    let e = normalize w.cluster_name raw in
    let evs = normalize_all w.cluster_name raws in
    let p = w.pipeline in
    run-deliveries c raws (record w { pipeline = offer e p }) (offer-length e p b)
    ∙ ap (λ q. some (record w { pipeline = q }))
        (ap (λ q. take pipeline_buffer (q ++ evs)) (offer-take e p b)
          ∙ take-take-append pipeline_buffer (p ++ e ∷ []) evs
          ∙ ap (take pipeline_buffer) (append_assoc p (e ∷ []) evs))

-- The events that arrive before the goroutine is launched go into the channel, and only the first
-- 512 of them are kept.
pub run-new_watcher :
    (c : Client) (cluster_name : String) (s : Store) (raws : List RawEvent)
    → run c (deliveries raws) (new_watcher cluster_name s)
      ≡ some (record (new_watcher cluster_name s) {
        pipeline = take pipeline_buffer (normalize_all cluster_name raws);
      })
unfolding new_watcher
run-new_watcher c cluster_name s raws =
    run-deliveries c raws (new_watcher cluster_name s) (omega arith)
