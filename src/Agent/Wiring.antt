-- ===== src/Agent/Wiring.antt =====
-- internal/app/clusteragent/clusteragent.go: the metrics client that `Run` hands to the server, and
-- what `GetPodMetrics` does with it.
use mcp_k8s.Base.{◌≡◌, refl, Bool, true, false, Option, none, some, num_keys, text_keys}
use mcp_k8s.Base.Result.{Result, ok, err, is_ok}
use mcp_k8s.Proto.{Timestamps}
use mcp_k8s.Messages.{PodMetricsRequest}
use mcp_k8s.Agent.{Metrics, MetricsInterface, holds, GrpcServer, get_pod_metrics}

-- `metricsClient` of `Run`, a pointer to a clientset that is set to nil when `NewForConfig` fails.
-- Passed on as an interface value it always has the type of the clientset, so it is never the nil
-- interface.
unfoldable pub metrics_interface : Result Metrics → MetricsInterface
metrics_interface (ok client) = holds (some client)
metrics_interface (err why) = holds none

abbrev pub answers {ℓ} : {A : Type ℓ} → Option A → Bool
answers none = false
answers (some a) = true

-- With the client that `Run` hands over, `GetPodMetrics` answers if `NewForConfig` gave a clientset,
-- and panics on every request if it failed.
pub get_pod_metrics-metrics_interface :
    (T : Timestamps) (s : GrpcServer T) (made : Result Metrics) (req : PodMetricsRequest)
    → answers (get_pod_metrics T (record s { metrics = metrics_interface made }) req) ≡ is_ok made
unfolding get_pod_metrics metrics_interface
get_pod_metrics-metrics_interface T s (ok client) req = refl
get_pod_metrics-metrics_interface T s (err why) req = refl
