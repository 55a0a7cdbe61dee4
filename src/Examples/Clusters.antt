-- ===== src/Examples/Clusters.antt =====
-- Examples of the registry, the token, and the status of an answer.
use mcp_k8s.Gateway.{to_query, handle_query}
use mcp_k8s.Gateway.Auth.{require_token, strip, trim_prefix, require_token_lem}
use Prim.Native.String.{◌++◌ as text_append}
use mcp_k8s.Gateway.Status.{outcome_of, expected, outcome-handle_query}
use mcp_k8s.Base.{◌⊎◌, String, ◌≡◌, refl, true, num_keys, text_keys}
use mcp_k8s.Base.Result.{ok}
use mcp_k8s.Event.{dedup_keys}
use mcp_k8s.Examples.{nanoseconds, clients, timeline_of, build_with, pod_request}

outcome-handle_query_example :
    outcome_of
      (handle_query nanoseconds (λ s. s) clients timeline_of build_with 0 (ok pod_request)).status
    ≡ expected nanoseconds (λ s. s) clients timeline_of build_with (to_query 0 pod_request)
outcome-handle_query_example =
    outcome-handle_query nanoseconds (λ s. s) clients timeline_of build_with 0 (ok pod_request)

bare_accepted : require_token "s3cret" "s3cret" ≡ true
unfolding require_token trim_prefix strip
bare_accepted = refl

abbrev secret : String
secret = "s3cret"

require_token_lem_example : (secret ≡ text_append "Bearer " secret) ⊎ (secret ≡ secret)
require_token_lem_example = require_token_lem secret secret refl bare_accepted
