-- ===== src/Config.antt =====
-- internal/app/clusteragent/config.go and internal/app/coordinator/config.go: what the two
-- processes read from the environment. `os.Getenv` is a function that answers an unset variable
-- with the empty text.
pub mod Usable
use Prim.Native.Char.{Char, code}
use Prim.Native.Nat.{ℕ, ◌+◌, ◌-◌, ◌*◌, ◌^◌}
use Prim.Native.String.{String}
use mathlib.Core.Bool.{Bool, ◌&&◌}
use mathlib.Core.Option.{Option, none, some}
use mcp_k8s.Base.{◌==◌, text_keys, num_keys, leb, ltb, if◌then◌else◌, is_pos}
use mcp_k8s.Base.Result.{Result, ok, err}
use mcp_k8s.Store.{default_max_size}

abbrev pub is_digit : Char → Bool
is_digit c = leb 48 (code c) && leb (code c) 57

-- The number that decimal digits write behind those that were read, `none` for any other character.
unfoldable pub digits_from : ℕ → String → Option ℕ
digits_from n String.[] = some n
digits_from n (String.◌∷◌ c s) =
    let rest = digits_from (10 * n + (code c - 48)) s in if is_digit c then rest else none

abbrev pub digits : String → Option ℕ
digits String.[] = none
digits (String.◌∷◌ c s) = digits_from 0 (String.◌∷◌ c s)

-- A magnitude as an `int`, if it is in range.
abbrev pub as_positive : Option ℕ → Option ℕ
as_positive none = none
as_positive (some n) = if ltb n (2 ^ 63) then some n else none

abbrev pub as_negative : Option ℕ → Option ℕ
as_negative none = none
as_negative (some n) = if n == 0 then some 0 else if leb n (2 ^ 63) then some (2 ^ 64 - n) else none

-- `strconv.Atoi`: an optional sign and decimal digits, in range of an `int`; the result is in two's
-- complement.
unfoldable pub atoi : String → Option ℕ
atoi String.[] = none
atoi (String.◌∷◌ c s) =
    if code c == 43
    then as_positive (digits s)
    else if code c == 45
    then as_negative (digits s)
    else as_positive (digits (String.◌∷◌ c s))

-- `envOrDefault`
unfoldable pub env_or_default : (String → String) → String → String → String
env_or_default getenv key def = if getenv key == "" then def else getenv key

abbrev pub positive_or : Option ℕ → ℕ → ℕ
positive_or none def = def
positive_or (some n) def = if is_pos n then n else def

-- `envIntOrDefault`
unfoldable pub env_int_or_default : (String → String) → String → ℕ → ℕ
env_int_or_default getenv key def =
    if getenv key == "" then def else positive_or (atoi (getenv key)) def

-- `Config` of the cluster agent.
pub record AgentConfig : Type 0 where
  pub cluster_name : String
  pub grpc_addr : String
  pub watch_namespace : String
  pub store_max_size : ℕ
  pub kubeconfig_path : String

-- The record that `FromEnv` fills before its check.
abbrev pub read_agent : (String → String) → AgentConfig
read_agent getenv = record {
  cluster_name = getenv "MCP_CLUSTER_NAME";
  grpc_addr = env_or_default getenv "MCP_GRPC_ADDR" ":50051";
  watch_namespace = getenv "MCP_WATCH_NAMESPACE";
  store_max_size = env_int_or_default getenv "MCP_STORE_MAX_SIZE" default_max_size;
  kubeconfig_path = getenv "KUBECONFIG";
}

-- `FromEnv`
unfoldable pub from_env : (String → String) → Result AgentConfig
from_env getenv =
    if (read_agent getenv).cluster_name == ""
    then err "MCP_CLUSTER_NAME is required"
    else ok (read_agent getenv)

-- `Config` of the coordinator.
pub record CoordinatorConfig : Type 0 where
  pub http_addr : String
  pub registry_token : String
  pub registry_file : String
  pub ollama_base_url : String
  pub ollama_model : String

-- `fromEnv`
unfoldable pub coordinator_from_env : (String → String) → CoordinatorConfig
coordinator_from_env getenv = record {
  http_addr = env_or_default getenv "MCP_HTTP_ADDR" ":8080";
  registry_token = getenv "MCP_REGISTRY_TOKEN";
  registry_file = getenv "MCP_REGISTRY_FILE";
  ollama_base_url = getenv "OLLAMA_BASE_URL";
  ollama_model = env_or_default getenv "OLLAMA_MODEL" "llama3";
}
