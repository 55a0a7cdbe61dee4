-- ===== src/Config/Usable.antt =====
-- The configuration of a cluster agent that `FromEnv` accepts.
use Prim.Native.Nat.{ℕ, ◌^◌, ◌<◌}
use Prim.Native.String.{String}
use mathlib.Core.Bool.{false}
use mathlib.Core.Path.{◌≡◌, refl, subst}
use mathlib.Core.Logic.{inl, inr}
use mathlib.Core.Option.{Option, none, some}
use mcp_k8s.Base.{◌==◌, text_keys, arith, Bool-cases}
use mcp_k8s.Base.Result.{ok, err}
use mcp_k8s.Config.{
  env_or_default, positive_or, env_int_or_default, AgentConfig, read_agent, from_env, atoi,
}
use mcp_k8s.Store.{default_max_size, new}

positive_or-pos : (o : Option ℕ) (def : ℕ) → 0 < def → 0 < positive_or o def
positive_or-pos none def h = h
positive_or-pos (some n) def h = ground arith

positive_or-lt : (o : Option ℕ) (def : ℕ) → def < 2 ^ 63 → positive_or o def < 2 ^ 63
positive_or-lt none def h = h
positive_or-lt (some n) def h = ground arith

env_int_or_default_bounds :
    (getenv : String → String) (key : String) (def : ℕ)
    → 0 < def
    → def < 2 ^ 63
    → (0 < env_int_or_default getenv key def) × (env_int_or_default getenv key def < 2 ^ 63)
unfolding env_int_or_default
env_int_or_default_bounds getenv key def pos lt = elim (Bool-cases (getenv key == "")) [
  | inl unset ↦ rw unset (pos, lt)
  | inr present ↦
      rw present
        (positive_or-pos (atoi (getenv key)) def pos, positive_or-lt (atoi (getenv key)) def lt)
]

env_or_default_set :
    (getenv : String → String) (key def : String)
    → (def == "") ≡ false
    → (env_or_default getenv key def == "") ≡ false
unfolding env_or_default
env_or_default_set getenv key def given = elim (Bool-cases (getenv key == "")) [
  | inl unset ↦ rw unset given
  | inr present ↦ rw present present
]

-- A configuration that the agent can run on: it has a name and an address, and a store of the size
-- that it asks for, which is a positive `int`.
abbrev pub IsUsable : AgentConfig → Type 0
IsUsable cfg =
    ((cfg.cluster_name == "") ≡ false)
    × ((cfg.grpc_addr == "") ≡ false)
    × (0 < cfg.store_max_size)
    × (cfg.store_max_size < 2 ^ 63)
    × ((new cfg.store_max_size).max_size ≡ cfg.store_max_size)

read_agent-IsUsable :
    (getenv : String → String)
    → (getenv "MCP_CLUSTER_NAME" == "") ≡ false
    → IsUsable (read_agent getenv)
unfolding new
read_agent-IsUsable getenv named =
    let (pos, lt) =
      env_int_or_default_bounds getenv "MCP_STORE_MAX_SIZE" default_max_size (omega arith)
        (omega arith) in
    (named, env_or_default_set getenv "MCP_GRPC_ADDR" ":50051" refl, pos, lt, ground arith)

-- Whatever the environment holds, a configuration that `FromEnv` returns has a cluster name, a
-- listening address, and a store size that is a positive `int`, also when the variable holds no
-- number, a negative one or one out of range; the store that the agent makes has that capacity.
pub from_env-IsUsable :
    (getenv : String → String) (cfg : AgentConfig) → from_env getenv ≡ ok cfg → IsUsable cfg
unfolding from_env
from_env-IsUsable getenv cfg made = elim (Bool-cases (getenv "MCP_CLUSTER_NAME" == "")) [
  | inl missing ↦
      let no : err "MCP_CLUSTER_NAME is required" ≡ ok cfg = rw missing at made in absurd cc
  | inr named ↦
      let same : ok (read_agent getenv) ≡ ok cfg = rw named at made in
      let read : read_agent getenv ≡ cfg = cc in
      subst IsUsable read (read_agent-IsUsable getenv named)
]
