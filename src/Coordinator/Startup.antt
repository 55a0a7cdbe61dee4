-- ===== src/Coordinator/Startup.antt =====
-- internal/app/coordinator/coordinator.go and cmd/coordinator/main.go: what the coordinator puts
-- together, and how it ends.
use Prim.Native.Nat.{ℕ}
use Prim.Native.String.{String, ◌++◌ as text_append}
use mathlib.Core.Bool.{Bool}
use mathlib.Core.List.{List}
use mathlib.Core.Option.{Option, some}
use mathlib.Core.Logic.{◌≢◌}
use mcp_k8s.Base.Result.{Result}
use mcp_k8s.Proto.{Timestamps}
use mcp_k8s.Registry.{Registry, Codec, Read}
use mcp_k8s.Config.{CoordinatorConfig, coordinator_from_env}
use mcp_k8s.Llm.{Client, Printing, OllamaClient}
use mcp_k8s.Gateway.{IntentPayload}
use mcp_k8s.Coordinator.{started, llm_of, Gateway, Request, serve_all}
use mcp_k8s.Process.{
  Course, Done, fails, ◌>>=◌, wrapped, Context, background, Case, stopped, ended, select, exit_code,
  Strike, exited, select-IsUnfinished, exit_code-IsUnfinished,
}

-- What `Run` is given: the libraries, the file, and how the HTTP server ends. `served` is when
-- `ListenAndServe` returns an error other than `ErrServerClosed`, if ever, and which; `shutdown` is
-- the result of `Shutdown`; `first` settles a `select` with both channels ready; `strike` is
-- what ends the process before `main` does, if anything.
pub record CoordinatorHost (T : Timestamps) : Type 1 where
  pub codec : Codec
  pub file : Option String
  pub read : Read
  pub printing : Printing
  pub unmarshal : String → Result IntentPayload
  pub new_ollama : OllamaClient → Client
  pub collaborators : Gateway T
  pub served : Option (ℕ × String)
  pub shutdown : Result Done
  pub first : Bool
  pub strike : Option Strike

module _ {T : Timestamps} (h : CoordinatorHost T) where
  -- `newGateway`, with the token and the model of the configuration.
  unfoldable pub new_gateway : CoordinatorConfig → Gateway T
  new_gateway cfg = record h.collaborators {
    token = cfg.registry_token;
    llm = llm_of h.printing h.unmarshal h.new_ollama cfg;
  }

  -- The two cases at the end of `Run`.
  abbrev pub coordinator_end : Case → Course Done
  coordinator_end stopped = wrapped "http shutdown: " h.shutdown
  coordinator_end (ended why) = fails (text_append "http serve: " why)

  -- `Run`, with the requests that are served until the end: the registry that they leave, and how
  -- `Run` ends.
  unfoldable pub coordinator_run :
      Context → CoordinatorConfig → List Request → Registry × Course Done
  coordinator_run ctx cfg reqs = (
    serve_all (new_gateway cfg) 0 reqs (started h.codec h.file h.read cfg),
    select h.first ctx.done h.served >>= coordinator_end,
  )

  -- `New` and the rest of `main`.
  unfoldable pub coordinator_main : (String → String) → List Request → Registry × Course Done
  coordinator_main getenv reqs = coordinator_run background (coordinator_from_env getenv) reqs

  -- With the context of `main`, which is never cancelled, the process of the coordinator never ends
  -- with the exit code 0, whether `main` comes to its end or something ends the process first.
  pub exit_code-coordinator_main :
      (getenv : String → String) (reqs : List Request)
      → exit_code h.strike (coordinator_main getenv reqs).1 ≢ some (exited 0)
  unfolding coordinator_main coordinator_run
  exit_code-coordinator_main getenv reqs =
      exit_code-IsUnfinished h.strike (coordinator_main getenv reqs).1
        (select-IsUnfinished h.first h.served coordinator_end λ why. tt)
