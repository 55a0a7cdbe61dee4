-- ===== src/Process.antt =====
-- cmd/cluster-agent/main.go, cmd/coordinator/main.go and the `select` that `Run` of both processes
-- ends with: how a process runs and what it exits with.
use Prim.Native.Nat.{ℕ}
use Prim.Native.String.{String, ◌++◌ as text_append}
use mathlib.Core.Bool.{Bool, ◌&&◌, ◌||◌}
use mathlib.Core.Option.{Option, none, some}
use mcp_k8s.Base.{arith, ◌==◌, num_keys, ltb, if◌then◌else◌}
use mcp_k8s.Base.Result.{Result, ok, err}
use mathlib.Core.Logic.{◌≢◌}
use mathlib.Core.Path.{◌≡◌}

-- A computation that returns a value, returns an error, or waits for something that never happens.
pub data Course {ℓ} (A : Type ℓ) : Type ℓ where
  goes : A → Course A
  fails : String → Course A
  waits : Course A

-- What an error alone says when there is none: `nil`.
abbrev pub Done : Type 0
Done = Unit

infixl 5 ◌>>=◌
abbrev pub ◌>>=◌ {ℓ κ} : {A : Type ℓ} {B : Type κ} → Course A → (A → Course B) → Course B
goes a >>= f = f a
fails why >>= f = fails why
waits >>= f = waits

-- `fmt.Errorf` with a prefix and the verb `%w`.
abbrev pub wrapped {ℓ} : {A : Type ℓ} → String → Result A → Course A
wrapped prefix (ok a) = goes a
wrapped prefix (err why) = fails (text_append prefix why)

abbrev pub in_context {ℓ} : {A : Type ℓ} → String → Course A → Course A
in_context prefix (goes a) = goes a
in_context prefix (fails why) = fails (text_append prefix why)
in_context prefix waits = waits

-- A context: when it is cancelled, if ever, and what `Err` answers behind a wait that was given up.
pub record Context : Type 0 where
  pub done : Option ℕ
  pub error : Option String

-- `context.Background()`
abbrev pub background : Context
background = record { done = none; error = none }

-- The two cases of the `select`.
pub data Case : Type 0 where
  stopped : Case
  ended : String → Case

-- The `select` of `Run`: `served` is when the server's goroutine sends an error, if ever, and which.
-- When both channels are ready, either may be taken.
unfoldable pub select : Bool → Option ℕ → Option (ℕ × String) → Course Case
select first none none = waits
select first (some t) none = goes stopped
select first none (some (u, why)) = goes (ended why)
select first (some t) (some (u, why)) =
    goes (if ltb t u || (t == u && first) then stopped else ended why)

-- What ends a process before its course does: a panic of some goroutine, or something else that the
-- runtime ends the process for with the code 2; or a signal, for which neither `main` installs a
-- handler.
pub data Strike : Type 0 where
  panicked : Strike
  signalled : ℕ → Strike

-- An exit code, or the signal that a process is ended by.
pub data Ending : Type 0 where
  exited : ℕ → Ending
  killed : ℕ → Ending

-- The end of `main`, or of the process before it: how the process ends, if it does.
unfoldable pub exit_code : Option Strike → Course Done → Option Ending
exit_code (some panicked) course = some (exited 2)
exit_code (some (signalled n)) course = some (killed n)
exit_code none (goes done) = some (exited 0)
exit_code none (fails why) = some (exited 1)
exit_code none waits = none

-- A course that does not end without an error.
abbrev pub IsUnfinished {ℓ} : {A : Type ℓ} → Course A → Type 0
IsUnfinished (goes a) = ⊥
IsUnfinished (fails why) = Unit
IsUnfinished waits = Unit

pub bind-IsUnfinished {ℓ κ} :
    {A : Type ℓ} {B : Type κ} (m : Course A) (f : A → Course B)
    → ((a : A) → IsUnfinished (f a))
    → IsUnfinished (m >>= f)
bind-IsUnfinished (goes a) f rest = rest a
bind-IsUnfinished (fails why) f rest = tt
bind-IsUnfinished waits f rest = tt

-- A context that is never cancelled leaves only the server's error to the `select`.
pub select-IsUnfinished {ℓ} :
    {A : Type ℓ} (first : Bool) (served : Option (ℕ × String)) (f : Case → Course A)
    → ((why : String) → IsUnfinished (f (ended why)))
    → IsUnfinished (select first none served >>= f)
unfolding select
select-IsUnfinished first none f rest = tt
select-IsUnfinished first (some (u, why)) f rest = rest why

exited_code : (m n : ℕ) → some (exited m) ≡ some (exited n) → m ≡ n
exited_code m n same = cc

pub exit_code-IsUnfinished :
    (strike : Option Strike) (m : Course Done)
    → IsUnfinished m
    → exit_code strike m ≢ some (exited 0)
unfolding exit_code
exit_code-IsUnfinished (some panicked) m h = λ same. absurd (ground (arith, exited_code 2 0 same))
exit_code-IsUnfinished (some (signalled n)) m h = λ same. cc
exit_code-IsUnfinished none (goes done) h = absurd h
exit_code-IsUnfinished none (fails why) h = λ same. absurd (ground (arith, exited_code 1 0 same))
exit_code-IsUnfinished none waits h = λ same. cc
