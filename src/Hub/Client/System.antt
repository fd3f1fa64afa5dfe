-- ===== src/Hub/Client/System.antt =====
-- A synchronous client with its pipeline: the threads of the application, the pipeline's thread and
-- the callback thread, in any order.
use azure_iot_sdk_python_pre.Prelude.{
  ℕ, suc, ◌≡◌, Bool, true, false, List, [], ◌∷◌, ◌++◌, ◌==◌, if◌then◌else◌,
}
use azure_iot_sdk_python_pre.Pipeline.Ops.{Kind}
use azure_iot_sdk_python_pre.Pipeline.Convert.{Env}
use azure_iot_sdk_python_pre.Pipeline.World.{Output}
use azure_iot_sdk_python_pre.Pipeline.Run.{Config, Input, submit, input, submitted_by}
use azure_iot_sdk_python_pre.Pipeline.Run
use azure_iot_sdk_python_pre.Pipeline.Once.{initial}
use azure_iot_sdk_python_pre.Hub.Client.{
  Client, Call, Goal, Phase, idle, entering, waiting, returned, begin, resume, time_out, new_client,
}
use azure_iot_sdk_python_pre.Hub.Client.Callbacks.{deliver}

pub record System : Type 0 where
  pub config : Config
  pub client : Client
  -- the application's threads, by a number for each
  pub threads : ℕ → Phase
  -- the number of the next callback
  pub next_callback : ℕ
  -- what the callback thread has dealt with, latest first
  pub heard : List Output

-- The pipeline's thread has taken up an operation.
unfoldable pub submitted : ℕ → Kind → Config → Config
unfolding input
submitted id k c = record {
  world = (input (submit id k) c.world).0;
  agenda = (input (submit id k) c.world).1;
}

-- The constructors of `IoTHubPipeline`, with its authentication operation, and of the client.
unfoldable pub constructed : Bool → Kind → System
unfolding submitted new_client
constructed is_module auth = record {
  config = submitted 0 auth (record { world = initial; agenda = [] });
  client = new_client is_module;
  threads = λ i. idle;
  next_callback = 1;
  heard = [];
}

-- A thread in another phase.
unfoldable pub at : ℕ → Phase → (ℕ → Phase) → (ℕ → Phase)
at i p threads = λ j. if j == i then p else threads j

unfoldable pub moved : ℕ → Client × Phase → System → System
unfolding at
moved i (c, p) s = record s { client = c; threads = at i p s.threads }

-- A thread at `run_op` got the pipeline's thread, and waits for the event of its callback.
unfoldable pub entered : ℕ → Kind → Goal → System → System
unfolding submitted at
entered i k g s = record s {
  config = submitted s.next_callback k s.config;
  threads = at i (waiting s.next_callback g) s.threads;
  next_callback = suc s.next_callback;
}

abbrev pub is_free : Phase → Bool
is_free idle = true
is_free (returned r) = true
is_free _ = false

pub data Step (env : Env) (s : System) (t : System) : Type 0 where
  -- a step of the pipeline of its own: a call on its thread, or what the network does
  runs :
      {d : Config} (p : Run.Step env s.config d)
      → submitted_by p ≡ []
      → t ≡ record s { config = d }
      → Step env s t
  begins :
      (i : ℕ) (c : Call)
      → is_free (s.threads i) ≡ true
      → t ≡ moved i (begin c s.client) s
      → Step env s t
  enters :
      (i : ℕ) (k : Kind) (g : Goal)
      → s.threads i ≡ entering k g
      → s.config.agenda ≡ []
      → t ≡ entered i k g s
      → Step env s t
  resumes : (i : ℕ) → t ≡ moved i (resume (s.threads i) s.client) s → Step env s t
  times_out : (i : ℕ) → t ≡ moved i (s.client, time_out (s.threads i)) s → Step env s t
  -- the callback thread deals with the next call for it
  hears :
      (later : List Output) (o : Output)
      → s.config.world.outputs ≡ later ++ (o ∷ s.heard)
      → t ≡ record s { client = deliver o s.client; heard = o ∷ s.heard }
      → Step env s t

pub data History (env : Env) (s : System) : System → Type 0 where
  now : History env s s
  and_then : {t u : System} → History env s t → Step env t u → History env s u
