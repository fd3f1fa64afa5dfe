-- ===== src/Hub/Client/Events.antt =====
-- The events that the calls of a client wait for, and the operations that set them.
use azure_iot_sdk_python_pre.Prelude.{
  ℕ, suc, ◌+◌, ◌<◌, String, ◌≤◌, ◌≡◌, ◌↔◌, ◌⊎◌, refl, sym, subst, ap, Bool, true, false, Option,
  none, some, List, [], ◌∷◌, ◌++◌, ◌==◌, arith, total, total-append, nat_eq, if◌then◌else◌,
}
use azure_iot_sdk_python_pre.Prelude.Dict.{lookup, lookup-insert}
use azure_iot_sdk_python_pre.Hub.Message.{Json}
use azure_iot_sdk_python_pre.Pipeline.Ops.{Kind, get_twin, patch_twin}
use azure_iot_sdk_python_pre.Pipeline.Convert.{Env}
use azure_iot_sdk_python_pre.Pipeline.World.{
  Event, Output, completed, is_connected, is_disconnected, event, c2d_message as c2d_event,
  input_message as input_event, method_request as method_event, twin_patch as patch_event,
  iot_response, incoming_message,
}
use azure_iot_sdk_python_pre.Pipeline.Run.{
  Reach, here, then_step, take, submit, submitted_by, Config,
}
use azure_iot_sdk_python_pre.Pipeline.Run
use azure_iot_sdk_python_pre.Pipeline.Once.{
  start, occurrences, is_completion, completions-le-submitted,
}
use azure_iot_sdk_python_pre.Hub.Client.{
  Client, Call, Goal, Phase, idle, enabling, entering, waiting, getting, returned, begin, resume,
  new_client, connects, disconnects, sends_d2c_message, sends_method_response, gets_twin,
  patches_twin, sends_to_output, receives, with_feature, go_on, enable, return_none, return_twin,
  then_run, then_receive, twin, methods, twin_patches, c2d_msg, input_msg, method_requests,
  desired_patches, c2d_messages, input_messages, pipeline_enable_feature,
}
use azure_iot_sdk_python_pre.Hub.Client.Callbacks.{
  deliver, on_complete, on_pipeline_event, twin_of, on_disconnected,
}
use azure_iot_sdk_python_pre.Hub.Client.System.{
  System, submitted, constructed, entered, moved, Step, runs, begins, enters, resumes, times_out,
  hears, History, now, and_then,
}

-- `is_set` of the event of a callback
unfoldable pub is_set : ℕ → Client → Bool
is_set id c = elim (lookup id c.events) [ none ↦ false | some t ↦ true ]

-- How often the callback thread has called `on_complete` of an operation, without and with an error.
abbrev pub success : ℕ → Output → ℕ
success id (completed j k none) = if j == id then 1 else 0
success id _ = 0

abbrev pub failure : ℕ → Output → ℕ
failure id (completed j k (some e)) = if j == id then 1 else 0
failure id _ = 0

abbrev pub successes : ℕ → List Output → ℕ
successes id outputs = total (success id) outputs

abbrev pub failures : ℕ → List Output → ℕ
failures id outputs = total (failure id) outputs

both : (id : ℕ) (os : List Output) → successes id os + failures id os ≡ total (is_completion id) os
both id [] = omega arith
both id (completed j k none ∷ os) = omega (arith, both id os)
both id (completed j k (some e) ∷ os) = omega (arith, both id os)
both id (is_connected ∷ os) = omega (arith, both id os)
both id (is_disconnected ∷ os) = omega (arith, both id os)
both id (event e ∷ os) = omega (arith, both id os)

go_on-events : (t : Option Json) (g : Goal) (c : Client) → (go_on t g c).0.events ≡ c.events
unfolding go_on
go_on-events t return_none c = refl
go_on-events t return_twin c = refl
go_on-events t (then_run k g) c = refl
go_on-events t (then_receive s w) c = refl

with_feature-events :
    (name : String) (g : Goal) (c : Client) → (with_feature name g c).0.events ≡ c.events
unfolding with_feature
with_feature-events name g c = ground (arith, go_on-events none g c)

begin-events : (a : Call) (c : Client) → (begin a c).0.events ≡ c.events
unfolding begin
begin-events connects c = refl
begin-events disconnects c = refl
begin-events (sends_d2c_message m) c = refl
begin-events (sends_method_response r) c = refl
begin-events gets_twin c = with_feature-events twin (then_run (get_twin none) return_twin) c
begin-events (patches_twin p) c = with_feature-events twin (then_run (patch_twin p) return_none) c
begin-events (sends_to_output m o) c = refl
begin-events (receives (method_requests n) w) c =
    with_feature-events methods (then_receive (method_requests n) w) c
begin-events (receives desired_patches w) c =
    with_feature-events twin_patches (then_receive desired_patches w) c
begin-events (receives c2d_messages w) c =
    with_feature-events c2d_msg (then_receive c2d_messages w) c
begin-events (receives (input_messages n) w) c =
    with_feature-events input_msg (then_receive (input_messages n) w) c

resume-events : (p : Phase) (c : Client) → (resume p c).0.events ≡ c.events
unfolding resume enable pipeline_enable_feature
resume-events idle c = refl
resume-events (enabling name g) c = ground arith
resume-events (entering k g) c = refl
resume-events (waiting id g) c = ground (arith, λ (t : Option Json). go_on-events t g c)
resume-events (getting h w) c = ground arith
resume-events (returned r) c = refl

on_pipeline_event-events : (e : Event) (c : Client) → (on_pipeline_event e c).events ≡ c.events
unfolding on_pipeline_event
on_pipeline_event-events (iot_response id r) c = refl
on_pipeline_event-events (incoming_message topic payload) c = refl
on_pipeline_event-events (c2d_event m) c = ground arith
on_pipeline_event-events (input_event name m) c = ground arith
on_pipeline_event-events (method_event r) c = refl
on_pipeline_event-events (patch_event p) c = refl

is_set_cong : (id : ℕ) (c d : Client) → c.events ≡ d.events → is_set id c ≡ is_set id d
unfolding is_set
is_set_cong id c d e = ap (λ events. elim (lookup id events) [ none ↦ false | some t ↦ true ]) e

-- The event of a callback is set by its success, except the constructor's.
deliver-is_set :
    (id : ℕ) (o : Output) (c : Client)
    → is_set id (deliver o c) ≡ true ↔ (is_set id c ≡ true) ⊎ ((0 < id) × (success id o ≡ 1))
unfolding is_set deliver on_complete on_disconnected
deliver-is_set id (completed j k none) c = ground (arith, lookup-insert j id (twin_of k) c.events)
deliver-is_set id (completed j k (some e)) c = ground arith
deliver-is_set id is_connected c = ground arith
deliver-is_set id is_disconnected c = ground arith
deliver-is_set id (event e) c =
    ground (arith, is_set_cong id (on_pipeline_event e c) c (on_pipeline_event-events e c))

module _ (env : Env) where
  -- What every history keeps: an operation is submitted at most once, so its `on_complete` is called
  -- at most once; and the events that are set are those of the operations that succeeded.
  pub record IsSound (s : System) : Type 0 where
    ids : List ℕ
    reach : Reach env start ids s.config
    unused : (j : ℕ) → s.next_callback ≤ j → occurrences j ids ≡ 0
    once : (j : ℕ) → occurrences j ids ≤ 1
    pub heard_once : (j : ℕ) → successes j s.heard + failures j s.heard ≤ 1
    pub set : (j : ℕ) → (is_set j s.client ≡ true) ↔ ((0 < j) × (successes j s.heard ≡ 1))

  pub constructed-IsSound : (is_module : Bool) (auth : Kind) → IsSound (constructed is_module auth)
  unfolding constructed submitted is_set new_client lookup
  constructed-IsSound is_module auth = record {
    ids = 0 ∷ [];
    reach = then_step here (take (submit 0 auth) refl refl);
    unused = λ j h. ground arith;
    once = λ j. ground arith;
    heard_once = λ j. omega arith;
    set = λ j. ground arith;
  }

  -- A step in which the client's events and what was heard stay.
  quiet-IsSound :
      (s : System) (c : Client) (threads : ℕ → Phase)
      → c.events ≡ s.client.events
      → IsSound s
      → IsSound (record s { client = c; threads = threads })
  quiet-IsSound s c threads e r = record {
    ids = r.ids;
    reach = r.reach;
    unused = r.unused;
    once = r.once;
    heard_once = r.heard_once;
    set = λ j. ground (arith, is_set_cong j c s.client e, r.set j);
  }

  runs-IsSound :
      {d : Config} (s : System) (p : Run.Step env s.config d)
      → submitted_by p ≡ []
      → IsSound s
      → IsSound (record s { config = d })
  runs-IsSound {d} s p e r = record {
    ids = r.ids;
    reach = subst (λ new. Reach env start (new ++ r.ids) d) e (then_step r.reach p);
    unused = r.unused;
    once = r.once;
    heard_once = r.heard_once;
    set = r.set;
  }

  enters-IsSound :
      (s : System) (k : Kind) (threads : ℕ → Phase)
      → s.config.agenda ≡ []
      → IsSound s
      → IsSound (record s {
        config = submitted s.next_callback k s.config;
        threads = threads;
        next_callback = suc s.next_callback;
      })
  unfolding submitted
  enters-IsSound s k threads e r = record {
    ids = s.next_callback ∷ r.ids;
    reach = then_step r.reach (take (submit s.next_callback k) e refl);
    unused = λ j h. ground (arith, h, r.unused j);
    once = λ j. ground (arith, r.once j, r.unused j);
    heard_once = r.heard_once;
    set = r.set;
  }

  hears-IsSound :
      (s : System) (later : List Output) (o : Output)
      → s.config.world.outputs ≡ later ++ (o ∷ s.heard)
      → IsSound s
      → IsSound (record s { client = deliver o s.client; heard = o ∷ s.heard })
  hears-IsSound s later o e r =
      let heard_once : (j : ℕ) → successes j (o ∷ s.heard) + failures j (o ∷ s.heard) ≤ 1 = λ j.
        omega (
          arith,
          both j (o ∷ s.heard),
          total-append (is_completion j) later (o ∷ s.heard),
          ap (total (is_completion j)) e,
          completions-le-submitted env r.reach j,
          r.once j,
        ) in
      record {
        ids = r.ids;
        reach = r.reach;
        unused = r.unused;
        once = r.once;
        heard_once = heard_once;
        set = λ j. ground (arith, deliver-is_set j o s.client, r.set j, heard_once j);
      }

  pub step-IsSound : {s t : System} → Step env s t → IsSound s → IsSound t
  unfolding moved entered
  step-IsSound {s} (runs {d = d} p none_submitted e) r =
      subst IsSound (sym e) (runs-IsSound s p none_submitted r)
  step-IsSound {s} (begins i a free e) r =
      subst IsSound (sym e) (quiet-IsSound s (begin a s.client).0 _ (begin-events a s.client) r)
  step-IsSound {s} (enters i k g here_now ended e) r =
      subst IsSound (sym e) (enters-IsSound s k _ ended r)
  step-IsSound {s} (resumes i e) r =
      subst IsSound (sym e) (
        quiet-IsSound s (resume (s.threads i) s.client).0 _ (resume-events (s.threads i) s.client)
          r)
  step-IsSound {s} (times_out i e) r = subst IsSound (sym e) (quiet-IsSound s s.client _ refl r)
  step-IsSound {s} (hears later o from e) r = subst IsSound (sym e) (hears-IsSound s later o from r)

  pub History-IsSound : {s t : System} → History env s t → IsSound s → IsSound t
  History-IsSound now r = r
  History-IsSound (and_then h step) r = step-IsSound step (History-IsSound h r)
