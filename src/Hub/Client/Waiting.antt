-- ===== src/Hub/Client/Waiting.antt =====
-- Calls of a client that wait for their operation: when they go on, and when they never do.
use azure_iot_sdk_python_pre.Prelude.{
  ℕ, ◌<◌, ◌≤◌, ◌≡◌, ◌≢◌, ◌↔◌, refl, sym, subst, ap, Bool, true, false, Option, ◌==◌, arith, nat_eq,
}
use azure_iot_sdk_python_pre.Hub.Message.{Json}
use azure_iot_sdk_python_pre.Pipeline.Ops.{Kind}
use azure_iot_sdk_python_pre.Pipeline.Convert.{Env}
use azure_iot_sdk_python_pre.Hub.Client.{
  Client, Goal, Phase, waiting, resume, time_out, go_on, return_none, return_twin, then_run,
  then_receive,
}
use azure_iot_sdk_python_pre.Hub.Client.System.{
  System, constructed, entered, at, moved, Step, runs, begins, enters, resumes, times_out, hears,
  History, now, and_then,
}
use azure_iot_sdk_python_pre.Hub.Client.Events.{
  is_set, successes, failures, IsSound, History-IsSound, constructed-IsSound,
}

is_waiting : ℕ → Phase → Bool
is_waiting id (waiting j g) = j == id
is_waiting id _ = false

go_on-moves :
    (id : ℕ) (t : Option Json) (g : Goal) (c : Client) → is_waiting id (go_on t g c).1 ≡ false
unfolding go_on is_waiting
go_on-moves id t return_none c = refl
go_on-moves id t return_twin c = refl
go_on-moves id t (then_run k g) c = refl
go_on-moves id t (then_receive s w) c = refl

resume-waits :
    (id : ℕ) (g : Goal) (c : Client)
    → is_set id c ≡ false
    → resume (waiting id g) c ≡ (c, waiting id g)
unfolding resume is_set
resume-waits id g c h = ground arith

resume-moves :
    (id : ℕ) (g : Goal) (c : Client)
    → is_set id c ≡ true
    → is_waiting id (resume (waiting id g) c).1 ≡ false
unfolding resume is_set go_on is_waiting
resume-moves id return_none c h = ground arith
resume-moves id return_twin c h = ground arith
resume-moves id (then_run k g) c h = ground arith
resume-moves id (then_receive s w) c h = ground arith

moves-away :
    (id : ℕ) (g : Goal) (c : Client)
    → is_set id c ≡ true
    → (resume (waiting id g) c).1 ≢ waiting id g
unfolding is_waiting
moves-away id g c h e = ground (arith, resume-moves id g c h, ap (is_waiting id) e)

-- In every history of a client from its construction, whatever the network and the threads do, a
-- call that waits for an operation of its own goes on exactly if `on_complete` of the operation was
-- called, once, and without an error.
pub resume-success :
    (env : Env) (is_module : Bool) (auth : Kind) {s : System}
    → History env (constructed is_module auth) s
    → (i id : ℕ) (g : Goal) → s.threads i ≡ waiting id g
    → 0 < id
    → ((resume (s.threads i) s.client).1 ≢ waiting id g)
      ↔ ((successes id s.heard ≡ 1) × (failures id s.heard ≡ 0))
resume-success env is_module auth {s} h i id g here positive =
    let sound = History-IsSound env h (constructed-IsSound env is_module auth) in
    rw here (
      ground (
        arith,
        resume-waits id g s.client,
        moves-away id g s.client,
        sound.set id,
        sound.heard_once id,
      ))

-- A thread waits for an operation that failed.
unfoldable pub WaitsInVain : ℕ → ℕ → Goal → System → Type 0
WaitsInVain i id g s = (s.threads i ≡ waiting id g) × (1 ≤ failures id s.heard)

step-WaitsInVain :
    (env : Env) {s t : System} (i id : ℕ) (g : Goal)
    → Step env s t
    → IsSound env s
    → WaitsInVain i id g s
    → WaitsInVain i id g t
unfolding moved entered at WaitsInVain time_out
step-WaitsInVain env i id g (runs p none_submitted e) r w = subst (WaitsInVain i id g) (sym e) w
step-WaitsInVain env {s} i id g (begins j a free e) r w =
    subst (WaitsInVain i id g) (sym e) (ground (arith, w, free))
step-WaitsInVain env {s} i id g (enters j k f there ended e) r w =
    subst (WaitsInVain i id g) (sym e) (ground (arith, w, there))
step-WaitsInVain env {s} i id g (resumes j e) r w =
    subst (WaitsInVain i id g) (sym e)
      (ground (arith, w, resume-waits id g s.client, r.set id, r.heard_once id))
step-WaitsInVain env {s} i id g (times_out j e) r w =
    subst (WaitsInVain i id g) (sym e) (ground (arith, w))
step-WaitsInVain env i id g (hears later o from e) r w =
    subst (WaitsInVain i id g) (sym e) (w.0, omega (arith, w.1))

History-WaitsInVain :
    (env : Env) {s t : System} (i id : ℕ) (g : Goal)
    → History env s t
    → IsSound env s
    → WaitsInVain i id g s
    → WaitsInVain i id g t
History-WaitsInVain env i id g now r w = w
History-WaitsInVain env i id g (and_then h step) r w =
    step-WaitsInVain env i id g step (History-IsSound env h r)
      (History-WaitsInVain env i id g h r w)

-- In every history of a client from its construction: once `on_complete` of the operation that a
-- call waits for was called with an error, the call waits in every later state.
pub failed-waits :
    (env : Env) (is_module : Bool) (auth : Kind) {s t : System}
    → History env (constructed is_module auth) s
    → (i id : ℕ) (g : Goal) → s.threads i ≡ waiting id g
    → failures id s.heard ≡ 1
    → History env s t
    → t.threads i ≡ waiting id g
unfolding WaitsInVain
failed-waits env is_module auth h i id g here failed later =
    (History-WaitsInVain env i id g later
      (History-IsSound env h (constructed-IsSound env is_module auth))
      (here, omega (arith, failed))).0
