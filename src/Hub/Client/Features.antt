-- ===== src/Hub/Client/Features.antt =====
-- The features that the calls of a client enable: not again once they are enabled.
use azure_iot_sdk_python_pre.Prelude.{
  ℕ, ◌≡◌, ◌≢◌, sym, subst, String, true, false, some, arith, eq_iff, string_eq, nat_eq,
}
use azure_iot_sdk_python_pre.Prelude.Dict.{lookup}
use azure_iot_sdk_python_pre.Pipeline.Ops.{enable_feature}
use azure_iot_sdk_python_pre.Pipeline.Convert.{Env}
use azure_iot_sdk_python_pre.Hub.Client.{Client, Goal, Phase, entering, begin, resume, time_out}
use azure_iot_sdk_python_pre.Hub.Client.System.{
  System, at, moved, entered, Step, runs, begins, enters, resumes, times_out, hears, History, now,
  and_then,
}
use azure_iot_sdk_python_pre.Hub.Client.Asking.{
  asks, asks_kind, begin-Keeps, resume-Keeps, time_out-asks, deliver-features,
}

-- A feature that is enabled in the table, and that no thread asks for, stays so.
record IsSettled (f : String) (s : System) : Type 0 where
  enabled : lookup f s.client.feature_enabled ≡ some true
  quiet : (i : ℕ) → asks f (s.threads i) ≡ false

moved-IsSettled :
    (f : String) (s : System) (i : ℕ) (r : Client × Phase)
    → asks f r.1 ≡ false
    → lookup f r.0.feature_enabled ≡ some true
    → IsSettled f s
    → IsSettled f (moved i r s)
unfolding moved at
moved-IsSettled f s i r a b w = record { enabled = b; quiet = λ j. ground (arith, a, w.quiet j) }

step-IsSettled :
    (env : Env) (f : String) {s t : System} → Step env s t → IsSettled f s → IsSettled f t
unfolding entered at asks
step-IsSettled env f (runs p none_submitted e) w =
    subst (IsSettled f) (sym e) (record { enabled = w.enabled; quiet = w.quiet })
step-IsSettled env f {s} (begins i c free e) w =
    let (quiet, on) = begin-Keeps f c s.client w.enabled in
    subst (IsSettled f) (sym e) (moved-IsSettled f s i (begin c s.client) quiet on w)
step-IsSettled env f {s} (enters i k g here ended e) w =
    subst (IsSettled f) (sym e)
      (record { enabled = w.enabled; quiet = λ j. ground (arith, here, w.quiet i, w.quiet j) })
step-IsSettled env f {s} (resumes i e) w =
    let (quiet, on) = resume-Keeps f (s.threads i) s.client (w.quiet i) w.enabled in
    subst (IsSettled f) (sym e) (moved-IsSettled f s i (resume (s.threads i) s.client) quiet on w)
step-IsSettled env f {s} (times_out i e) w = subst (IsSettled f) (sym e) (
    moved-IsSettled f s i (s.client, time_out (s.threads i))
      (ground (arith, time_out-asks f (s.threads i), w.quiet i)) w.enabled w)
step-IsSettled env f {s} (hears later o from e) w =
    subst (IsSettled f) (sym e)
      (record { enabled = ground (arith, deliver-features o s.client, w.enabled); quiet = w.quiet })

History-IsSettled :
    (env : Env) (f : String) {s t : System} → History env s t → IsSettled f s → IsSettled f t
History-IsSettled env f now w = w
History-IsSettled env f (and_then h step) w =
    step-IsSettled env f step (History-IsSettled env f h w)

-- Once a feature is enabled in the table and no thread is on its way to enable it, nor will be after
-- its wait, then in every later state the table has it as enabled and no thread is about to submit
-- the operation that enables it, whatever the network and the threads do and whether or not the
-- operation that enabled it failed.
pub enabled-stays :
    (env : Env) (f : String) {s t : System}
    → lookup f s.client.feature_enabled ≡ some true
    → ((i : ℕ) → asks f (s.threads i) ≡ false)
    → History env s t
    → (lookup f t.client.feature_enabled ≡ some true)
      × ((j : ℕ) (g : Goal) → t.threads j ≢ entering (enable_feature f) g)
unfolding asks asks_kind
enabled-stays env f on quiet later =
    let w = History-IsSettled env f later (record { enabled = on; quiet = quiet }) in
    (w.enabled, λ j k e. ground (arith, w.quiet j, e, eq_iff f f))
