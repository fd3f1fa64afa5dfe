-- ===== src/Pipeline/Delivery/Connecting.antt =====
-- A request of a client that is not connected: the connection is made first.
use azure_iot_sdk_python_pre.Prelude.{ℕ, suc, ◌≡◌, refl, true, false, none, some, [], ◌∷◌, arith}
use azure_iot_sdk_python_pre.Errors.{success, accepted, rc_error, conack_error}
use azure_iot_sdk_python_pre.Mqtt.Manager
use azure_iot_sdk_python_pre.Pipeline.Ops.{
  next, root, ensure, serialize, mqtt, Op, op, user, connected, unblocking, Kind, connect,
  needs_connection,
}
use azure_iot_sdk_python_pre.Pipeline.Convert.{Env, convert, delegate, returned}
use azure_iot_sdk_python_pre.Pipeline.World.{World, run, start, complete, establish, is_connected}
use azure_iot_sdk_python_pre.Pipeline.Exec.{exec, call_error, passage, task, cancel, release}
use azure_iot_sdk_python_pre.Pipeline.Run.{
  input, submit, on_connect, on_mqtt_connected, is_connect, pending_if, run_all,
}
use azure_iot_sdk_python_pre.Pipeline.Failures.{Ends, Ends-step}
use azure_iot_sdk_python_pre.Pipeline.Delivery.{
  is_plain, early_outputs, request-established, converted-IsRequest, request_op, upper_stages,
}

-- Not connected, with nothing on its way.
abbrev pub offline : World → World
offline w = record w {
  connected = false;
  blocked = false;
  queue = [];
  transport = true;
  pending_connection = none;
}

-- The connect operation that the stage makes for a request.
abbrev pub connect_op : Op → Op
connect_op o = op connect none (unblocking (connected o))

-- The client library was told to connect.
abbrev pub connecting : Op → World → World
connecting o w = record (offline w) {
  blocked = true;
  pending_connection = some (connect_op o);
  calls = suc w.calls;
}

-- The connection is there, and the request was handed over.
abbrev pub connected_posted : ℕ → ℕ → Kind → Kind → World → World
connected_posted id mid k r w =
    let (m, triggered) = Manager.establish_operation mid (some (request_op id k r)) w.manager in
    record (offline w) {
      connected = true;
      manager = m;
      calls = suc (suc w.calls);
      outputs = early_outputs id mid k (record w { outputs = is_connected ∷ w.outputs });
    }

module _ (env : Env) (id mid first : ℕ) (k r : Kind) (w : World) (plain : is_plain k ≡ true)
    (e : (convert env w.converter k).1 ≡ delegate r)
    (connects : env.paho w.calls ≡ returned success first)
    (posts : env.paho (suc w.calls) ≡ returned success mid) where
  connecting_lem :
      Ends env (offline w) (run root (op k none (user id)) ∷ []) (connecting (request_op id k r) w)
  unfolding exec passage task needs_connection next call_error rc_error cancel run_all
  connecting_lem =
      let (same, is_request) = converted-IsRequest env w.converter k r plain e in
      let o = request_op id k r in
      let v = offline w in
      let blocked = record v { blocked = true } in
      let asked = op connect none (connected o) in
      let end = connecting o w in
      upper_stages env id k v plain (run ensure o ∷ []) end (ground (arith, same, e)) (
        Ends-step env v (run ensure o) v (run serialize asked ∷ []) [] end
          (ground (arith, is_request.0))
          (Ends-step env v (run serialize asked) blocked (run mqtt (connect_op o) ∷ []) [] end refl
            (Ends-step env blocked (run mqtt (connect_op o)) blocked (start (connect_op o) ∷ []) []
              end refl
              (Ends-step env blocked (start (connect_op o)) end [] [] end (ground (arith, connects))
                (0, refl)))))

  connected_lem :
      Ends env
        (input (on_connect accepted) (connecting (request_op id k r) w)).0
        (input (on_connect accepted) (connecting (request_op id k r) w)).1
        (connected_posted id mid k r w)
  unfolding input conack_error on_mqtt_connected pending_if is_connect exec passage task
      needs_connection next call_error rc_error run_all release
  connected_lem =
      let (same, (asks, tasked, passed)) = converted-IsRequest env w.converter k r plain e in
      let o = request_op id k r in
      let end = connected_posted id mid k r w in
      let up = record (connecting o w) {
        connected = true;
        outputs = is_connected ∷ w.outputs;
        pending_connection = none;
      } in
      let v = record up { blocked = false } in
      let told = record v { calls = suc (suc w.calls) } in
      Ends-step env up (complete (connect_op o)) v (complete (op connect none (connected o)) ∷ [])
        [] end refl
        (Ends-step env v (complete (op connect none (connected o))) v (run serialize o ∷ []) [] end
          refl
          (Ends-step env v (run serialize o) v (run mqtt o ∷ []) [] end (ground (arith, passed)) (
            Ends-step env v (run mqtt o) told (establish mid o ∷ []) [] end
              (ground (arith, tasked, posts)) (request-established env id mid k r told))))

-- A client that is not connected, with no operation on its way, submits a message, a method's response
-- or a change of a feature for which the converter has a topic. The run ends when the client library
-- has been told to connect; and when the connection is accepted, the client is told, and the run
-- ends with the request handed over to the library and nothing blocked any more: its acknowledgement
-- is awaited under the message id, or if it came before, the client's callback was called in that run.
pub submitted-connects :
    (env : Env) (id mid first : ℕ) (k r : Kind) (w : World)
    → is_plain k ≡ true
    → (convert env w.converter k).1 ≡ delegate r
    → env.paho w.calls ≡ returned success first
    → env.paho (suc w.calls) ≡ returned success mid
    → let o = request_op id k r in
      Ends env
        (input (submit id k) (offline w)).0
        (input (submit id k) (offline w)).1
        (connecting o w)
      × Ends env
          (input (on_connect accepted) (connecting o w)).0
          (input (on_connect accepted) (connecting o w)).1
          (connected_posted id mid k r w)
unfolding input
submitted-connects env id mid first k r w plain e connects posts = (
  connecting_lem env id mid first k r w plain e connects posts,
  connected_lem env id mid first k r w plain e connects posts,
)
