-- ===== src/Threads/Awaitable.antt =====
-- `AwaitableCallback` of common/async_adapter.py, for callbacks that return `None`. Each has a future,
-- whose result the event loop sets some time after the callback was called.
use azure_iot_sdk_python_pre.Prelude.{
  ℕ, zero, suc, ◌+◌, ◌-◌, ◌≤◌, ◌≡◌, refl, Bool, false, ◌||◌, List, [], ◌∷◌, ◌++◌, length, total,
  total-append, Eq, arith, ltb, if◌then◌else◌,
}

-- The calls of `set_result` that `call_soon_threadsafe` scheduled, the next one first; the futures
-- that have their result; and those whose `set_result` raised `InvalidStateError`.
pub record Loop (W : Type 0) : Type 0 where
  pub scheduled : List W
  pub done : List W
  pub errors : List W

abbrev pub new_loop : {W : Type 0} → Loop W
new_loop = record { scheduled = []; done = []; errors = [] }

module _ {W : Type 0} ⦃e : Eq W⦄ where
  abbrev pub count : W → List W → ℕ
  count w ws = total (λ v. if e.beq v w then 1 else 0) ws

  count-le-length : (w : W) (ws : List W) → count w ws ≤ length ws
  count-le-length w [] = omega arith
  count-le-length w (v ∷ vs) = ground (arith, count-le-length w vs)

  -- `future.done()`
  unfoldable pub is_done : W → List W → Bool
  is_done w [] = false
  is_done w (v ∷ vs) = e.beq v w || is_done w vs

  -- `wrapping_callback`, called with the event loop of the constructor
  unfoldable pub wrapping_callback : W → Loop W → Loop W
  wrapping_callback w l = record l { scheduled = l.scheduled ++ w ∷ [] }

  -- `future.set_result`
  unfoldable pub set_result : W → Loop W → Loop W
  unfolding is_done
  set_result w l =
      if is_done w l.done
      then record l { errors = w ∷ l.errors }
      else record l { done = w ∷ l.done }

  unfoldable run_next : List W → Loop W → Loop W
  unfolding set_result
  run_next [] l = l
  run_next (w ∷ ws) l = set_result w (record l { scheduled = ws })

  -- The event loop makes so many of the calls that are scheduled.
  unfoldable pub run_loop : ℕ → Loop W → Loop W
  unfolding run_next
  run_loop zero l = l
  run_loop (suc n) l = run_loop n (run_next l.scheduled l)

  -- Callbacks are called, in this order from the last one, on any thread, while the loop runs.
  pub data History : List W → Loop W → Type 0 where
    starts : History [] new_loop
    calls :
        {ws : List W} {l : Loop W} (w : W) → History ws l → History (w ∷ ws) (wrapping_callback w l)
    runs : {ws : List W} {l : Loop W} (n : ℕ) → History ws l → History ws (run_loop n l)

  -- What has become of the calls of one callback.
  abbrev IsCounted : W → ℕ → Loop W → Type 0
  IsCounted w n l =
      (count w l.scheduled + count w l.errors + (if is_done w l.done then 1 else 0) ≡ n)
      × (is_done w l.done ≡ false → count w l.errors ≡ 0)

  set_result-IsCounted :
      (w v : W) (n : ℕ) (vs : List W) (l : Loop W)
      → IsCounted w n (record l { scheduled = v ∷ vs })
      → IsCounted w n (set_result v (record l { scheduled = vs }))
  unfolding set_result is_done
  set_result-IsCounted w v n vs l (h, k) = ground (arith, h, k, e.beq_iff v w)

  run_next-IsCounted :
      (w : W) (n : ℕ) (vs : List W) (l : Loop W)
      → l.scheduled ≡ vs
      → IsCounted w n l
      → IsCounted w n (run_next vs l) × (length (run_next vs l).scheduled ≡ length vs - 1)
  unfolding run_next set_result
  run_next-IsCounted w n [] l q h = (h, rw q refl)
  run_next-IsCounted w n (v ∷ vs) l q (h, k) =
      (set_result-IsCounted w v n vs l (ground (arith, h, k, q)), ground arith)

  run_loop-IsCounted :
      (w : W) (n m : ℕ) (l : Loop W)
      → IsCounted w n l
      → IsCounted w n (run_loop m l) × (length (run_loop m l).scheduled ≡ length l.scheduled - m)
  unfolding run_loop
  run_loop-IsCounted w n zero l h = (h, omega arith)
  run_loop-IsCounted w n (suc m) l h =
      let (next, shorter) = run_next-IsCounted w n l.scheduled l refl h in
      let (rest, enough) = run_loop-IsCounted w n m (run_next l.scheduled l) next in
      (rest, omega (arith, enough, shorter))

  History-IsCounted : {ws : List W} {l : Loop W} (w : W) → History ws l → IsCounted w (count w ws) l
  unfolding wrapping_callback is_done
  History-IsCounted w starts = (refl, λ h. refl)
  History-IsCounted w (calls {ws} {l} v h) =
      let (counted, unset) = History-IsCounted w h in
      (
        ground
            (arith, counted, total-append (λ u. if e.beq u w then 1 else 0) l.scheduled (v ∷ [])),
        unset,
      )
  History-IsCounted w (runs {ws} {l} n h) =
      (run_loop-IsCounted w (count w ws) n l (History-IsCounted w h)).0

  -- In every history: once the loop has made the calls that are scheduled, a future is done exactly
  -- if its callback was called, and every call after the first has raised `InvalidStateError`.
  pub run_loop-done :
      {ws : List W} {l : Loop W}
      → History ws l
      → (n : ℕ) → length l.scheduled ≤ n
      → (w : W)
      → (is_done w (run_loop n l).done ≡ ltb 0 (count w ws))
        × (count w (run_loop n l).errors ≡ count w ws - 1)
  unfolding is_done
  run_loop-done {ws} {l} h n enough w =
      let (counted, unset) = History-IsCounted w (runs n h) in
      let (_, shorter) = run_loop-IsCounted w (count w ws) n l (History-IsCounted w h) in
      ground (arith, counted, unset, shorter, enough, count-le-length w (run_loop n l).scheduled)
