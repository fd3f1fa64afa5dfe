-- ===== src/Threads/Pools/Sound.antt =====
-- That only jobs of the pipeline's executor are waited for, in every history.
use azure_iot_sdk_python_pre.Prelude.{
  ℕ, zero, suc, ◌≡◌, refl, true, some, List, [], ◌∷◌, arith, Option-cases, inl, inr, map, subst,
}
use azure_iot_sdk_python_pre.Threads.Pools.{
  other, Program, Phase, going, Shared, advance, pool_of, work, System, start, Mover, worker_of,
  thread, move_thread, move, run,
}
use azure_iot_sdk_python_pre.Threads.Pools.Progress.{advance-worker}
use azure_iot_sdk_python_pre.Threads.Pools.Waits.{
  is_sound, all_sound, is_free, is_sound_worker, is_sound-Keeps, all_sound-Keeps, advance-Keeps,
  advance-is_sound,
}
use azure_iot_sdk_python_pre.Threads.Pools.Goes.{
  IsSoundShared, Goes, is_sound_worker-Keeps, work-Goes,
}

abbrev pub IsSound : System → Type 0
IsSound s = IsSoundShared s.shared × (all_sound s.shared s.threads ≡ true)

advance-Goes :
    (p q : Phase) (sh after : Shared)
    → IsSoundShared sh
    → advance other p sh ≡ some (q, after)
    → Goes sh after
advance-Goes p q sh after (free, sound) a =
    let keeps = advance-Keeps other p q sh after a in
    (
      keeps,
      (
        ground (arith, free, advance-worker other p q sh after a),
        is_sound_worker-Keeps sh after after.callback_pool.worker keeps
            (ground (arith, sound, advance-worker other p q sh after a)),
      ),
    )

move_thread-Goes :
    (i : ℕ) (ps qs : List Phase) (sh after : Shared)
    → IsSoundShared sh
    → all_sound sh ps ≡ true
    → move_thread i ps sh ≡ some (qs, after)
    → Goes sh after × (all_sound after qs ≡ true)
unfolding move_thread all_sound
move_thread-Goes i [] qs sh after s all h = absurd (ground (arith, h))
move_thread-Goes zero (p ∷ ps) qs sh after s all h = elim (Option-cases (advance other p sh)) [
  | inl stuck ↦ absurd (ground (arith, h, stuck))
  | inr ((q, between), a) ↦
      let goes = advance-Goes p q sh between s a in
      let same : between ≡ after = ground (arith, h, a) in
      (
        subst (λ x. Goes sh x) same goes,
        ground (
          arith,
          h,
          a,
          all,
          same,
          advance-is_sound other p q sh between a,
          all_sound-Keeps sh between ps goes.0,
        ),
      )
]
move_thread-Goes (suc i) (p ∷ ps) qs sh after s all h = elim (Option-cases (move_thread i ps sh)) [
  | inl stuck ↦ absurd (ground (arith, h, stuck))
  | inr ((rs, between), a) ↦
      let (goes, rest) = move_thread-Goes i ps rs sh between s (ground (arith, all)) a in
      let same : between ≡ after = ground (arith, h, a) in
      (
        subst (λ x. Goes sh x) same goes,
        ground (arith, h, a, all, same, rest, is_sound-Keeps sh between p goes.0),
      )
]

pub move-IsSound : (m : Mover) (s t : System) → move m s ≡ some t → IsSound s → IsSound t
unfolding move
move-IsSound (worker_of name) s t h (shared, all) =
    elim (Option-cases (work name (pool_of name s.shared).worker s.shared)) [
      | inl stuck ↦ absurd (ground (arith, h, stuck))
      | inr (sh, a) ↦
          let (keeps, sound) = work-Goes name _ s.shared sh shared refl a in
          let moved : record s { shared = sh } ≡ t = ground (arith, h, a) in
          subst IsSound moved (sound, all_sound-Keeps s.shared sh s.threads keeps all)
    ]
move-IsSound (thread i) s t h (shared, all) =
    elim (Option-cases (move_thread i s.threads s.shared)) [
      | inl stuck ↦ absurd (ground (arith, h, stuck))
      | inr ((ps, sh), a) ↦
          let ((keeps, sound), rest) = move_thread-Goes i s.threads ps s.shared sh shared all a in
          let moved : record s { shared = sh; threads = ps } ≡ t = ground (arith, h, a) in
          subst IsSound moved ((sound.0, sound.1), rest)
    ]

pub run-IsSound : (schedule : List Mover) (s : System) → IsSound s → IsSound (run schedule s)
unfolding run
run-IsSound [] s h = h
run-IsSound (m ∷ ms) s h = elim (Option-cases (move m s)) [
  | inl stuck ↦ rw (stuck, run) (run-IsSound ms s h)
  | inr (t, made) ↦ rw (made, run) (run-IsSound ms t (move-IsSound m s t made h))
]

going-all_sound : (sh : Shared) (programs : List Program) → all_sound sh (map going programs) ≡ true
unfolding all_sound is_sound
going-all_sound sh [] = refl
going-all_sound sh (p ∷ ps) = ground (arith, going-all_sound sh ps)

pub start-IsSound : (programs : List Program) → IsSound (start programs)
unfolding is_free is_sound_worker
start-IsSound programs = ((refl, refl), going-all_sound (start programs).shared programs)
