-- ===== src/Threads/Executors.antt =====
-- `_get_named_executor` of common/pipeline/pipeline_thread.py, as threads run it: nothing locks the
-- table, so a thread may be interrupted between any two of its steps. An executor is the number of
-- its object.
use azure_iot_sdk_python_pre.Prelude.{
  ℕ, suc, ◌≡◌, ◌≢◌, ◌⊎◌, inl, inr, refl, ◌==◌, nat_eq, String, Option, none, some, List, [], ◌∷◌,
  string_eq, arith, if◌then◌else◌, str_eq, eq_iff, true, false, Bool-cases, subst,
}
use azure_iot_sdk_python_pre.Prelude.Dict.{Dict, lookup, insert, lookup-insert}

-- Where a thread is in a call with a name: before the test, with no entry found, with a new executor,
-- before the read of the table, and with what it returns, `none` for a `KeyError`.
pub data Phase : Type 0 where
  testing creating reading : String → Phase
  storing : String → ℕ → Phase
  got : String → Option ℕ → Phase

pub record Table : Type 0 where
  pub executors : Dict String ℕ
  pub created : ℕ

-- The next step of a thread.
unfoldable pub step : Table → Phase → Table × Phase
step t (testing name) = elim (lookup name t.executors) [
  | none ↦ (t, creating name)
  | some _ ↦ (t, reading name)
]
step t (creating name) = (record t { created = suc t.created }, storing name t.created)
step t (storing name e) = (record t { executors = insert name e t.executors }, reading name)
step t (reading name) = (t, got name (lookup name t.executors))
step t (got name e) = (t, got name e)

-- The table and the phases of the threads after a schedule, which names the thread of each step.
unfoldable pub run : List ℕ → Table → (ℕ → Phase) → Table × (ℕ → Phase)
unfolding step
run [] t phases = (t, phases)
run (i ∷ schedule) t phases =
    let (next, phase) = step t (phases i) in
    run schedule next (λ (j : ℕ). if i == j then phase else phases j)

module _ (name : String) (e : ℕ) where
  -- A phase that does not put another executor under the name, and has got this one.
  abbrev Agrees : Phase → Type 0
  Agrees (testing n) = Unit {0}
  Agrees (creating n) = n ≢ name
  Agrees (storing n x) = n ≢ name
  Agrees (reading n) = Unit {0}
  Agrees (got n x) = n ≢ name ⊎ (x ≡ some e)

  record IsShared (t : Table) (phases : ℕ → Phase) : Type 0 where
    stored : lookup name t.executors ≡ some e
    agree : (j : ℕ) → Agrees (phases j)

  test-Agrees :
      (t : Table) (n : String)
      → lookup name t.executors ≡ some e
      → (o : Option ℕ) → lookup n t.executors ≡ o
      → (lookup name (step t (testing n)).0.executors ≡ some e) × Agrees (step t (testing n)).1
  unfolding step
  test-Agrees t n s none f = rw (f, step) (s, λ same. absurd (ground (arith, s, f, same)))
  test-Agrees t n s (some x) f = rw (f, step) (s, tt)

  step-Agrees :
      (t : Table) (p : Phase)
      → lookup name t.executors ≡ some e
      → Agrees p
      → (lookup name (step t p).0.executors ≡ some e) × Agrees (step t p).1
  unfolding step
  step-Agrees t (testing n) s a = test-Agrees t n s (lookup n t.executors) refl
  step-Agrees t (creating n) s a = (s, a)
  step-Agrees t (storing n x) s a =
      (ground (arith, s, a, lookup-insert n name x t.executors, eq_iff n name), tt)
  step-Agrees t (reading n) s a = (
    s,
    elim (Bool-cases (str_eq n name)) [
      | inl same ↦ inr (ground (arith, same, s, eq_iff n name))
      | inr other ↦ inl (λ same. ground (arith, other, same, eq_iff n name))
    ],
  )
  step-Agrees t (got n x) s a = (s, a)

  moved-Agrees :
      (i : ℕ) (p : Phase) (phases : ℕ → Phase)
      → Agrees p
      → ((j : ℕ) → Agrees (phases j))
      → (j : ℕ) → Agrees (if i == j then p else phases j)
  moved-Agrees i p phases a all j = elim (i == j) as (λ b. Agrees (if b then p else phases j)) [
    | true ↦ a
    | false ↦ all j
  ]

  run-IsShared :
      (schedule : List ℕ) (t : Table) (phases : ℕ → Phase)
      → IsShared t phases
      → IsShared (run schedule t phases).0 (run schedule t phases).1
  unfolding run
  run-IsShared [] t phases inv = inv
  run-IsShared (i ∷ schedule) t phases inv =
      let (stored, agrees) = step-Agrees t (phases i) inv.stored (inv.agree i) in
      run-IsShared schedule (step t (phases i)).0
        (λ j. if i == j then (step t (phases i)).1 else phases j)
        (record {
          stored = stored;
          agree = moved-Agrees i (step t (phases i)).1 phases agrees inv.agree;
        })

  -- Threads begin to ask for executors, of whatever names, when the table has one for this name. In
  -- every interleaving of their steps each of those that have got an executor of this name has got
  -- that one, and the table still has it.
  pub run-shares :
      (schedule : List ℕ) (names : ℕ → String) (t : Table) (thread : ℕ) (result : Option ℕ)
      → lookup name t.executors ≡ some e
      → (run schedule t (λ j. testing (names j))).1 thread ≡ got name result
      → (result ≡ some e)
        × (lookup name (run schedule t (λ j. testing (names j))).0.executors ≡ some e)
  run-shares schedule names t thread result s ends =
      let inv =
        run-IsShared schedule t (λ j. testing (names j)) (record { stored = s; agree = λ j. tt }) in
      (
        elim (subst Agrees ends (inv.agree thread)) [
          | inl other ↦ absurd (other refl)
          | inr same ↦ same
        ],
        inv.stored,
      )
