-- ===== src/Pipeline/Wiring/Chain.antt =====
-- The chain of stages that `append_stage` extends.
use azure_iot_sdk_python_pre.Prelude.{
  ℕ, zero, suc, ◌+◌, ◌<◌, ◌≡◌, ◌≢◌, ◌∙◌, refl, sym, subst, nat_eq, Option, none, some, List, [],
  ◌∷◌, ◌++◌, length, length-append, arith,
}
use azure_iot_sdk_python_pre.Pipeline.Wiring.{
  Heap, new_stage, old_tail, attach, append_stage, append_stages,
}
use mathlib.Core.List.{append_assoc, append-nil}

abbrev head? : List ℕ → Option ℕ
head? [] = none
head? (a ∷ as') = some a

-- The addresses are stages in this order: each has the next one as `next`, the one before it as
-- `previous`, and the first of all as `pipeline_root`.
abbrev pub IsLinked : Heap → Option ℕ → Option ℕ → ℕ → List ℕ → Type 0
IsLinked h previous root first [] = Unit {0}
IsLinked h previous root first (a ∷ stages) =
    ((h a).next ≡ head? stages)
    × ((h a).previous ≡ previous)
    × ((h a).pipeline_root ≡ root)
    × IsLinked h (some a) (some first) first stages

-- The chain of a pipeline, from its root.
abbrev pub IsPipeline : Heap → ℕ → List ℕ → Type 0
IsPipeline h root stages = IsLinked h none none root (root ∷ stages)

abbrev pub IsFresh : ℕ → List ℕ → Type 0
IsFresh a [] = Unit {0}
IsFresh a (b ∷ bs) = (a ≢ b) × IsFresh a bs

abbrev last : ℕ → List ℕ → ℕ
last a [] = a
last a (b ∷ bs) = last b bs

module _ (h : Heap) (first : ℕ) where
  old_tail-last :
      (fuel : ℕ) (p r : Option ℕ) (a : ℕ) (stages : List ℕ)
      → length stages < fuel
      → IsLinked h p r first (a ∷ stages)
      → old_tail fuel h a ≡ some (last a stages)
  unfolding old_tail
  old_tail-last zero p r a stages enough linked = ground (arith, enough)
  old_tail-last (suc fuel) p r a [] enough linked = ground (arith, linked)
  old_tail-last (suc fuel) p r a (b ∷ stages) enough linked =
      ground
        (arith, linked.0, old_tail-last fuel (some a) (some first) b stages (omega arith) linked.3)

  last-next :
      (p r : Option ℕ) (a : ℕ) (stages : List ℕ)
      → IsLinked h p r first (a ∷ stages)
      → (h (last a stages)).next ≡ none
  last-next p r a [] linked = linked.0
  last-next p r a (b ∷ stages) linked = last-next (some a) (some first) b stages linked.3

  module _ (new tail : ℕ) (fresh : h new ≡ new_stage) (end : (h tail).next ≡ none)
      (other : tail ≢ new) where
    -- The stages at each address afterwards.
    attach-elsewhere : (b : ℕ) → b ≢ new → b ≢ tail → attach first new tail h b ≡ h b
    unfolding attach
    attach-elsewhere b n t = ground (arith, n, t, nat_eq.beq_iff new b, nat_eq.beq_iff tail b)

    attach-tail : attach first new tail h tail ≡ record (h tail) { next = some new }
    unfolding attach
    attach-tail = ground (arith, other, nat_eq.beq_iff new tail, nat_eq.beq_iff tail tail)

    attach-new :
        attach first new tail h new
        ≡ record { next = none; previous = some tail; pipeline_root = some first }
    unfolding attach
    attach-new = ground (
      arith,
      other,
      fresh,
      nat_eq.beq_iff new tail,
      nat_eq.beq_iff tail new,
      nat_eq.beq_iff new new,
    )

    attach-IsLinked :
        (p r : Option ℕ) (a : ℕ) (stages : List ℕ)
        → IsFresh new (a ∷ stages)
        → last a stages ≡ tail
        → IsLinked h p r first (a ∷ stages)
        → IsLinked (attach first new tail h) p r first ((a ∷ stages) ++ (new ∷ []))
    attach-IsLinked p r a [] apart e linked =
        rw (e, attach-tail, attach-new)
          (refl, rw⁻¹ e linked.1, rw⁻¹ e linked.2, (refl, refl, refl, tt))
    attach-IsLinked p r a (b ∷ stages) apart e linked =
        let same =
          attach-elsewhere a (λ o. apart.0 (sym o)) (λ o. ground (arith, o, end, linked.0)) in
        (
          rw same linked.0,
          rw same linked.1,
          rw same linked.2,
          attach-IsLinked (some a) (some first) b stages apart.1 e linked.3,
        )

IsFresh-last : (n a : ℕ) (stages : List ℕ) → IsFresh n (a ∷ stages) → n ≢ last a stages
IsFresh-last n a [] apart = apart.0
IsFresh-last n a (b ∷ stages) apart = IsFresh-last n b stages apart.1

IsFresh-append :
    (n new : ℕ) (stages : List ℕ) → IsFresh n stages → n ≢ new → IsFresh n (stages ++ (new ∷ []))
IsFresh-append n new [] apart e = (e, tt)
IsFresh-append n new (a ∷ stages) apart e = (apart.0, IsFresh-append n new stages apart.1 e)

length-snoc : (stages : List ℕ) (new : ℕ) → length (stages ++ (new ∷ [])) ≡ suc (length stages)
length-snoc stages new = length-append stages (new ∷ []) ∙ omega arith

-- Stages that no chain has yet, no two of them the same object.
abbrev pub AreNew : Heap → List ℕ → List ℕ → Type 0
AreNew h chain [] = Unit {0}
AreNew h chain (n ∷ news) =
    (h n ≡ new_stage) × IsFresh n chain × IsFresh n news × AreNew h chain news

AreNew-attach :
    (h : Heap) (root new : ℕ) (stages news : List ℕ)
    → h new ≡ new_stage
    → (h (last root stages)).next ≡ none
    → last root stages ≢ new
    → IsFresh new news
    → AreNew h (root ∷ stages) news
    → AreNew (attach root new (last root stages) h) ((root ∷ stages) ++ (new ∷ [])) news
AreNew-attach h root new stages [] fresh end other apart all = tt
AreNew-attach h root new stages (n ∷ news) fresh end other apart all =
    let differs = λ (e : n ≡ new). apart.0 (sym e) in
    (
      attach-elsewhere h root new (last root stages) fresh end other n differs
            (IsFresh-last n root stages all.1)
          ∙ all.0,
      IsFresh-append n new (root ∷ stages) all.1 differs,
      all.2,
      AreNew-attach h root new stages news fresh end other apart.1 all.3,
    )

append_stages-append :
    (fuel root n tail : ℕ) (news : List ℕ) (h : Heap)
    → old_tail fuel h root ≡ some tail
    → append_stages fuel root (n ∷ news) h ≡ append_stages fuel root news (attach root n tail h)
unfolding append_stages append_stage
append_stages-append fuel root n tail news h e = ground (arith, e)

-- Stages that are new are appended to the chain in their order, where the chain is not longer than
-- the rounds: for each stage of it `next` is the one after it, `previous` the one before it, and
-- `pipeline_root` the root.
pub append_stages-IsPipeline :
    (fuel root : ℕ) (stages news : List ℕ) (h : Heap)
    → length stages + length news < suc fuel
    → IsPipeline h root stages
    → AreNew h (root ∷ stages) news
    → (after : Heap) × (append_stages fuel root news h ≡ some after)
      × IsPipeline after root (stages ++ news)
unfolding append_stages
append_stages-IsPipeline fuel root stages [] h enough linked all =
    (h, refl, rw (append-nil stages) linked)
append_stages-IsPipeline fuel root stages (n ∷ news) h enough linked all =
    let tail = last root stages in
    let end = last-next h root none none root stages linked in
    let other = λ (e : tail ≡ n). IsFresh-last n root stages all.1 (sym e) in
    let found = old_tail-last h root fuel none none root stages (omega (arith, enough)) linked in
    let (after, done, longer) =
      append_stages-IsPipeline fuel root (stages ++ (n ∷ [])) news (attach root n tail h)
        (omega (arith, enough, length-snoc stages n))
        (attach-IsLinked h root n tail all.0 end other none none root stages all.1 refl linked)
        (AreNew-attach h root n stages news all.0 end other all.2 all.3) in
    (
      after,
      append_stages-append fuel root n tail news h found ∙ done,
      subst (λ (l : List ℕ). IsPipeline after root l) (append_assoc stages (n ∷ []) news) longer,
    )
