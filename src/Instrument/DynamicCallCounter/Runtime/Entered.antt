-- ===== src/Instrument/DynamicCallCounter/Runtime/Entered.antt =====
-- Entering functions that lib/DynamicCallCounter.cpp has instrumented, and the values with which
-- their counters start.
use llvm_study.Base.{
  ℕ, ◌+◌, ◌≡◌, refl, ap, ◌∙◌, Bool, true, List, [], ◌∷◌, if◌then◌else◌, All, arith, Bool-cases, inl,
  inr,
}
use mathlib.Core.Bool.{false≢true}
use llvm_study.Containers.{modify, has}
use llvm_study.Containers.Laws.{find-modify}
use llvm_study.Counters.Tally.{u32, occurrences}
use llvm_study.Instrument.{Text, text_eq, Op, Function, Global, number, text, uninitialised}
use package.llvm_study.Instrument.DynamicCallCounter.{
  Names, counter_name, create_global_counter, Step1, instrument,
}
use package.llvm_study.Instrument.DynamicCallCounter.Runtime.{
  Running, steps, body_of, enter_all, initial, defined_names,
}
use package.llvm_study.Instrument.DynamicCallCounter.Runtime.Counts.{steps-entered, text_beq-append}
use package.llvm_study.Instrument.DynamicCallCounter.Runtime.Bodies.{Counting}

module _ (c : Names) where
  steps-Counting :
      (name k : Text) (ops : List Op) (s : Running) (j : ℕ)
      → Counting c name ops
      → s.counters (counter_name c k) ≡ u32 j
      → (steps ops s).counters (counter_name c k) ≡ u32 (j + (if text_eq.beq name k then 1 else 0))
  steps-Counting name k ops s j h start =
      let f = h.source in
      ap (λ o. (steps o s).counters (counter_name c k)) h.body
      ∙ (steps-entered c f s k h.plain).1
      ∙ ground (arith, start, h.named, text_eq.beq_iff k f.name, text_eq.beq_iff name k)

  pub enter_all-lines :
      (gs : List Function) (trace : List Text) (s : Running)
      → All (λ n. Counting c n (body_of n gs)) trace
      → (enter_all gs trace s).lines ≡ s.lines
  enter_all-lines gs [] s h = refl
  enter_all-lines gs (name ∷ trace) s h =
      enter_all-lines gs trace (steps (body_of name gs) s) h.1
      ∙ ap (λ o. (steps o s).lines) h.0.body
      ∙ (steps-entered c h.0.source s name h.0.plain).0

  pub enter_all-counts :
      (gs : List Function) (trace : List Text) (s : Running) (k : Text) (j : ℕ)
      → All (λ n. Counting c n (body_of n gs)) trace
      → s.counters (counter_name c k) ≡ u32 j
      → (enter_all gs trace s).counters (counter_name c k) ≡ u32 (j + occurrences k trace)
  enter_all-counts gs [] s k j h start = start ∙ ap u32 (omega arith)
  enter_all-counts gs (name ∷ trace) s k j h start =
      enter_all-counts gs trace (steps (body_of name gs) s) k
        (j + (if text_eq.beq name k then 1 else 0)) h.1
        (steps-Counting name k (body_of name gs) s j h.0 start)
      ∙ ap u32 (omega arith)

  initial-create :
      (var v : Text) (globals : List (Text × Global))
      → initial (create_global_counter var globals) v
        ≡ (if text_eq.beq var v then 0 else initial globals v)
  unfolding create_global_counter
  initial-create var v globals =
      ground (arith, find-modify uninitialised var v (λ _. number 0) globals)

  pub initial-text :
      (var v s : Text) (globals : List (Text × Global))
      → initial globals v ≡ 0
      → initial (modify uninitialised var (λ _. text s) globals) v ≡ 0
  initial-text var v s globals h =
      ground (arith, h, find-modify uninitialised var v (λ _. text s) globals)

  initial-kept :
      (fs : List Function) (v : Text) (st : Step1)
      → initial st.globals v ≡ 0
      → initial (instrument c fs st).globals v ≡ 0
  unfolding instrument
  initial-kept [] v st h = h
  initial-kept (f ∷ fs) v st h = initial-kept fs v _ (elim (Bool-cases f.is_declaration) [
    | inl e ↦ rw e h
    | inr e ↦ rw e (ground (arith, h, initial-create (counter_name c f.name) v st.globals))
  ])

  pub initial-instrument :
      (fs : List Function) (k : Text) (st : Step1)
      → has k (defined_names fs) ≡ true
      → initial (instrument c fs st).globals (counter_name c k) ≡ 0
  unfolding instrument has
  initial-instrument [] k st h = absurd (false≢true h)
  initial-instrument (f ∷ fs) k st h = elim (Bool-cases f.is_declaration) [
    | inl e ↦ initial-instrument fs k _ (rw e at h)
    | inr e ↦ elim (Bool-cases (text_eq.beq f.name k)) [
      | inr other ↦ initial-instrument fs k _ (rw (e, other) at h)
      | inl same ↦ initial-kept fs (counter_name c k) _ (
          rw e (
            initial-create (counter_name c f.name) (counter_name c k) st.globals
            ∙ ap (λ (b : Bool). if b then 0 else initial st.globals (counter_name c k))
                (text_beq-append c.counter_for f.name k ∙ same)))
    ]
  ]
