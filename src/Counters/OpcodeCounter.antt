-- ===== src/Counters/OpcodeCounter.antt =====
-- lib/OpcodeCounter.cpp: how often every opcode name is used in a function. Instructions, and
-- `getOpcodeName`, are LLVM's.
use llvm_study.Base.{
  Bool, false, ℕ, ◌+◌, ◌≡◌, refl, ap, ◌∙◌, List, [], ◌∷◌, ◌++◌, map, none, some, if◌then◌else◌,
  arith,
}
use llvm_study.Mba.Block.{PreservedAnalyses, preserve_all}
use llvm_study.Containers.{Eq, find, modify}
use llvm_study.Containers.Laws.{find-modify, at-eq-find}
use package.llvm_study.Counters.Tally.{u32, tally, occurrences, occurrences-append}

module _ {ℓ} {Inst : Type ℓ} {Name : Type 0} ⦃e : Eq Name⦄ (opcode_name : Inst → Name) where
  -- The body of the inner loop.
  pub count_inst : Inst → List (Name × ℕ) → List (Name × ℕ)
  count_inst inst m =
      let name = opcode_name inst in
      elim (find name m) [
        | none ↦ modify 0 name (λ _. 1) m
        | some _ ↦ modify 0 name (λ c. u32 (c + 1)) m
      ]

  pub count_block : List Inst → List (Name × ℕ) → List (Name × ℕ)
  unfolding count_inst
  count_block [] m = m
  count_block (inst ∷ insts) m = count_block insts (count_inst inst m)

  pub count_blocks : List (List Inst) → List (Name × ℕ) → List (Name × ℕ)
  unfolding count_block
  count_blocks [] m = m
  count_blocks (block ∷ blocks) m = count_blocks blocks (count_block block m)

  pub generate_opcode_map : List (List Inst) → List (Name × ℕ)
  unfolding count_blocks
  generate_opcode_map blocks = count_blocks blocks []

  -- The opcode names of a function, in order.
  abbrev pub all_names : List (List Inst) → List Name
  all_names [] = []
  all_names (block ∷ blocks) = map opcode_name block ++ all_names blocks

  count_inst-tally :
      (inst : Inst) (m : List (Name × ℕ)) (seen : Name → ℕ)
      → ((j : Name) → find j m ≡ tally (seen j))
      → (j : Name)
      → find j (count_inst inst m) ≡ tally (seen j + (if e.beq (opcode_name inst) j then 1 else 0))
  unfolding count_inst
  count_inst-tally inst m seen h j =
      let name = opcode_name inst in
      ground (
        arith,
        h name,
        h j,
        find-modify 0 name j (λ _. 1) m,
        find-modify 0 name j (λ (c : ℕ). u32 (c + 1)) m,
        at-eq-find 0 name m,
        e.beq_iff name j,
      )

  count_block-tally :
      (insts : List Inst) (m : List (Name × ℕ)) (seen : Name → ℕ)
      → ((j : Name) → find j m ≡ tally (seen j))
      → (j : Name)
      → find j (count_block insts m) ≡ tally (seen j + occurrences j (map opcode_name insts))
  unfolding count_block
  count_block-tally [] m seen h j = h j ∙ ap tally (omega arith)
  count_block-tally (inst ∷ insts) m seen h j =
      count_block-tally insts (count_inst inst m)
        (λ k. seen k + (if e.beq (opcode_name inst) k then 1 else 0))
        (count_inst-tally inst m seen h) j
      ∙ ap tally (omega arith)

  count_blocks-tally :
      (blocks : List (List Inst)) (m : List (Name × ℕ)) (seen : Name → ℕ)
      → ((j : Name) → find j m ≡ tally (seen j))
      → (j : Name)
      → find j (count_blocks blocks m) ≡ tally (seen j + occurrences j (all_names blocks))
  unfolding count_blocks
  count_blocks-tally [] m seen h j = h j ∙ ap tally (omega arith)
  count_blocks-tally (block ∷ blocks) m seen h j =
      count_blocks-tally blocks (count_block block m)
        (λ k. seen k + occurrences k (map opcode_name block)) (count_block-tally block m seen h) j
      ∙ ap tally (omega (arith, occurrences-append j (map opcode_name block) (all_names blocks)))

  -- A name that no instruction of the function has has no entry, and a name that `n` instructions
  -- have has the entry `n`, as an `unsigned` of 32 bits.
  pub generate_opcode_map-tally :
      (blocks : List (List Inst)) (name : Name)
      → find name (generate_opcode_map blocks) ≡ tally (occurrences name (all_names blocks))
  unfolding generate_opcode_map find
  generate_opcode_map-tally blocks name =
      count_blocks-tally blocks [] (λ _. 0) (λ j. refl) name ∙ ap tally (omega arith)

  -- `run`, which prints the map: the map and the analyses preserved.
  unfoldable pub run : List (List Inst) → List (Name × ℕ) × PreservedAnalyses
  unfolding generate_opcode_map
  run blocks = (generate_opcode_map blocks, preserve_all)

  -- `runOnFunction` of the legacy pass: the map, and no change.
  unfoldable pub legacy_run_on_function : List (List Inst) → List (Name × ℕ) × Bool
  unfolding generate_opcode_map
  legacy_run_on_function blocks = (generate_opcode_map blocks, false)
