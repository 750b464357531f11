-- ===== src/Riv/Report.antt =====
-- `RIV::run`, and what `printRIVResult` of lib/RIV.cpp prints for the legacy pass. A line stands for its
-- text; the padding of the columns is left out, and blocks and values stand for what LLVM prints of
-- them. The order of a SmallPtrSet is not promised; here it is the order of insertion.
use llvm_study.Base.{
  ℕ, ◌≡◌, ◌≤◌, refl, ap, ◌∙◌, ◌||◌, List, [], ◌∷◌, ◌++◌, append-nil, Option, none, some,
}
use llvm_study.Containers.{address_eq, at, has}
use package.llvm_study.Riv.{
  PtrSet, Result, Func, DomTrees, leaf, tree, build_riv, legacy_run_on_function,
}
use package.llvm_study.Riv.Visit.{count}
use package.llvm_study.Riv.Correct.{Dominated, any_typed, any_defines, build_riv-reachable}

-- A double or single rule, the title, the names of the columns, the line of a block, that of a value
-- that is reachable from it, and an empty line.
pub data Line : Type 0 where
  double_rule single_rule title column_names blank : Line
  bb value : ℕ → Line

-- `RIV::run`.
unfoldable pub run : Func → ℕ → DomTrees → Option Result
unfolding build_riv
run f root children = build_riv f root children

-- The inner loop, over the values of a block.
unfoldable pub print_values : PtrSet → List Line
print_values [] = []
print_values (v ∷ vs) = value v ∷ print_values vs

-- The outer loop, over the blocks, and the empty lines after it.
unfoldable pub print_blocks : Result → List Line
unfolding print_values
print_blocks [] = blank ∷ blank ∷ []
print_blocks ((b, vs) ∷ r) = bb b ∷ print_values vs ++ print_blocks r

unfoldable pub print_riv_result : Result → List Line
unfolding print_blocks
print_riv_result r = double_rule ∷ title ∷ double_rule ∷ column_names ∷ single_rule ∷ print_blocks r

-- `LegacyRIV::print`, of the map that `runOnFunction` left.
unfoldable pub legacy_print : Option Result → Option (List Line)
unfolding print_riv_result
legacy_print none = none
legacy_print (some r) = some (print_riv_result r)

-- The values up to the line of the next block, and the blocks with their values.
abbrev pub read_lines : List Line → PtrSet × Result
read_lines [] = ([], [])
read_lines (bb b ∷ lines) = let rest = read_lines lines in ([], (b, rest.0) ∷ rest.1)
read_lines (value v ∷ lines) = let rest = read_lines lines in (v ∷ rest.0, rest.1)
read_lines (_ ∷ lines) = let rest = read_lines lines in ([], rest.1)

read-print_values :
    (vs : PtrSet) (lines : List Line)
    → read_lines (print_values vs ++ lines) ≡ (vs ++ (read_lines lines).0, (read_lines lines).1)
unfolding print_values
read-print_values [] lines = refl
read-print_values (v ∷ vs) lines =
    ap (λ (p : PtrSet × Result). (v ∷ p.0, p.1)) (read-print_values vs lines)

read-print_blocks : (r : Result) → read_lines (print_blocks r) ≡ ([], r)
unfolding print_blocks
read-print_blocks [] = refl
read-print_blocks ((b, vs) ∷ r) =
    ap (λ (p : PtrSet × Result). ([], (b, p.0) ∷ p.1))
      (read-print_values vs (print_blocks r)
        ∙ ap (λ (p : PtrSet × Result). (vs ++ p.0, p.1)) (read-print_blocks r)
        ∙ ap (λ (ws : PtrSet). (ws, r)) (append-nil vs))

-- With a dominator tree whose root is the entry block and where no block stands twice: the legacy pass
-- has a map to print, and for every block of the tree, which the blocks `ds` strictly dominate, the
-- values on the lines after that of the block are exactly the integer globals, the integer arguments
-- and the integer instructions of the blocks `ds`.
pub legacy_print-reachable :
    (f : Func) (children : DomTrees) (ds : List ℕ) (b v : ℕ)
    → ((k : ℕ) → count k (tree f.entry children leaf) ≤ 1)
    → Dominated f.entry children ds b
    → (lines : List Line) × (legacy_print (legacy_run_on_function f f.entry children).0
        ≡ some lines)
      × (has v (at [] b (read_lines lines).1)
          ≡ (any_typed f.globals v || any_typed f.args v || any_defines f.blocks ds v))
unfolding legacy_run_on_function legacy_print print_riv_result
legacy_print-reachable f children ds b v once path =
    let (r, returns, reachable) = build_riv-reachable f children ds b v once path in
    (
      print_riv_result r,
      ap legacy_print returns,
      ap (λ (p : PtrSet × Result). has v (at [] b p.1)) (read-print_blocks r) ∙ reachable,
    )
