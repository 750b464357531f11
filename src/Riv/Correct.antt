-- ===== src/Riv/Correct.antt =====
-- What the analysis computes, against the dominator tree.
use llvm_study.Base.{
  ℕ, suc, ◌≤◌, ◌≡◌, ap, Bool, false, ◌||◌, ◌&&◌, List, [], ◌∷◌, some, arith, ◌==◌, ==_iff,
  if◌then◌else◌,
}
use llvm_study.Ir.{Instr}
use llvm_study.Containers.{address_eq, at, modify, has, insert}
use llvm_study.Containers.Laws.{at-modify, has-insert}
use package.llvm_study.Riv.{
  Block, Typed, Func, DomTrees, leaf, tree, PtrSet, Result, is_integer, insert_insts, insert_typed,
  defined_values, entry_values, size, build_riv,
}
use package.llvm_study.Riv.Visit.{count}
use package.llvm_study.Riv.Loop.{Step, Inherits, Solved, Ready, process-Finished}

-- `c`, with the trees below it, is one of the roots.
pub data Child (c : ℕ) (below : DomTrees) : DomTrees → Type 0 where
  first : {siblings : DomTrees} → Child c below (tree c below siblings)
  later :
      {d : ℕ} {e siblings : DomTrees} → Child c below siblings → Child c below (tree d e siblings)

-- In the tree of `p`, `b` stands below exactly the blocks listed, which lead from `p` to the
-- parent of `b`: they are the blocks that strictly dominate `b`.
abbrev pub Dominated : ℕ → DomTrees → List ℕ → ℕ → Type 0
Dominated p children [] b = p ≡ b
Dominated p children (d ∷ ds) b =
    (d ≡ p) × (c : ℕ) × (below : DomTrees) × Child c below children × Dominated c below ds b

-- An instruction of integer type in the list defines `v`.
abbrev pub insts_define : List Instr → ℕ → Bool
insts_define [] v = false
insts_define (inst ∷ insts) v = (is_integer inst.ty && inst.id == v) || insts_define insts v

-- A block `b` of the function has such an instruction.
abbrev pub defines : List Block → ℕ → ℕ → Bool
defines [] b v = false
defines (block ∷ blocks) b v = (block.name == b && insts_define block.insts v) || defines blocks b v

abbrev pub any_defines : List Block → List ℕ → ℕ → Bool
any_defines blocks [] v = false
any_defines blocks (d ∷ ds) v = defines blocks d v || any_defines blocks ds v

-- A global or an argument of integer type in the list is `v`.
abbrev pub any_typed : List Typed → ℕ → Bool
any_typed [] v = false
any_typed (x ∷ xs) v = (is_integer x.ty && x.address == v) || any_typed xs v

has-insert_insts :
    (insts : List Instr) (s : PtrSet) (v : ℕ)
    → has v (insert_insts insts s) ≡ (has v s || insts_define insts v)
unfolding insert_insts
has-insert_insts [] s v = ground arith
has-insert_insts (inst ∷ insts) s v = ground (
  arith,
  has-insert_insts insts (if is_integer inst.ty then insert inst.id s else s) v,
  has-insert v inst.id s,
)

has-insert_typed :
    (xs : List Typed) (s : PtrSet) (v : ℕ) → has v (insert_typed xs s) ≡ (has v s || any_typed xs v)
unfolding insert_typed
has-insert_typed [] s v = ground arith
has-insert_typed (x ∷ xs) s v = ground (
  arith,
  has-insert_typed xs (if is_integer x.ty then insert x.address s else s) v,
  has-insert v x.address s,
)

has-defined_values :
    (blocks : List Block) (m : Result) (b v : ℕ)
    → has v (at [] b (defined_values blocks m)) ≡ (has v (at [] b m) || defines blocks b v)
unfolding defined_values
has-defined_values [] m b v = ground arith
has-defined_values (block ∷ blocks) m b v =
    let f = λ (s : PtrSet). insert_insts block.insts s in
    ground (
      arith,
      has-defined_values blocks (modify [] block.name f m) b v,
      at-modify [] block.name b f m,
      has-insert_insts block.insts (at [] block.name m) v,
      ==_iff block.name b,
    )

Inherits-Child :
    (defined final : Result) (p c : ℕ) {below children : DomTrees}
    → Child c below children
    → Inherits defined final p children
    → Step defined final p c
Inherits-Child defined final p c first h = h.0
Inherits-Child defined final p c (later k) h = Inherits-Child defined final p c k h.1

-- What the trees below a root inherit.
Solved-Child :
    (defined final : Result) (c : ℕ) {below children : DomTrees}
    → Child c below children
    → Solved defined final children
    → Inherits defined final c below × Solved defined final below
Solved-Child defined final c first h = (h.0, h.1)
Solved-Child defined final c (later k) h = Solved-Child defined final c k h.2

module _ (blocks : List Block) (final : Result) where
  abbrev defined : Result
  defined = defined_values blocks []

  has-defined : (b v : ℕ) → has v (at [] b defined) ≡ defines blocks b v
  unfolding at has
  has-defined b v = has-defined_values blocks [] b v

  along :
      (p : ℕ) (children : DomTrees) (ds : List ℕ) (b v : ℕ)
      → Inherits defined final p children
      → Solved defined final children
      → Dominated p children ds b
      → has v (at [] b final) ≡ (has v (at [] p final) || any_defines blocks ds v)
  along p children [] b v inherits solved at_b = rw (← at_b) (ground arith)
  along p children (d ∷ ds) b v inherits solved (d_is_p, c, below, child, path) =
      let parts = Solved-Child defined final c child solved in
      ground (
        arith,
        along c below ds b v parts.0 parts.1 path,
        Inherits-Child defined final p c child inherits v,
        has-defined p v,
        ap (λ (q : ℕ). defines blocks q v) d_is_p,
      )

has-entry_values :
    (f : Func) (b v : ℕ)
    → has v (at [] b (entry_values f))
      ≡ (if f.entry == b then any_typed f.globals v || any_typed f.args v else false)
unfolding entry_values at has
has-entry_values f b v =
    let g = λ (s : PtrSet). insert_typed f.args (insert_typed f.globals s) in
    ground (
      arith,
      at-modify [] f.entry b g [],
      has-insert_typed f.args (insert_typed f.globals []) v,
      has-insert_typed f.globals [] v,
    )

-- With a dominator tree whose root is the entry block and where no block stands twice, the
-- analysis returns a result, and for every block of the tree, which the blocks `ds` strictly
-- dominate: its set holds exactly the integer globals, the integer arguments and the integer
-- instructions of the blocks `ds`.
pub build_riv-reachable :
    (f : Func) (children : DomTrees) (ds : List ℕ) (b v : ℕ)
    → ((k : ℕ) → count k (tree f.entry children leaf) ≤ 1)
    → Dominated f.entry children ds b
    → (r : Result) × (build_riv f f.entry children ≡ some r)
      × (has v (at [] b r)
          ≡ (any_typed f.globals v || any_typed f.args v || any_defines f.blocks ds v))
unfolding build_riv size
build_riv-reachable f children ds b v once path =
    let t = tree f.entry children leaf in
    let ready : Ready t (entry_values f) = record {
      once = once;
      blank = λ k w inside. ground (arith, once k, has-entry_values f k w);
    } in
    let done =
      process-Finished (suc (size children)) (defined_values f.blocks []) t (entry_values f)
        (omega arith) ready in
    (
      done.final,
      done.returns,
      ground (
        arith,
        along f.blocks done.final f.entry children ds b v done.solved.0 done.solved.1 path,
        ap (has v) (done.frame f.entry (ground (arith, once f.entry))),
        has-entry_values f f.entry v,
      ),
    )
