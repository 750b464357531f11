-- ===== src/Mba/Add/Laws.antt =====
-- The instructions that lib/MBAAdd.cpp builds compute the sum.
use llvm_study.Base.{
  ℕ, ◌+◌, ◌*◌, ◌%◌, ◌^◌, ◌≤◌, ◌<◌, ◌≡◌, refl, ap, ◌∙◌, map, arith, All, bit_xor, bit_and,
  sum_of_bits, get_or-map, All-get_or, true,
}
use llvm_study.Ir.{
  Instr, operand, Ty, int, Value, const, undef, BinOp, add, mul, and, xor, Kind, binary,
}
use llvm_study.Ir.Exec.{
  Machine, State, value_of, read, result, exec, exec_all, exec_all-append, Agree, InScope, IsScoped,
  word_op,
}
use llvm_study.Ir.Frame.{All-InScope-weaken, Agree-refl, Agree-weaken, exec-Agree_of_result}
use llvm_study.Ir.Builder.{Builder, IsBuilder, Built, Computes}
use llvm_study.Ir.Builder.Laws.{read_kept, read_built, scope_grows, keeps_then}
use package.llvm_study.Mba.Add.{is_add8, replace_add}

is_add8-eq-true : (k : Kind) (t : Ty) → is_add8 k t ≡ true → (k ≡ binary add) × (t ≡ int 8)
unfolding is_add8
is_add8-eq-true k t h = ground arith

-- 39 * 151 is 1 modulo 2 ^ 8, and so the affine maps cancel.
affine_cancel :
    (x y e0 conj e1 e2 e3 e4 e5 : ℕ)
    → x < 2 ^ 8
    → y < 2 ^ 8
    → e0 ≡ bit_xor x y % 2 ^ 8
    → conj ≡ bit_and x y % 2 ^ 8
    → e1 ≡ (2 * conj) % 2 ^ 8
    → e2 ≡ (e0 + e1) % 2 ^ 8
    → e3 ≡ (39 * e2) % 2 ^ 8
    → e4 ≡ (23 + e3) % 2 ^ 8
    → e5 ≡ (151 * e4) % 2 ^ 8
    → (111 + e5) % 2 ^ 8 ≡ (x + y) % 2 ^ 8
affine_cancel x y e0 conj e1 e2 e3 e4 e5 hx hy h0 hc h1 h2 h3 h4 h5 = omega (arith, sum_of_bits x y)

-- The seven instructions in turn, for one addition.
module _ (m : Machine) (b : Builder) (laws : IsBuilder m b) (inst : Instr) (n : ℕ)
    (scoped : All (InScope n) inst.operands) where
  abbrev x : Value
  x = operand inst 0

  abbrev y : Value
  y = operand inst 1

  abbrev e0 : Built
  e0 = b.create xor 8 x y n

  abbrev conj : Built
  conj = b.create and 8 x y e0.next

  abbrev e1 : Built
  e1 = b.create mul 8 (const 8 2) conj.value conj.next

  abbrev e2 : Built
  e2 = b.create add 8 e0.value e1.value e1.next

  abbrev e3 : Built
  e3 = b.create mul 8 (const 8 39) e2.value e2.next

  abbrev e4 : Built
  e4 = b.create add 8 (const 8 23) e3.value e3.next

  abbrev e5 : Built
  e5 = b.create mul 8 (const 8 151) e4.value e4.next

  -- What a builder's `create` promises here.
  abbrev Does : BinOp → Value → Value → ℕ → Built → Type 0
  Does op v w k c = Computes m 8 k (λ s. word_op op 8 (read m 8 s.env v) (read m 8 s.env w)) c

  scoped_x : InScope n x
  scoped_x = All-get_or (InScope n) inst.operands 0 undef scoped tt

  scoped_y : InScope n y
  scoped_y = All-get_or (InScope n) inst.operands 1 undef scoped tt

  h0 : Does xor x y n e0
  h0 = laws.create_lem xor 8 x y n tt scoped_x scoped_y

  hc : Does and x y e0.next conj
  hc = laws.create_lem and 8 x y e0.next tt (scope_grows h0 x scoped_x) (scope_grows h0 y scoped_y)

  h1 : Does mul (const 8 2) conj.value conj.next e1
  h1 = laws.create_lem mul 8 (const 8 2) conj.value conj.next tt tt hc.scoped

  h2 : Does add e0.value e1.value e1.next e2
  h2 =
      laws.create_lem add 8 e0.value e1.value e1.next tt
        (scope_grows h1 e0.value (scope_grows hc e0.value h0.scoped)) h1.scoped

  h3 : Does mul (const 8 39) e2.value e2.next e3
  h3 = laws.create_lem mul 8 (const 8 39) e2.value e2.next tt tt h2.scoped

  h4 : Does add (const 8 23) e3.value e3.next e4
  h4 = laws.create_lem add 8 (const 8 23) e3.value e3.next tt tt h3.scoped

  h5 : Does mul (const 8 151) e4.value e4.next e5
  h5 = laws.create_lem mul 8 (const 8 151) e4.value e4.next tt tt h4.scoped

  pub placed_grows : n ≤ (replace_add b inst n).next
  unfolding replace_add
  placed_grows = omega (arith, h0.grows, hc.grows, h1.grows, h2.grows, h3.grows, h4.grows, h5.grows)

  -- The states between the instructions.
  module _ (s : State m.Mem) where
    abbrev s0 : State m.Mem
    s0 = exec_all m e0.insts s

    abbrev sc : State m.Mem
    sc = exec_all m conj.insts s0

    abbrev s1 : State m.Mem
    s1 = exec_all m e1.insts sc

    abbrev s2 : State m.Mem
    s2 = exec_all m e2.insts s1

    abbrev s3 : State m.Mem
    s3 = exec_all m e3.insts s2

    abbrev s4 : State m.Mem
    s4 = exec_all m e4.insts s3

    abbrev s5 : State m.Mem
    s5 = exec_all m e5.insts s4

    placed_runs : exec_all m (replace_add b inst n).placed s ≡ s5
    unfolding replace_add
    placed_runs = simp (exec_all-append m)

    pub placed_keeps : Agree m n (exec_all m (replace_add b inst n).placed s) s
    placed_keeps =
        let g0 = h0.grows in
        let gc = hc.grows in
        let g1 = h1.grows in
        let g2 = h2.grows in
        let g3 = h3.grows in
        let g4 = h4.grows in
        let k0 = keeps_then h0 n s s (omega arith) (Agree-refl m n s) in
        let kc = keeps_then hc n s0 s (omega arith) k0 in
        let k1 = keeps_then h1 n sc s (omega arith) kc in
        let k2 = keeps_then h2 n s1 s (omega arith) k1 in
        let k3 = keeps_then h3 n s2 s (omega arith) k2 in
        let k4 = keeps_then h4 n s3 s (omega arith) k3 in
        rw placed_runs (keeps_then h5 n s4 s (omega arith) k4)

    e0_kept : read m 8 s1.env e0.value ≡ read m 8 s0.env e0.value
    e0_kept =
        read_kept h1 e0.value sc (scope_grows hc e0.value h0.scoped)
        ∙ read_kept hc e0.value s0 h0.scoped

    sum_reads :
        (111 + read m 8 s5.env e5.value) % 2 ^ 8 ≡ (read m 8 s.env x + read m 8 s.env y) % 2 ^ 8
    unfolding word_op
    sum_reads =
        affine_cancel (read m 8 s.env x) (read m 8 s.env y) (read m 8 s0.env e0.value)
          (read m 8 sc.env conj.value) (read m 8 s1.env e1.value) (read m 8 s2.env e2.value)
          (read m 8 s3.env e3.value) (read m 8 s4.env e4.value) (read m 8 s5.env e5.value)
          (omega arith) (omega arith) (read_built h0 s _ refl)
          (read_built hc s0 _ (rw (read_kept h0 x s scoped_x, read_kept h0 y s scoped_y)))
          (read_built h1 sc _ refl) (read_built h2 s1 _ (rw e0_kept)) (read_built h3 s2 _ refl)
          (read_built h4 s3 _ refl) (read_built h5 s4 _ refl)

    -- The new instruction has the result of the addition that it replaces.
    new_result :
        inst.kind ≡ binary add
        → inst.ty ≡ int 8
        → let r = replace_add b inst n in
          result m r.new.kind r.new.ty
            (map (value_of m (exec_all m r.placed s).env) r.new.operands)
            s.mem
          ≡ result m inst.kind inst.ty (map (value_of m s.env) inst.operands) s.mem
    unfolding replace_add result word_op
    new_result is_add is_int =
        rw
          (
            is_add,
            is_int,
            exec_all-append m,
            exec_all-append m,
            exec_all-append m,
            exec_all-append m,
            exec_all-append m,
            exec_all-append m,
            get_or-map (value_of m s.env) inst.operands 0 undef,
            get_or-map (value_of m s.env) inst.operands 1 undef,
          )
          (ap (λ (t : ℕ). (t, s.mem)) sum_reads)

-- Executing the replacement gives what the addition gave.
pub replaced-Agree :
    (m : Machine) (b : Builder)
    → IsBuilder m b
    → (inst : Instr) (n k : ℕ) (s : State m.Mem) → n ≤ k
    → is_add8 inst.kind inst.ty ≡ true
    → IsScoped n inst
    → let r = replace_add b inst k in
      Agree m n (exec m r.new (exec_all m r.placed s)) (exec m inst s)
unfolding replace_add
replaced-Agree m b laws inst n k s le found scoped =
    let uses = All-InScope-weaken inst.operands le scoped.uses in
    let keeps = placed_keeps m b laws inst k uses s in
    let (is_add, is_int) = is_add8-eq-true inst.kind inst.ty found in
    exec-Agree_of_result m (replace_add b inst k).new inst refl refl
      (rw keeps.same_mem (new_result m b laws inst k uses s is_add is_int))
      (Agree-weaken m le keeps)
