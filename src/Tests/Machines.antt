-- ===== src/Tests/Machines.antt =====
-- A machine, and a builder that folds no constants.
use llvm_study.Base.{
  ℕ, ◌+◌, ◌-◌, ◌*◌, ◌%◌, ◌^◌, ◌<◌, ◌≡◌, ◌==◌, if◌then◌else◌, refl, sym, ap, ◌∙◌, bit_and, bit_xor,
  bit_xor_ones, some, [], ◌∷◌, arith,
}
use native.Mathlib.Nat.{mod-lt, mod-mod, mod-eq_of_lt, one-le-pow}
use llvm_study.Ir.{
  Value, const, local, int, Instr, binary, BinOp, add, sub, mul, and, xor, other_op,
}
use llvm_study.Ir.Exec.{Machine, State, read, value_of, word_op, result, exec, exec_all}
use llvm_study.Ir.Builder.{Builder, IsBuilder, Computes, IsWrapping}

-- Memory counts the other instructions, and they define the count.
abbrev pub counting : Machine
counting = record { Mem = ℕ; symbol = λ v. 0; effect = λ kind ty vals mem. (mem, mem + 1) }

abbrev pub op_inst : BinOp → ℕ → Value → Value → ℕ → Instr
op_inst op w x y n = record { id = n; kind = binary op; ty = int w; operands = x ∷ y ∷ [] }

abbrev pub plain : Builder
plain = record {
  create = λ op w x y n. record { value = local n; insts = op_inst op w x y n ∷ []; next = n + 1 };
  create_not = λ w x n. record {
    value = local n;
    insts = op_inst xor w x (const w (2 ^ w - 1)) n ∷ [];
    next = n + 1;
  };
}

word_op-wraps :
    (op : BinOp) (w a b : ℕ)
    → IsWrapping op
    → (r : ℕ) × (word_op op w a b ≡ some r) × (r % 2 ^ w ≡ r)
unfolding word_op
word_op-wraps add w a b h = ((a + b) % 2 ^ w, refl, mod-mod (a + b) (2 ^ w))
word_op-wraps sub w a b h = ((a + 2 ^ w - b) % 2 ^ w, refl, mod-mod (a + 2 ^ w - b) (2 ^ w))
word_op-wraps mul w a b h = ((a * b) % 2 ^ w, refl, mod-mod (a * b) (2 ^ w))
word_op-wraps and w a b h = (bit_and a b % 2 ^ w, refl, mod-mod (bit_and a b) (2 ^ w))
word_op-wraps xor w a b h = (bit_xor a b % 2 ^ w, refl, mod-mod (bit_xor a b) (2 ^ w))
word_op-wraps (other_op k) w a b h = absurd h

result-op_inst :
    (m : Machine) (op : BinOp) (w : ℕ) (x y : Value) (r : ℕ) (s : State m.Mem)
    → word_op op w (read m w s.env x) (read m w s.env y) ≡ some r
    → result m (binary op) (int w) (value_of m s.env x ∷ value_of m s.env y ∷ []) s.mem ≡ (r, s.mem)
unfolding result
result-op_inst m op w x y r s e = rw (e, result) refl

exec-op_inst :
    (m : Machine) (op : BinOp) (w : ℕ) (x y : Value) (n r : ℕ) (s : State m.Mem)
    → word_op op w (read m w s.env x) (read m w s.env y) ≡ some r
    → ((exec_all m (op_inst op w x y n ∷ []) s).mem ≡ s.mem)
      × ((i : ℕ) → (exec_all m (op_inst op w x y n ∷ []) s).env i ≡ (if i == n then r else s.env i))
unfolding exec_all exec
exec-op_inst m op w x y n r s e =
    let res = result-op_inst m op w x y r s e in
    (
      ap (λ (q : ℕ × m.Mem). q.1) res,
      λ i. ap (λ (q : ℕ × m.Mem). if i == n then q.0 else s.env i) res,
    )

module _ (m : Machine) (op : BinOp) (w : ℕ) (x y : Value) (n : ℕ) (h : IsWrapping op) where
  plain-Computes :
      Computes m w n
        (λ s. word_op op w (read m w s.env x) (read m w s.env y))
        (record { value = local n; insts = op_inst op w x y n ∷ []; next = n + 1 })
  plain-Computes = record {
    grows = omega arith;
    scoped = omega arith;
    keeps = λ s.
        let (r, found, wraps) = word_op-wraps op w (read m w s.env x) (read m w s.env y) h in
        let after = exec-op_inst m op w x y n r s found in
        record { same_mem = after.0; same_env = λ i lt. ground (arith, after.1 i) };
    computes = λ s.
        let (r, found, wraps) = word_op-wraps op w (read m w s.env x) (read m w s.env y) h in
        let after = exec-op_inst m op w x y n r s found in
        let here : (exec_all m (op_inst op w x y n ∷ []) s).env n ≡ r = ground (arith, after.1 n) in
        found ∙ ap some (sym (ap (λ (v : ℕ). v % 2 ^ w) here ∙ wraps));
  }

word_op-not :
    (w a : ℕ) → a < 2 ^ w → word_op xor w a ((2 ^ w - 1) % 2 ^ w) ≡ some (bit_xor a (2 ^ w - 1))
unfolding word_op
word_op-not w a h =
    let ones : (2 ^ w - 1) % 2 ^ w ≡ 2 ^ w - 1 = mod-eq_of_lt (omega (arith, one-le-pow w 2)) in
    let small : bit_xor a (2 ^ w - 1) % 2 ^ w ≡ bit_xor a (2 ^ w - 1) =
      mod-eq_of_lt (omega (arith, bit_xor_ones w a h)) in
    ap (λ (b : ℕ). some (bit_xor a b % 2 ^ w)) ones ∙ ap some small

pub plain-IsBuilder : (m : Machine) → IsBuilder m plain
plain-IsBuilder m = record {
  create_lem = λ op w x y n h in_x in_y. plain-Computes m op w x y n h;
  create_not_lem = λ w x n in_x.
      let c = plain-Computes m xor w x (const w (2 ^ w - 1)) n tt in
      record {
        grows = c.grows;
        scoped = c.scoped;
        keeps = c.keeps;
        computes = λ s.
            sym (
              word_op-not w (read m w s.env x)
                (mod-lt (value_of m s.env x) (omega (arith, one-le-pow w 2))))
            ∙ c.computes s;
      };
}
