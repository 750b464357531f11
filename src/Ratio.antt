-- ===== src/Ratio.antt =====
-- lib/Ratio.cpp and include/Ratio.h: the value of `-mba-ratio`, and its parser.
-- Doubles and `strtod` are parameters.
use llvm_study.Base.{ℕ, ◌≡◌, ◌↔◌, Bool, false, ◌||◌, List, ◌==◌, if◌then◌else◌, arith}

-- IEEE doubles, as far as the passes compare them. A comparison with NaN is false.
pub record Float : Type 1 where
  pub Double : Type 0
  pub zero_point : Double
  pub one_point : Double
  pub lt : Double → Double → Bool

-- What `strtod` returns: the number, and `EndPtr - ArgCStr`.
pub record Strtod (D : Type 0) : Type 0 where
  pub number : D
  pub consumed : ℕ

pub record Ratio (D : Type 0) : Type 0 where
  pub value : D

pub data ParseError : Type 0 where
  not_floating_point out_of_range : ParseError

-- `Opt.error` reports and returns true, and a parse that succeeds returns false: `stored` carries
-- the ratio with which `Val` is then set.
pub data Parsed (D : Type 0) : Type 0 where
  rejected : ParseError → Parsed D
  stored : Ratio D → Parsed D

module _ (f : Float) (strtod : List ℕ → Strtod f.Double) where
  unfoldable pub parse : List ℕ → Parsed f.Double
  parse arg =
      let r = strtod arg in
      if r.consumed == 0
      then rejected not_floating_point
      else if f.lt r.number f.zero_point || f.lt f.one_point r.number
      then rejected out_of_range
      else stored (record { value = r.number })

  -- An argument is stored exactly when `strtod` reads something of it that compares neither below
  -- 0 nor above 1, and the ratio stored is the number read.
  pub parse_stored :
      (arg : List ℕ) (x : f.Double)
      → (parse arg ≡ stored (record { value = x }))
        ↔ (((strtod arg).consumed == 0) ≡ false)
          × (f.lt (strtod arg).number f.zero_point ≡ false)
          × (f.lt f.one_point (strtod arg).number ≡ false)
          × ((strtod arg).number ≡ x)
  unfolding parse
  parse_stored arg x = ground arith
