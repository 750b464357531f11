-- ===== src/Instrument.antt =====
-- The passes that insert code into every defined function of a module: the module that they see.
-- Names and texts are lists of bytes. A function is known by its name, which is unique in a module,
-- and holds the instructions of its entry block from the first insertion point on.
pub mod InjectFuncCall
pub mod DynamicCallCounter
use llvm_study.Base.{ℕ, ◌≡◌, ◌↔◌, refl, Bool, true, false, ◌&&◌, List, [], ◌∷◌, ◌==◌, ==_iff, arith}
use llvm_study.Containers.{Eq}

abbrev pub Text : Type 0
Text = List ℕ

abbrev pub text_beq : Text → Text → Bool
text_beq [] [] = true
text_beq (a ∷ s) (b ∷ t) = a == b && text_beq s t
text_beq _ _ = false

pub text_beq_iff : (s t : Text) → (text_beq s t ≡ true) ↔ (s ≡ t)
text_beq_iff [] [] = ground arith
text_beq_iff [] (b ∷ t) = ground arith
text_beq_iff (a ∷ s) [] = ground arith
text_beq_iff (a ∷ s) (b ∷ t) = ground (arith, text_beq_iff s t)

instance abbrev pub text_eq : Eq Text
text_eq = record { beq = text_beq; beq_iff = text_beq_iff }

-- `load_counter` puts a global into a register, `add_one` adds the constant 1 to it as an i32, and
-- `store_counter` puts it into a global. `call_hello` and `call_header` and `call_line` are calls of
-- `printf` on the text of a global: with a function's name and its number of arguments, alone,
-- and with a function's name and the register.
pub data Op : Type 0 where
  load_counter store_counter : Text → Op
  add_one ret_void : Op
  call_hello : Text → Text → ℕ → Op
  call_header : Text → Op
  call_line : Text → Text → Op
  original : ℕ → Op

pub record Function : Type 0 where
  pub name : Text
  pub is_declaration : Bool
  pub arg_size : ℕ
  pub body : List Op

-- What a global variable is initialised with.
pub data Global : Type 0 where
  number : ℕ → Global
  text : Text → Global
  uninitialised : Global

pub record Module : Type 0 where
  pub functions : List Function
  pub globals : List (Text × Global)
  -- the functions that run when the module exits
  pub destructors : List Text
