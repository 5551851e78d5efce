-- ===== src/Loader/Printed.antt =====
-- Programs in the format of `load`, and what the standard library does with them.
use os_to_read.Base.{ℕ, zero, suc, ◌+◌, ◌^◌, ◌≤◌, ◌<◌, ◌≡◌, some, List, [], ◌∷◌, arith, get_elem?}
use os_to_read.Cpu.{
  Opcode, calc, alloc, free, read, write, kmalloc, kmem_cache_create, kmem_cache_alloc,
  copy_from_user, copy_to_user, syscall, other, Inst,
}
use os_to_read.Loader.{Stdio, set_arg, store_args, arity}
use os_to_read.Loader.Names.{opcode_name}
use os_to_read.Loader.Written.{IsLoadable}

-- The first `n` operands.
abbrev pub operands : ℕ → Inst → List ℕ
operands zero ins = []
operands (suc zero) ins = ins.arg_0 ∷ []
operands (suc (suc zero)) ins = ins.arg_0 ∷ ins.arg_1 ∷ []
operands (suc (suc (suc zero))) ins = ins.arg_0 ∷ ins.arg_1 ∷ ins.arg_2 ∷ []
operands (suc (suc (suc (suc n)))) ins = ins.arg_0 ∷ ins.arg_1 ∷ ins.arg_2 ∷ ins.arg_3 ∷ []

-- The two have the same opcode and the same first `n` operands.
pub record Agrees (n : ℕ) (ins ins' : Inst) : Type 0 where
  pub opcode : ins'.opcode ≡ ins.opcode
  pub arg_0 : 0 < n → ins'.arg_0 ≡ ins.arg_0
  pub arg_1 : 1 < n → ins'.arg_1 ≡ ins.arg_1
  pub arg_2 : 2 < n → ins'.arg_2 ≡ ins.arg_2
  pub arg_3 : 3 < n → ins'.arg_3 ≡ ins.arg_3

-- How many operands a program has for an opcode.
abbrev pub operand_count : Opcode → ℕ
operand_count calc = 0
operand_count kmem_cache_alloc = 2
operand_count kmalloc = 2
operand_count alloc = 2
operand_count free = 1
operand_count kmem_cache_create = 3
operand_count read = 3
operand_count write = 3
operand_count copy_from_user = 4
operand_count copy_to_user = 4
operand_count syscall = 4
operand_count (other k) = 0

-- An instruction that a program can contain.
pub record IsPrintable (ins : Inst) : Type 0 where
  pub loadable : IsLoadable ins.opcode
  pub arg_0 : ins.arg_0 < 2 ^ 64
  pub arg_1 : ins.arg_1 < 2 ^ 64
  pub arg_2 : ins.arg_2 < 2 ^ 64
  pub arg_3 : ins.arg_3 < 2 ^ 64

abbrev pub ArePrintable : List Inst → Type 0
ArePrintable [] = Unit {0}
ArePrintable (ins ∷ l) = IsPrintable ins × ArePrintable l

-- The standard library reads back what a program has: `At f l` says that the stream `f` stands before
-- the instructions `l`, `Inside f ins l` that it stands behind the name of `ins`.
pub record Prints {F : Type 0} (io : Stdio F) (At : F → List Inst → Type 0)
    (Inside : F → Inst → List Inst → Type 0) : Type 0 where
  pub name :
      (f : F) (ins : Inst) (l : List Inst) (w : List ℕ)
      → At f (ins ∷ l)
      → opcode_name ins.opcode ≡ some w
      → (f' : F) × (io.fscanf_s f ≡ (some w, f')) × Inside f' ins l
  pub nothing : (f : F) (ins : Inst) (l : List Inst) → ins.opcode ≡ calc → Inside f ins l → At f l
  pub args :
      (f : F) (ins : Inst) (l : List Inst) (n : ℕ)
      → arity ins.opcode ≡ suc n
      → Inside f ins l
      → (f' : F) × (io.fscanf_arg (suc n) f ≡ (operands (suc n) ins, f')) × At f' l
  pub line :
      (f : F) (ins : Inst) (l : List Inst)
      → ins.opcode ≡ syscall
      → Inside f ins l
      → (t : List ℕ) × (f' : F) × (io.fgets 200 f ≡ (some t, f'))
        × (io.sscanf_arg 4 t ≡ operands 4 ins)
        × At f' l

-- The stored operands are those of the program.
pub store_args-Agrees :
    (n : ℕ) (ins old : Inst)
    → n ≤ 4
    → IsPrintable ins
    → old.opcode ≡ ins.opcode
    → Agrees n ins (store_args n 0 (operands n ins) old)
unfolding store_args set_arg
store_args-Agrees zero ins old h k e = record {
  opcode = e;
  arg_0 = λ lt. absurd (omega (arith, lt));
  arg_1 = λ lt. absurd (omega (arith, lt));
  arg_2 = λ lt. absurd (omega (arith, lt));
  arg_3 = λ lt. absurd (omega (arith, lt));
}
store_args-Agrees (suc zero) ins old h k e = record {
  opcode = e;
  arg_0 = λ lt. omega (arith, k.arg_0);
  arg_1 = λ lt. absurd (omega (arith, lt));
  arg_2 = λ lt. absurd (omega (arith, lt));
  arg_3 = λ lt. absurd (omega (arith, lt));
}
store_args-Agrees (suc (suc zero)) ins old h k e = record {
  opcode = e;
  arg_0 = λ lt. omega (arith, k.arg_0);
  arg_1 = λ lt. omega (arith, k.arg_1);
  arg_2 = λ lt. absurd (omega (arith, lt));
  arg_3 = λ lt. absurd (omega (arith, lt));
}
store_args-Agrees (suc (suc (suc zero))) ins old h k e = record {
  opcode = e;
  arg_0 = λ lt. omega (arith, k.arg_0);
  arg_1 = λ lt. omega (arith, k.arg_1);
  arg_2 = λ lt. omega (arith, k.arg_2);
  arg_3 = λ lt. absurd (omega (arith, lt));
}
store_args-Agrees (suc (suc (suc (suc zero)))) ins old h k e = record {
  opcode = e;
  arg_0 = λ lt. omega (arith, k.arg_0);
  arg_1 = λ lt. omega (arith, k.arg_1);
  arg_2 = λ lt. omega (arith, k.arg_2);
  arg_3 = λ lt. omega (arith, k.arg_3);
}
store_args-Agrees (suc (suc (suc (suc (suc n))))) ins old h k e = absurd (omega (arith, h))

-- The instructions from `i` on agree with the program `l`.
abbrev pub AgreeFrom : List Inst → ℕ → List Inst → Type 0
AgreeFrom text i l =
    (j : ℕ) (ins : Inst)
    → get_elem? l j ≡ some ins
    → (ins' : Inst) × (get_elem? text (j + i) ≡ some ins')
      × Agrees (operand_count ins.opcode) ins ins'
