-- ===== src/Loader/Tokens.antt =====
-- A standard library over files of words, numbers and line ends, for the tests.
use os_to_read.Base.{
  ℕ, zero, suc, ◌≡◌, refl, Option, none, some, List, [], ◌∷◌, ◌⊎◌, inl, inr, ap, ◌∙◌,
}
use os_to_read.Cpu.{
  Opcode, calc, alloc, free, read, write, kmalloc, kmem_cache_create, kmem_cache_alloc,
  copy_from_user, copy_to_user, syscall, other, Inst,
}
use os_to_read.Loader.{Stdio, arity}
use os_to_read.Loader.Names.{opcode_name}
use os_to_read.Loader.Printed.{operands, operand_count, Prints}

pub data Token : Type 0 where
  word : List ℕ → Token
  num : ℕ → Token
  newline : Token

abbrev pub File : Type 0
File = List Token

abbrev pub next_word : File → Option (List ℕ) × File
next_word [] = (none, [])
next_word (word w ∷ f) = (some w, f)
next_word (num v ∷ f) = (none, num v ∷ f)
next_word (newline ∷ f) = next_word f

abbrev pub take_nums : ℕ → File → List ℕ × File
take_nums zero f = ([], f)
take_nums (suc n) [] = ([], [])
take_nums (suc n) (num v ∷ f) = let r = take_nums n f in (v ∷ r.0, r.1)
take_nums (suc n) (word w ∷ f) = ([], word w ∷ f)
take_nums (suc n) (newline ∷ f) = ([], newline ∷ f)

-- The line is kept as its numbers.
abbrev pub line_nums : File → List ℕ × File
line_nums [] = ([], [])
line_nums (num v ∷ f) = let r = line_nums f in (v ∷ r.0, r.1)
line_nums (word w ∷ f) = ([], word w ∷ f)
line_nums (newline ∷ f) = ([], f)

abbrev pub stdio : File → Stdio File
stdio file = record {
  fopen = λ path. some file;
  fscanf_u = take_nums;
  fscanf_s = next_word;
  fscanf_arg = take_nums;
  fgets = λ n f. (some (line_nums f).0, (line_nums f).1);
  sscanf_arg = λ n l. l;
}

abbrev pub nums : List ℕ → File → File
nums [] f = f
nums (v ∷ vs) f = num v ∷ nums vs f

abbrev pub text_of : Option (List ℕ) → List ℕ
text_of none = []
text_of (some w) = w

abbrev pub print_args : Inst → File → File
print_args ins f = nums (operands (operand_count ins.opcode) ins) (newline ∷ f)

abbrev pub print : List Inst → File
print [] = []
print (ins ∷ l) = word (text_of (opcode_name ins.opcode)) ∷ print_args ins (print l)

abbrev pub At : File → List Inst → Type 0
At f l = (f ≡ print l) ⊎ (f ≡ newline ∷ print l)

abbrev pub Inside : File → Inst → List Inst → Type 0
Inside f ins l = f ≡ print_args ins (print l)

take_nums-nums :
    (n : ℕ) (ins : Inst) (f : File)
    → take_nums n (nums (operands n ins) (newline ∷ f)) ≡ (operands n ins, newline ∷ f)
take_nums-nums zero ins f = refl
take_nums-nums (suc zero) ins f = refl
take_nums-nums (suc (suc zero)) ins f = refl
take_nums-nums (suc (suc (suc zero))) ins f = refl
take_nums-nums (suc (suc (suc (suc zero)))) ins f = refl
take_nums-nums (suc (suc (suc (suc (suc n))))) ins f = refl

arity-operand_count : (op : Opcode) (n : ℕ) → arity op ≡ suc n → operand_count op ≡ suc n
unfolding arity
arity-operand_count calc n e = absurd (cc e)
arity-operand_count alloc n e = e
arity-operand_count free n e = e
arity-operand_count read n e = e
arity-operand_count write n e = e
arity-operand_count kmalloc n e = e
arity-operand_count kmem_cache_create n e = e
arity-operand_count kmem_cache_alloc n e = e
arity-operand_count copy_from_user n e = absurd (cc e)
arity-operand_count copy_to_user n e = absurd (cc e)
arity-operand_count syscall n e = absurd (cc e)
arity-operand_count (other k) n e = absurd (cc e)

next_word-At :
    (f : File) (ins : Inst) (l : List Inst)
    → At f (ins ∷ l)
    → next_word f ≡ (some (text_of (opcode_name ins.opcode)), print_args ins (print l))
next_word-At f ins l (inl e) = ap next_word e
next_word-At f ins l (inr e) = ap next_word e

pub stdio-Prints : (file : File) → Prints (stdio file) At Inside
stdio-Prints file = record {
  name = λ f ins l w at named. (
    print_args ins (print l),
    next_word-At f ins l at ∙ ap (λ o. (some (text_of o), print_args ins (print l))) named,
    refl,
  );
  nothing = λ f ins l o inside.
      inr (inside ∙ ap (λ op. nums (operands (operand_count op) ins) (newline ∷ print l)) o);
  args = λ f ins l n a inside. (
    newline ∷ print l,
    ap (take_nums (suc n)) (
          inside
          ∙ ap (λ k. nums (operands k ins) (newline ∷ print l))
              (arity-operand_count ins.opcode n a))
        ∙ take_nums-nums (suc n) ins (print l),
    inr refl,
  );
  line = λ f ins l o inside.
      let read_off : line_nums f ≡ (operands 4 ins, print l) =
        ap line_nums
          (inside ∙ ap (λ op. nums (operands (operand_count op) ins) (newline ∷ print l)) o) in
      (operands 4 ins, print l, ap (λ r. (some r.0, r.1)) read_off, refl, inl refl);
}
