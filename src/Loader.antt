-- ===== src/Loader.antt =====
-- src/loader.c: a process made from the text of its program. `err` stands for `exit(1)`, `fault` for a
-- word that is longer than the array it is read into, and for an array that is read before it is set.
pub mod Names
pub mod Written
pub mod Text
pub mod Printed
pub mod Reads
pub mod Round
mod Tokens
mod Tests
use Prim.Native.Char.{code}
use Prim.Native.String.{String}
use os_to_read.Base.{
  ℕ, zero, suc, ◌+◌, ◌%◌, ◌^◌, ◌==◌, Bool, true, false, ◌&&◌, Option, none, some, List, [], ◌∷◌,
  if◌then◌else◌, ltb, get_elem?, set, length,
}
use os_to_read.Base.Access.{Access, ok, err, fault, ◌>>=◌}
use os_to_read.Cpu.{
  Opcode, calc, alloc, free, read, write, kmalloc, kmem_cache_create, kmem_cache_alloc,
  copy_from_user, copy_to_user, syscall, other, Inst, CodeSeg, Pcb,
}

abbrev pub codes : String → List ℕ
codes String.[] = []
codes (String.◌∷◌ c s) = code c ∷ codes s

-- `!strcmp(a, b)`, for the characters before the terminating 0.
pub same : List ℕ → List ℕ → Bool
same [] [] = true
same [] (y ∷ ys) = false
same (x ∷ xs) [] = false
same (x ∷ xs) (y ∷ ys) = (x == y) && same xs ys

pub get_opcode : List ℕ → Access Opcode
unfolding same
get_opcode opt =
    if same opt (codes "calc")
    then ok calc
    else if same opt (codes "alloc")
    then ok alloc
    else if same opt (codes "free")
    then ok free
    else if same opt (codes "read")
    then ok read
    else if same opt (codes "write")
    then ok write
    else if same opt (codes "kmalloc")
    then ok kmalloc
    else if same opt (codes "kmem_cache_create")
    then ok kmem_cache_create
    else if same opt (codes "kmem_cache_alloc")
    then ok kmem_cache_alloc
    else if same opt (codes "copy_from_user")
    then ok copy_from_user
    else if same opt (codes "copy_to_user")
    then ok copy_to_user
    else if same opt (codes "syscall")
    then ok syscall
    else err

-- The calls of the standard library, on a stream of type `F`. A formatted read gives the values it has
-- converted, which may be fewer than asked for; a word or a line is missing at the end of the file.
pub record Stdio (F : Type 0) : Type 0 where
  pub fopen : List ℕ → Option F
  pub fscanf_u : ℕ → F → List ℕ × F
  pub fscanf_s : F → Option (List ℕ) × F
  pub fscanf_arg : ℕ → F → List ℕ × F
  pub fgets : ℕ → F → Option (List ℕ) × F
  pub sscanf_arg : ℕ → List ℕ → List ℕ

-- What `malloc` and the stack hold before they are written.
pub record Garbage : Type 0 where
  pub priority : ℕ
  pub prio : ℕ
  pub size : ℕ
  pub text : ℕ → List Inst

-- The local variables of the loop, and the instructions.
pub record Loading (F : Type 0) : Type 0 where
  pub file : F
  pub opcode : Option (List ℕ)
  pub buf : Option (List ℕ)
  pub text : List Inst

pub set_arg : ℕ → ℕ → Inst → Inst
set_arg zero v ins = record ins { arg_0 = v }
set_arg (suc zero) v ins = record ins { arg_1 = v }
set_arg (suc (suc zero)) v ins = record ins { arg_2 = v }
set_arg (suc (suc (suc k))) v ins = record ins { arg_3 = v }

-- At most `n` converted values, stored from the argument `k` on.
pub store_args : ℕ → ℕ → List ℕ → Inst → Inst
unfolding set_arg
store_args zero k vs ins = ins
store_args (suc n) k [] ins = ins
store_args (suc n) k (v ∷ vs) ins = store_args n (suc k) vs (set_arg k (v % 2 ^ 64) ins)

-- The word that was read fits `opcode[10]` with its terminating 0, or no word was read and the array
-- keeps what it had.
pub read_word : Option (List ℕ) → Option (List ℕ) → Access (List ℕ)
read_word (some w) old = if ltb (length w) 10 then ok w else fault
read_word none (some w) = ok w
read_word none none = fault

-- `fgets` leaves the array alone at the end of the file.
pub read_line : Option (List ℕ) → Option (List ℕ) → Access (List ℕ)
read_line (some l) old = ok l
read_line none (some l) = ok l
read_line none none = fault

-- How many arguments `fscanf` reads for an opcode.
pub arity : Opcode → ℕ
arity kmem_cache_alloc = 2
arity kmalloc = 2
arity alloc = 2
arity free = 1
arity kmem_cache_create = 3
arity read = 3
arity write = 3
arity op = 0

-- The first line: `priority` and `size`.
unfoldable pub read_header : List ℕ → Garbage → ℕ × ℕ
read_header [] g = (g.priority, g.size % 2 ^ 32)
read_header (p ∷ []) g = (p % 2 ^ 32, g.size % 2 ^ 32)
read_header (p ∷ n ∷ vs) g = (p % 2 ^ 32, n % 2 ^ 32)

module _ {F : Type 0} (io : Stdio F) where
  -- `fscanf` for the arguments, into the instruction at `i`.
  pub scan_args : ℕ → Loading F → ℕ → Inst → Access (Loading F)
  unfolding store_args
  scan_args n s i ins =
      let r = io.fscanf_arg n s.file in
      ok (record s { file = r.1; text = set s.text i (store_args n 0 r.0 ins) })

  -- `fgets` and `sscanf`.
  pub scan_line : Loading F → ℕ → Inst → Access (Loading F)
  unfolding store_args read_line
  scan_line s i ins =
      let r = io.fgets 200 s.file in
      do
        l ← read_line r.0 s.buf
        ok (record s {
          file = r.1;
          buf = some l;
          text = set s.text i (store_args 4 0 (io.sscanf_arg 4 l) ins);
        })

  -- The `switch` of the loop.
  pub scan_inst : Loading F → ℕ → Inst → Opcode → Access (Loading F)
  unfolding scan_args scan_line arity
  scan_inst s i ins calc = ok (record s { text = set s.text i ins })
  scan_inst s i ins copy_from_user = scan_line s i ins
  scan_inst s i ins copy_to_user = scan_line s i ins
  scan_inst s i ins syscall = scan_line s i ins
  scan_inst s i ins (other k) = err
  scan_inst s i ins op = scan_args (arity op) s i ins

  pub read_inst : Loading F → ℕ → Option Inst → Access (Loading F)
  unfolding scan_inst read_word get_opcode
  read_inst s i none = fault
  read_inst s i (some ins) =
      let r = io.fscanf_s s.file in
      do
        w ← read_word r.0 s.opcode
        op ← get_opcode w
        scan_inst (record s { file = r.1; opcode = some w }) i (record ins { opcode = op }) op

  -- `n` rounds of the loop, from the instruction `i` on.
  unfoldable pub read_insts : ℕ → ℕ → Loading F → Access (Loading F)
  unfolding read_inst
  read_insts zero i s = ok s
  read_insts (suc n) i s = do s' ← read_inst s i (get_elem? s.text i); read_insts n (suc i) s'

  unfoldable pub load_from : F → Garbage → ℕ → Access (Pcb × ℕ)
  unfolding read_insts read_header
  load_from file g avail_pid =
      let r = io.fscanf_u 2 file in
      let h = read_header r.0 g in
      do
        s ← read_insts h.1 0 (record { file = r.1; opcode = none; buf = none; text = g.text h.1 })
        ok (
          record {
            pid = avail_pid;
            priority = h.0;
            prio = g.prio;
            code = record { text = s.text; size = h.1 };
            pc = 0;
          },
          (avail_pid + 1) % 2 ^ 32,
        )

  -- The process and the next `avail_pid`.
  unfoldable pub load : List ℕ → Garbage → ℕ → Access (Pcb × ℕ)
  unfolding load_from
  load path g avail_pid = elim (io.fopen path) [
    | none ↦ err
    | some file ↦ load_from file g avail_pid
  ]
