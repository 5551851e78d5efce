-- ===== src/Loader/Reads.antt =====
-- One round of the loop of `load` on a program in its format.
use os_to_read.Base.{
  ℕ, suc, ◌≤◌, ◌<◌, ◌≡◌, refl, Option, some, List, ◌∷◌, ap, arith, set, length, lt→ltb,
}
use os_to_read.Base.Access.{Access, ok}
use os_to_read.Cpu.{
  Opcode, calc, alloc, free, read, write, kmalloc, kmem_cache_create, kmem_cache_alloc,
  copy_from_user, copy_to_user, syscall, other, Inst,
}
use os_to_read.Loader.{
  Stdio, Loading, store_args, read_word, read_line, arity, scan_args, scan_line, scan_inst,
  read_inst,
}
use os_to_read.Loader.Names.{get_opcode-name}
use os_to_read.Loader.Written.{IsLoadable}
use os_to_read.Loader.Printed.{
  operands, Agrees, operand_count, IsPrintable, Prints, store_args-Agrees,
}

too_long :
    (v w : List ℕ) → ◌≡◌ {A = Option (List ℕ)} (some v) (some w) → length w < 10 → 10 ≤ length v → ⊥
too_long v w e short long =
    let same_word : w ≡ v = cc in omega (arith, ap length same_word, short, long)

module _ {F : Type 0} (io : Stdio F) (At : F → List Inst → Type 0)
    (Inside : F → Inst → List Inst → Type 0) where
  -- The round for `ins` ends before the instructions `l` and has stored one that agrees with it at `i`.
  abbrev pub ReadsTo : List Inst → ℕ → ℕ → Inst → List Inst → Access (Loading F) → Type 0
  ReadsTo text i n ins l r =
      (s' : Loading F) × (new : Inst) × (r ≡ ok s')
      × (s'.text ≡ set text i new)
      × Agrees n ins new
      × At s'.file l

  scan_args-ReadsTo :
      (s : Loading F) (i n : ℕ) (ins old : Inst) (l : List Inst)
      → Prints io At Inside
      → suc n ≤ 4
      → arity ins.opcode ≡ suc n
      → old.opcode ≡ ins.opcode
      → IsPrintable ins
      → Inside s.file ins l
      → ReadsTo s.text i (suc n) ins l (scan_args io (suc n) s i old)
  unfolding scan_args
  scan_args-ReadsTo s i n ins old l p le a e k inside =
      let (f', scanned, at) = p.args s.file ins l n a inside in
      let new : Inst = store_args (suc n) 0 (operands (suc n) ins) old in
      (
        record s { file = f'; text = set s.text i new },
        new,
        rw scanned refl,
        refl,
        store_args-Agrees (suc n) ins old le k e,
        at,
      )

  scan_line-ReadsTo :
      (s : Loading F) (i : ℕ) (ins old : Inst) (l : List Inst)
      → Prints io At Inside
      → ins.opcode ≡ syscall
      → old.opcode ≡ ins.opcode
      → IsPrintable ins
      → Inside s.file ins l
      → ReadsTo s.text i 4 ins l (scan_line io s i old)
  unfolding scan_line read_line
  scan_line-ReadsTo s i ins old l p a e k inside =
      let (t, f', scanned, converted, at) = p.line s.file ins l a inside in
      let new : Inst = store_args 4 0 (operands 4 ins) old in
      (
        record s { file = f'; buf = some t; text = set s.text i new },
        new,
        rw (scanned, converted) refl,
        refl,
        store_args-Agrees 4 ins old (omega arith) k e,
        at,
      )

  scan_inst-ReadsTo :
      (s : Loading F) (i : ℕ) (ins old : Inst) (l : List Inst) (op : Opcode)
      → Prints io At Inside
      → ins.opcode ≡ op
      → IsLoadable op
      → old.opcode ≡ ins.opcode
      → IsPrintable ins
      → Inside s.file ins l
      → ReadsTo s.text i (operand_count op) ins l (scan_inst io s i old op)
  unfolding scan_inst arity
  scan_inst-ReadsTo s i ins old l calc p o able e k inside = (
    record s { text = set s.text i old },
    old,
    refl,
    refl,
    unfold store_args in store_args-Agrees 0 ins old (omega arith) k e,
    p.nothing s.file ins l o inside,
  )
  scan_inst-ReadsTo s i ins old l alloc p o able e k inside =
      scan_args-ReadsTo s i 1 ins old l p (omega arith) (ap arity o) e k inside
  scan_inst-ReadsTo s i ins old l free p o able e k inside =
      scan_args-ReadsTo s i 0 ins old l p (omega arith) (ap arity o) e k inside
  scan_inst-ReadsTo s i ins old l read p o able e k inside =
      scan_args-ReadsTo s i 2 ins old l p (omega arith) (ap arity o) e k inside
  scan_inst-ReadsTo s i ins old l write p o able e k inside =
      scan_args-ReadsTo s i 2 ins old l p (omega arith) (ap arity o) e k inside
  scan_inst-ReadsTo s i ins old l kmalloc p o able e k inside =
      scan_args-ReadsTo s i 1 ins old l p (omega arith) (ap arity o) e k inside
  scan_inst-ReadsTo s i ins old l syscall p o able e k inside =
      scan_line-ReadsTo s i ins old l p o e k inside
  scan_inst-ReadsTo s i ins old l kmem_cache_create p o able e k inside =
      absurd (too_long _ able.0 able.1 able.2 (omega arith))
  scan_inst-ReadsTo s i ins old l kmem_cache_alloc p o able e k inside =
      absurd (too_long _ able.0 able.1 able.2 (omega arith))
  scan_inst-ReadsTo s i ins old l copy_from_user p o able e k inside =
      absurd (too_long _ able.0 able.1 able.2 (omega arith))
  scan_inst-ReadsTo s i ins old l copy_to_user p o able e k inside =
      absurd (too_long _ able.0 able.1 able.2 (omega arith))
  scan_inst-ReadsTo s i ins old l (other n) p o able e k inside = absurd (cc (able.1))

  pub read_inst-ReadsTo :
      (s : Loading F) (i : ℕ) (ins old : Inst) (l : List Inst)
      → Prints io At Inside
      → IsPrintable ins
      → At s.file (ins ∷ l)
      → ReadsTo s.text i (operand_count ins.opcode) ins l (read_inst io s i (some old))
  unfolding read_inst read_word
  read_inst-ReadsTo s i ins old l p k at =
      let (w, named, short) = k.loadable in
      let (f', scanned, inside) = p.name s.file ins l w at named in
      let found = get_opcode-name ins.opcode w named in
      let fits = lt→ltb (length w) 10 short in
      let s1 : Loading F = record s { file = f'; opcode = some w } in
      rw (scanned, fits, found)
        (scan_inst-ReadsTo s1 i ins (record old { opcode = ins.opcode }) l ins.opcode p refl
          k.loadable refl k inside)
