-- ===== src/Loader/Written.antt =====
-- What one round of the loop of `load` writes.
use os_to_read.Base.{ℕ, zero, suc, ◌%◌, ◌^◌, ◌<◌, ◌≡◌, refl, some, List, [], ◌∷◌, ◌∙◌, set, length}
use os_to_read.Base.Access.{Holds, Holds-bind, Access, ok, err, fault}
use os_to_read.Cpu.{
  Opcode, calc, alloc, free, read, write, kmalloc, kmem_cache_create, kmem_cache_alloc,
  copy_from_user, copy_to_user, syscall, other, Inst,
}
use os_to_read.Loader.{
  Stdio, Loading, set_arg, store_args, read_line, scan_args, scan_line, scan_inst,
}
use os_to_read.Loader.Names.{opcode_name}

-- The name of the opcode fits `opcode[10]`.
abbrev pub IsLoadable : Opcode → Type 0
IsLoadable op = (w : List ℕ) × (opcode_name op ≡ some w) × (length w < 10)

set_arg-opcode : (k v : ℕ) (ins : Inst) → (set_arg k v ins).opcode ≡ ins.opcode
unfolding set_arg
set_arg-opcode zero v ins = refl
set_arg-opcode (suc zero) v ins = refl
set_arg-opcode (suc (suc zero)) v ins = refl
set_arg-opcode (suc (suc (suc k))) v ins = refl

store_args-opcode :
    (n k : ℕ) (vs : List ℕ) (ins : Inst) → (store_args n k vs ins).opcode ≡ ins.opcode
unfolding store_args
store_args-opcode zero k vs ins = refl
store_args-opcode (suc n) k [] ins = refl
store_args-opcode (suc n) k (v ∷ vs) ins =
    store_args-opcode n (suc k) vs (set_arg k (v % 2 ^ 64) ins) ∙ set_arg-opcode k (v % 2 ^ 64) ins

-- `s'` is `s` with an instruction that has the opcode `op` at `i`, and a later file.
pub record Written {F : Type 0} (s : Loading F) (i : ℕ) (op : Opcode) (s' : Loading F)
    : Type 0 where
  pub inst : Inst
  pub stored : s'.text ≡ set s.text i inst
  pub named : inst.opcode ≡ op
  pub kept : s'.opcode ≡ s.opcode

module _ {F : Type 0} (io : Stdio F) where
  scan_args-Written :
      (n : ℕ) (s : Loading F) (i : ℕ) (ins : Inst)
      → Holds (Written s i ins.opcode) (scan_args io n s i ins)
  unfolding scan_args
  scan_args-Written n s i ins =
      let vs = (io.fscanf_arg n s.file).0 in
      record {
        inst = store_args n 0 vs ins;
        stored = refl;
        named = store_args-opcode n 0 vs ins;
        kept = refl;
      }

  scan_line-Written :
      (s : Loading F) (i : ℕ) (ins : Inst) → Holds (Written s i ins.opcode) (scan_line io s i ins)
  unfolding scan_line
  scan_line-Written s i ins =
      Holds-bind (λ l. Unit) (Written s i ins.opcode) (read_line (io.fgets 200 s.file).0 s.buf) _
        (any (read_line (io.fgets 200 s.file).0 s.buf))
        (λ l e. record {
          inst = store_args 4 0 (io.sscanf_arg 4 l) ins;
          stored = refl;
          named = store_args-opcode 4 0 (io.sscanf_arg 4 l) ins;
          kept = refl;
        })
    where
      any : (r : Access (List ℕ)) → Holds (λ l. Unit {0}) r
      any (ok l) = tt
      any err = tt
      any fault = tt

  pub scan_inst-Written :
      (s : Loading F) (i : ℕ) (ins : Inst) (op : Opcode)
      → Holds (Written s i ins.opcode) (scan_inst io s i ins op)
  unfolding scan_inst
  scan_inst-Written s i ins calc = record { inst = ins; stored = refl; named = refl; kept = refl }
  scan_inst-Written s i ins copy_from_user = scan_line-Written s i ins
  scan_inst-Written s i ins copy_to_user = scan_line-Written s i ins
  scan_inst-Written s i ins syscall = scan_line-Written s i ins
  scan_inst-Written s i ins (other k) = tt
  scan_inst-Written s i ins kmem_cache_alloc = scan_args-Written _ s i ins
  scan_inst-Written s i ins kmalloc = scan_args-Written _ s i ins
  scan_inst-Written s i ins alloc = scan_args-Written _ s i ins
  scan_inst-Written s i ins free = scan_args-Written _ s i ins
  scan_inst-Written s i ins kmem_cache_create = scan_args-Written _ s i ins
  scan_inst-Written s i ins read = scan_args-Written _ s i ins
  scan_inst-Written s i ins write = scan_args-Written _ s i ins
