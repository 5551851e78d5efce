-- ===== src/Loader/Text.antt =====
-- What holds of every process that `load` returns.
use os_to_read.Base.{
  ℕ, zero, suc, ◌+◌, ◌%◌, ◌^◌, ◌<◌, ◌≡◌, refl, Option, none, some, List, [], ◌∷◌, ◌⊎◌, inl, inr,
  Option-cases, subst, ap, ◌∙◌, arith, get_elem?, length, length-set,
}
use os_to_read.Base.Access.{Holds, Holds-bind, Holds-map, Holds-self, ok, fault}
use os_to_read.Cpu.{Inst, Pcb}
use os_to_read.Cpu.Run.{IsLoaded, run_times, run_times_lem}
use os_to_read.Libmem.{Caller}
use os_to_read.Loader.{
  get_opcode, Stdio, Garbage, Loading, read_word, scan_inst, read_inst, read_insts, read_header,
  load_from, load,
}
use os_to_read.Loader.Written.{Written, scan_inst-Written}

module _ {F : Type 0} (io : Stdio F) where
  length-read_inst :
      (i : ℕ) (s : Loading F) (o : Option Inst)
      → Holds (λ s'. length s'.text ≡ length s.text) (read_inst io s i o)
  unfolding read_inst
  length-read_inst i s none = tt
  length-read_inst i s (some old) =
      let r = io.fscanf_s s.file in
      let Whole : Loading F → Type 0 = λ s'. length s'.text ≡ length s.text in
      Holds-bind (λ w. read_word r.0 s.opcode ≡ ok w) Whole (read_word r.0 s.opcode) _
        (Holds-self (read_word r.0 s.opcode))
        (λ w got.
          Holds-bind (λ op. get_opcode w ≡ ok op) Whole (get_opcode w) _ (Holds-self (get_opcode w))
            (λ op named.
              let s1 : Loading F = record s { file = r.1; opcode = some w } in
              Holds-map (Written s1 i op) Whole (scan_inst io s1 i (record old { opcode = op }) op)
                (scan_inst-Written io s1 i (record old { opcode = op }) op)
                (λ s' written. ap length written.stored ∙ length-set s.text i written.inst)))

  length-read_insts :
      (k i : ℕ) (s : Loading F) → Holds (λ s'. length s'.text ≡ length s.text) (read_insts io k i s)
  unfolding read_insts
  length-read_insts zero i s = refl
  length-read_insts (suc k) i s =
      let Whole : Loading F → Type 0 = λ s'. length s'.text ≡ length s.text in
      Holds-bind Whole Whole (read_inst io s i (get_elem? s.text i)) _
        (length-read_inst i s (get_elem? s.text i))
        (λ s' h'.
          Holds-map (λ s''. length s''.text ≡ length s'.text) Whole (read_insts io k (suc i) s')
            (length-read_insts k (suc i) s') (λ s'' h''. h'' ∙ h'))

-- A process as `load` makes it: at the start of its code, which has as many instructions as it says.
pub record IsFresh (avail_pid : ℕ) (r : Pcb × ℕ) : Type 0 where
  pub loaded : IsLoaded r.0
  pub at_start : r.0.pc ≡ 0
  pub pid : r.0.pid ≡ avail_pid
  pub next_pid : r.1 ≡ (avail_pid + 1) % 2 ^ 32

read_header-size : (vs : List ℕ) (g : Garbage) → (read_header vs g).1 < 2 ^ 32
unfolding read_header
read_header-size [] g = omega arith
read_header-size (p ∷ []) g = omega arith
read_header-size (p ∷ n ∷ vs) g = omega arith

module _ {F : Type 0} (io : Stdio F) (g : Garbage) where
  load_from-IsFresh :
      (file : F) (avail_pid : ℕ)
      → ((n : ℕ) → length (g.text n) ≡ n)
      → Holds (IsFresh avail_pid) (load_from io file g avail_pid)
  unfolding load_from
  load_from-IsFresh file avail_pid room =
      let r = io.fscanf_u 2 file in
      let h = read_header r.0 g in
      let start : Loading F = record { file = r.1; opcode = none; buf = none; text = g.text h.1 } in
      Holds-bind (λ s. length s.text ≡ length (g.text h.1)) (IsFresh avail_pid)
        (read_insts io h.1 0 start) _ (length-read_insts io h.1 0 start)
        (λ s k. record {
          loaded = (k ∙ room h.1, read_header-size r.0 g);
          at_start = refl;
          pid = refl;
          next_pid = refl;
        })

  -- The memory of the instructions is as large as was asked for; its contents are any.
  load-IsFresh :
      (path : List ℕ) (avail_pid : ℕ)
      → ((n : ℕ) → length (g.text n) ≡ n)
      → Holds (IsFresh avail_pid) (load io path g avail_pid)
  unfolding load
  load-IsFresh path avail_pid room = elim (Option-cases (io.fopen path)) [
    | inl missing ↦ rw (missing, Holds) tt
    | inr (file, found) ↦ rw (found, Holds) (load_from-IsFresh file avail_pid room)
  ]

-- From the file to the end of the program: when `load` returns a process, as many calls of `run` as its
-- code has instructions bring its program counter to the end, unless one reaches an invalid address.
pub load-run_times :
    {F : Type 0} (io : Stdio F) (g : Garbage) (path : List ℕ) (avail_pid next_pid : ℕ) (p : Pcb)
    (c : Caller)
    → ((n : ℕ) → length (g.text n) ≡ n)
    → load io path g avail_pid ≡ ok (p, next_pid)
    → (run_times p.code.size p c ≡ fault)
      ⊎ ((c' : Caller) × (run_times p.code.size p c ≡ ok (record p { pc = p.code.size }, c')))
load-run_times io g path avail_pid next_pid p c room e =
    let k : IsFresh avail_pid (p, next_pid) =
      subst (Holds (IsFresh avail_pid)) e (load-IsFresh io g path avail_pid room) in
    run_times_lem p.code.size p c k.loaded (omega (arith, k.at_start))
