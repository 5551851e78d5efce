-- ===== src/Loader/Round.antt =====
-- A program that is written out in the format of `load` comes back from the file.
use os_to_read.Base.{
  get_elem?-in, ℕ, zero, suc, ◌+◌, ◌%◌, ◌^◌, ◌<◌, ◌≡◌, refl, none, some, List, [], ◌∷◌, subst, ap,
  ◌∙◌, arith, get_elem?, length, length-set, get_elem?-set_self, get_elem?-set_ne,
}
use os_to_read.Base.Access.{ok}
use os_to_read.Cpu.{Inst, Pcb}
use os_to_read.Loader.{Stdio, Garbage, Loading, read_insts, read_header, load_from, load}
use os_to_read.Loader.Reads.{read_inst-ReadsTo}
use os_to_read.Loader.Printed.{Agrees, operand_count, ArePrintable, Prints, AgreeFrom}

module _ {F : Type 0} (io : Stdio F) (At : F → List Inst → Type 0)
    (Inside : F → Inst → List Inst → Type 0) where
  -- What the rounds from `i` on do to the instructions.
  record IsRead (text : List Inst) (i : ℕ) (l : List Inst) (s' : Loading F) : Type 0 where
    whole : length s'.text ≡ length text
    earlier : (j : ℕ) → j < i → get_elem? s'.text j ≡ get_elem? text j
    agree : AgreeFrom s'.text i l

  read_insts-IsRead :
      (l : List Inst) (i : ℕ) (s : Loading F)
      → Prints io At Inside
      → ArePrintable l
      → At s.file l
      → length s.text ≡ i + length l
      → (s' : Loading F) × (read_insts io (length l) i s ≡ ok s') × IsRead s.text i l s'
  unfolding read_insts
  read_insts-IsRead [] i s p k at room =
      (s, refl, record { whole = refl; earlier = λ j lt. refl; agree = λ j ins e. absurd (cc e) })
  read_insts-IsRead (ins ∷ l) i s p k at room =
      let here : i < length s.text = omega (arith, room) in
      let (old, found) = get_elem?-in s.text i here in
      let (s1, new, e, stored, same, at') = read_inst-ReadsTo io At Inside s i ins old l p k.0 at in
      let whole : length s1.text ≡ length s.text = ap length stored ∙ length-set s.text i new in
      let rest = read_insts-IsRead l (suc i) s1 p k.1 at' (omega (arith, whole, room)) in
      (
        rest.0,
        rw (found, e) rest.1,
        record {
          whole = rest.2.whole ∙ whole;
          earlier = λ j lt.
              rest.2.earlier j (omega (arith, lt))
              ∙ ap (λ t. get_elem? t j) stored
              ∙ get_elem?-set_ne s.text new (λ (eq : i ≡ j). omega (arith, lt, eq));
          agree =
              after rest.0 s1 new
                (rest.2.earlier i (omega arith)
                  ∙ ap (λ t. get_elem? t i) stored
                  ∙ get_elem?-set_self s.text i new here)
                same rest.2.agree;
        },
      )
    where
      after :
          (s' s1 : Loading F) (new : Inst)
          → get_elem? s'.text i ≡ some new
          → Agrees (operand_count ins.opcode) ins new
          → AgreeFrom s'.text (suc i) l
          → AgreeFrom s'.text i (ins ∷ l)
      after s' s1 new e same agree zero x g =
          let first : ins ≡ x = cc g in
          (
            new,
            ap (get_elem? s'.text) (omega arith) ∙ e,
            subst (λ y. Agrees (operand_count y.opcode) y new) first same,
          )
      after s' s1 new e same agree (suc j) x g =
          let (x', at, eq) = agree j x g in (x', ap (get_elem? s'.text) (omega arith) ∙ at, eq)

load_from-read_insts :
    {F : Type 0} (io : Stdio F) (g : Garbage) (avail_pid priority n : ℕ) (file body : F)
    (s' : Loading F)
    → io.fscanf_u 2 file ≡ (priority ∷ n ∷ [], body)
    → n < 2 ^ 32
    → read_insts io n 0 (record { file = body; opcode = none; buf = none; text = g.text n }) ≡ ok s'
    → load_from io file g avail_pid
      ≡ ok (
        record {
          pid = avail_pid;
          priority = priority % 2 ^ 32;
          prio = g.prio;
          code = record { text = s'.text; size = n };
          pc = 0;
        },
        (avail_pid + 1) % 2 ^ 32,
      )
unfolding load_from read_header
load_from-read_insts io g avail_pid priority n file body s' header fits result =
    let size : n % 2 ^ 32 ≡ n = omega (arith, fits) in rw (header, size, result) refl

-- A file in the format of `load`, whose instructions all have an opcode with a name that fits, gives a
-- process with the priority of its first line and with its instructions: the same number, in the same
-- order, with the same opcodes and operands.
pub load-Prints :
    {F : Type 0} (io : Stdio F) (At : F → List Inst → Type 0)
    (Inside : F → Inst → List Inst → Type 0) (g : Garbage) (path : List ℕ) (avail_pid priority : ℕ)
    (file body : F) (l : List Inst)
    → Prints io At Inside
    → ((n : ℕ) → length (g.text n) ≡ n)
    → io.fopen path ≡ some file
    → io.fscanf_u 2 file ≡ (priority ∷ length l ∷ [], body)
    → At body l
    → priority < 2 ^ 32
    → length l < 2 ^ 32
    → ArePrintable l
    → (p : Pcb) × (load io path g avail_pid ≡ ok (p, (avail_pid + 1) % 2 ^ 32))
      × (p.priority ≡ priority)
      × (p.code.size ≡ length l)
      × (length p.code.text ≡ length l)
      × AgreeFrom p.code.text 0 l
unfolding load
load-Prints io At Inside g path avail_pid priority file body l p room opened header at small fits
      k =
    let start : Loading _ = record {
      file = body;
      opcode = none;
      buf = none;
      text = g.text (length l);
    } in
    let (s', result, done) =
      read_insts-IsRead io At Inside l 0 start p k at (omega (arith, room (length l))) in
    (
      record {
        pid = avail_pid;
        priority = priority % 2 ^ 32;
        prio = g.prio;
        code = record { text = s'.text; size = length l };
        pc = 0;
      },
      rw (opened, load)
          (load_from-read_insts io g avail_pid priority (length l) file body s' header fits result),
      omega (arith, small),
      refl,
      done.whole ∙ room (length l),
      done.agree,
    )
