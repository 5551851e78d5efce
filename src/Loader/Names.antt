-- ===== src/Loader/Names.antt =====
-- The names of the opcodes: `get_opcode` against a table.
use os_to_read.Base.{
  ◌↔◌, ℕ, ◌==◌, ◌≡◌, ◌≢◌, refl, true, Option, none, some, List, [], ◌∷◌, inl, inr, if◌then◌else◌,
  Bool-cases, subst, sym, ap, ◌∙◌, arith,
}
use os_to_read.Base.Access.{Access, ok, err, fault}
use os_to_read.Cpu.{
  Opcode, calc, alloc, free, read, write, kmalloc, kmem_cache_create, kmem_cache_alloc,
  copy_from_user, copy_to_user, syscall, other,
}
use os_to_read.Loader.{codes, same, get_opcode}

-- The text that stands for an opcode in a program.
abbrev pub opcode_name : Opcode → Option (List ℕ)
opcode_name calc = some (codes "calc")
opcode_name alloc = some (codes "alloc")
opcode_name free = some (codes "free")
opcode_name read = some (codes "read")
opcode_name write = some (codes "write")
opcode_name kmalloc = some (codes "kmalloc")
opcode_name kmem_cache_create = some (codes "kmem_cache_create")
opcode_name kmem_cache_alloc = some (codes "kmem_cache_alloc")
opcode_name copy_from_user = some (codes "copy_from_user")
opcode_name copy_to_user = some (codes "copy_to_user")
opcode_name syscall = some (codes "syscall")
opcode_name (other k) = none

same-eq : (a b : List ℕ) → same a b ≡ true → a ≡ b
unfolding same
same-eq [] [] e = refl
same-eq [] (y ∷ ys) e = absurd (cc e)
same-eq (x ∷ xs) [] e = absurd (cc e)
same-eq (x ∷ xs) (y ∷ ys) e =
    let first : (x == y) ≡ true = ground (arith, e) in
    let rest : same xs ys ≡ true = ground (arith, e) in
    let head : x ≡ y = ground (arith, first) in cc (head, same-eq xs ys rest)

find_name : List (List ℕ × Opcode) → List ℕ → Access Opcode
find_name [] w = err
find_name (row ∷ rows) w = if same w row.0 then ok row.1 else find_name rows w

abbrev names : List (List ℕ × Opcode)
names =
    (codes "calc", calc)
    ∷ (codes "alloc", alloc)
    ∷ (codes "free", free)
    ∷ (codes "read", read)
    ∷ (codes "write", write)
    ∷ (codes "kmalloc", kmalloc)
    ∷ (codes "kmem_cache_create", kmem_cache_create)
    ∷ (codes "kmem_cache_alloc", kmem_cache_alloc)
    ∷ (codes "copy_from_user", copy_from_user)
    ∷ (codes "copy_to_user", copy_to_user)
    ∷ (codes "syscall", syscall)
    ∷ []

get_opcode-find_name : (w : List ℕ) → get_opcode w ≡ find_name names w
unfolding get_opcode find_name
get_opcode-find_name w = refl

abbrev AreNamed : List (List ℕ × Opcode) → Type 0
AreNamed [] = Unit {0}
AreNamed (row ∷ rows) = (opcode_name row.1 ≡ some row.0) × AreNamed rows

names-AreNamed : AreNamed names
names-AreNamed =
    (refl, (refl, (refl, (refl, (refl, (refl, (refl, (refl, (refl, (refl, (refl, tt)))))))))))

find_name_sound :
    (rows : List (List ℕ × Opcode)) (w : List ℕ) (op : Opcode)
    → AreNamed rows
    → find_name rows w ≡ ok op
    → opcode_name op ≡ some w
unfolding find_name
find_name_sound [] w op named e = absurd (cc e)
find_name_sound (row ∷ rows) w op named e = elim (Bool-cases (same w row.0)) [
  | inl hit ↦
      let first : row.1 ≡ op = cc (e, hit) in
      subst (λ o. opcode_name o ≡ some w) first (named.0 ∙ ap some (sym (same-eq w row.0 hit)))
  | inr miss ↦ find_name_sound rows w op named.1 (cc (e, miss))
]

find_name_safe : (rows : List (List ℕ × Opcode)) (w : List ℕ) → find_name rows w ≢ fault
unfolding find_name
find_name_safe [] w e = cc e
find_name_safe (row ∷ rows) w e = elim (Bool-cases (same w row.0)) [
  | inl hit ↦ absurd (cc (e, hit))
  | inr miss ↦ find_name_safe rows w (cc (e, miss))
]

at_name :
    (v w : List ℕ) (op : Opcode)
    → ◌≡◌ {A = Option (List ℕ)} (some v) (some w)
    → get_opcode v ≡ ok op
    → get_opcode w ≡ ok op
at_name v w op e h = let eq : v ≡ w = cc in subst (λ u. get_opcode u ≡ ok op) eq h

pub get_opcode-name : (op : Opcode) (w : List ℕ) → opcode_name op ≡ some w → get_opcode w ≡ ok op
unfolding get_opcode same
get_opcode-name calc w e = at_name (codes "calc") w calc e refl
get_opcode-name alloc w e = at_name (codes "alloc") w alloc e refl
get_opcode-name free w e = at_name (codes "free") w free e refl
get_opcode-name read w e = at_name (codes "read") w read e refl
get_opcode-name write w e = at_name (codes "write") w write e refl
get_opcode-name kmalloc w e = at_name (codes "kmalloc") w kmalloc e refl
get_opcode-name kmem_cache_create w e =
    at_name (codes "kmem_cache_create") w kmem_cache_create e refl
get_opcode-name kmem_cache_alloc w e = at_name (codes "kmem_cache_alloc") w kmem_cache_alloc e refl
get_opcode-name copy_from_user w e = at_name (codes "copy_from_user") w copy_from_user e refl
get_opcode-name copy_to_user w e = at_name (codes "copy_to_user") w copy_to_user e refl
get_opcode-name syscall w e = at_name (codes "syscall") w syscall e refl
get_opcode-name (other k) w e = absurd (cc e)

-- `get_opcode` is the inverse of the table of names: it returns an opcode exactly for that opcode's own
-- name, so it tells all of them apart, and for every other text it ends the program instead.
pub get_opcode_lem :
    (w : List ℕ) (op : Opcode)
    → ((get_opcode w ≡ ok op) ↔ (opcode_name op ≡ some w)) × (get_opcode w ≢ fault)
get_opcode_lem w op = (
  (
    λ e. find_name_sound names w op names-AreNamed (sym (get_opcode-find_name w) ∙ e),
    get_opcode-name op w,
  ),
  λ e. find_name_safe names w (sym (get_opcode-find_name w) ∙ e),
)
