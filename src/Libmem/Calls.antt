-- ===== src/Libmem/Calls.antt =====
-- The library calls that an instruction makes: `liballoc` to `libwrite` and the kernel memory calls of
-- src/libmem.c. Each returns its status. Arguments of type `uint32_t` lose their upper bits.
use os_to_read.Base.{ℕ, ◌≡◌, refl, ◌⊎◌, inl, inr}
use os_to_read.Base.Int.{ℤ, pos, minus_one, to_int}
use os_to_read.Mm.{Mm}
use os_to_read.Libmem.{Access, ok, err, fault, Caller, alloc, free, read, write}

-- The status 0 or -1, with the memory as it was in the second case.
pub with_status : Caller → Access Caller → Access (ℤ × Caller)
with_status c (ok c') = ok (pos 0, c')
with_status c err = ok (minus_one, c)
with_status c fault = fault

pub with_mm : Caller → Access Mm → Access Caller
with_mm c (ok mm) = ok (record c { mm = mm })
with_mm c err = err
with_mm c fault = fault

-- The address goes to a local variable of `liballoc` and is dropped.
pub kept : Access (ℕ × Mm) → Access Mm
kept (ok (addr, mm)) = ok mm
kept err = err
kept fault = fault

pub liballoc : Caller → ℕ → ℕ → Access (ℤ × Caller)
unfolding with_status with_mm kept
liballoc c size reg_index =
    with_status c (with_mm c (kept (alloc c.mm (pos 0) (to_int reg_index) size)))

pub libfree : Caller → ℕ → Access (ℤ × Caller)
unfolding with_status with_mm
libfree c reg_index = with_status c (with_mm c (free c.mm (to_int reg_index)))

-- What is read goes to the argument of a copy of the instruction, and is lost.
pub libread : Caller → ℕ → ℕ → Access (ℤ × Caller)
unfolding with_status
libread c source offset = with_status c (read c (to_int source) offset)

pub libwrite : Caller → ℕ → ℕ → Access (ℤ × Caller)
unfolding with_status
libwrite c destination offset = with_status c (write c (pos 0) (to_int destination) offset)

-- The calls on kernel memory change nothing.
pub libkmem_malloc : Caller → ℕ → ℕ → Access (ℤ × Caller)
libkmem_malloc c size reg_index = ok (pos 0, c)

pub libkmem_cache_pool_create : Caller → ℕ → ℕ → ℕ → Access (ℤ × Caller)
libkmem_cache_pool_create c size align cache_pool_id = ok (pos 0, c)

pub libkmem_cache_alloc : Caller → ℕ → ℕ → Access (ℤ × Caller)
libkmem_cache_alloc c cache_pool_id reg_index = ok (pos 0, c)

pub libkmem_copy_from_user : Caller → ℕ → ℕ → ℕ → ℕ → Access (ℤ × Caller)
libkmem_copy_from_user c source destination offset size = ok (pos 0, c)

pub libkmem_copy_to_user : Caller → ℕ → ℕ → ℕ → ℕ → Access (ℤ × Caller)
libkmem_copy_to_user c source destination offset size = ok (pos 1, c)

-- The call has a status, unless it reaches an invalid address.
abbrev pub IsSettled : Access (ℤ × Caller) → Type 0
IsSettled r = ((done : ℤ × Caller) × (r ≡ ok done)) ⊎ (r ≡ fault)

with_status-IsSettled : (c : Caller) (r : Access Caller) → IsSettled (with_status c r)
unfolding with_status
with_status-IsSettled c (ok c') = inl (_, refl)
with_status-IsSettled c err = inl (_, refl)
with_status-IsSettled c fault = inr refl

pub liballoc-IsSettled : (c : Caller) (size reg_index : ℕ) → IsSettled (liballoc c size reg_index)
unfolding liballoc
liballoc-IsSettled c size reg_index = with_status-IsSettled c _

pub libfree-IsSettled : (c : Caller) (reg_index : ℕ) → IsSettled (libfree c reg_index)
unfolding libfree
libfree-IsSettled c reg_index = with_status-IsSettled c _

pub libread-IsSettled : (c : Caller) (source offset : ℕ) → IsSettled (libread c source offset)
unfolding libread
libread-IsSettled c source offset = with_status-IsSettled c _

pub libwrite-IsSettled :
    (c : Caller) (destination offset : ℕ) → IsSettled (libwrite c destination offset)
unfolding libwrite
libwrite-IsSettled c destination offset = with_status-IsSettled c _

pub libkmem-IsSettled :
    (c : Caller) (x y z w : ℕ)
    → IsSettled (libkmem_malloc c x y)
      × IsSettled (libkmem_cache_pool_create c x y z)
      × IsSettled (libkmem_cache_alloc c x y)
      × IsSettled (libkmem_copy_from_user c x y z w)
      × IsSettled (libkmem_copy_to_user c x y z w)
unfolding libkmem_malloc libkmem_cache_pool_create libkmem_cache_alloc libkmem_copy_from_user
    libkmem_copy_to_user
libkmem-IsSettled c x y z w =
    (inl (_, refl), inl (_, refl), inl (_, refl), inl (_, refl), inl (_, refl))
