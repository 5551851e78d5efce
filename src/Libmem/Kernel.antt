-- ===== src/Libmem/Kernel.antt =====
-- The helpers of src/libmem.c for the memory of the kernel, as far as they are written: they return 0 and
-- change nothing. The pointer that a result would go through comes back as it was.
use os_to_read.Base.{ℕ}
use os_to_read.Base.Int.{ℤ, pos}
use os_to_read.Libmem.{Caller}

-- `__kmalloc` and `__kmem_cache_alloc`, with `*alloc_addr`
pub kmalloc : Caller → ℤ → ℤ → ℕ → ℕ → ℕ × ℕ × Caller
kmalloc c vmaid rgid size alloc_addr = (0, alloc_addr, c)

pub kmem_cache_alloc : Caller → ℤ → ℤ → ℤ → ℕ → ℕ × ℕ × Caller
kmem_cache_alloc c vmaid rgid cache_pool_id alloc_addr = (0, alloc_addr, c)

-- `__read_kernel_mem` and `__read_user_mem`, with `*data`
pub read_kernel_mem : Caller → ℤ → ℤ → ℕ → ℕ → ℤ × ℕ × Caller
read_kernel_mem c vmaid rgid offset byte = (pos 0, byte, c)

pub read_user_mem : Caller → ℤ → ℤ → ℕ → ℕ → ℤ × ℕ × Caller
read_user_mem c vmaid rgid offset byte = (pos 0, byte, c)

-- `__write_kernel_mem` and `__write_user_mem`
pub write_kernel_mem : Caller → ℤ → ℤ → ℕ → ℕ → ℤ × Caller
write_kernel_mem c vmaid rgid offset value = (pos 0, c)

pub write_user_mem : Caller → ℤ → ℤ → ℕ → ℕ → ℤ × Caller
write_user_mem c vmaid rgid offset value = (pos 0, c)
