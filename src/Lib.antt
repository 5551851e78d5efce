-- ===== src/Lib.antt =====
-- The scheduler and memory simulator under Assignment-OS--main/ossim_caitoa, as a library of models and
-- theorems. The paths below are relative to that directory.
--
-- The program simulates an operating system. A loader thread reads processes and adds them to the ready
-- queues; each CPU thread takes a process from the scheduler, runs its instructions for a time slice
-- and puts it back. Instructions call the memory library, which hands out regions of a virtual memory
-- area; physical memory is a number of devices divided into frames.
--
-- - Queue: src/queue.c. `Queue` is `struct queue_t`, an array of pointers with a size, and the
--   operations have the names of the C functions. `Queue.Refine.Holds` relates it to a list.
--   `Queue.Runs.QueueOps` is the interface that both have.
-- - Sched: src/sched.c as built with MLQ_SCHED; `Sched.Single` has the other branch. `Sched` holds the
--   static variables, the static cursor of `get_mlq_proc` included. An operation runs under
--   `queue_lock`, so it is one function on the state. The two loops are `scan`, with the rounds that
--   are left as fuel: both make at most `MAX_PRIO` rounds, and that is the fuel given.
-- - Memphy: src/mm-memphy.c, the functions without their prefix `MEMPHY_`, and `__swap_cp_page` of
--   src/mm64.c. A chain of frame nodes may end in a wild pointer. An access outside the storage or
--   through a wild pointer is `fault`.
-- - Mm: the areas of src/mm-vm.c, the list routines of src/mm64.c and, in `Mm.Maps`, its mapping
--   functions, and `get_free_vmrg_area` and `find_victim_page` of src/libmem.c. A chain of areas,
--   regions or pages is a list; an area that a function returns is its index in the list.
--   `Mm.Regions.cover` counts the free regions that contain an address. `Mm.Print` has the functions
--   that print these lists.
-- - Paging: the macros of include/mm.h and include/mm64.h on addresses and page table entries, with
--   `bit_and` and `bit_or`, and the functions of src/mm64.c that use them. No function keeps an entry
--   but `pte_set_entry`, which nothing calls, so that there is no page table in the state.
-- - Syscall: src/syscall.c with the table src/syscall.tbl, src/sys_mem.c, src/sys_listsyscall.c and
--   src/libstd.c.
-- - Libmem: src/libmem.c. `alloc`, `free`, `read` and `write` are the functions with two underscores in
--   front, on the memory of the kernel structure; `Libmem.Calls` has those that an instruction calls,
--   `Libmem.Reclaim` and `Libmem.Kernel` the rest. `mmvm_lock` makes each of them one function on the
--   state; `__read` does not take it, and is one function all the same: what threads do that are in it at once
--   is not modelled. `Libmem.Account.owners` counts the free regions and symbols that contain an
--   address.
-- - Cpu: src/cpu.c. An instruction is its opcode and four arguments, `run` is one step of a process.
-- - Os: the threads of src/os.c. A CPU is a point in the loop of `cpu_routine` with the variables of
--   that function; `cpu_step` goes to the next point, and `Step` interleaves the CPUs and the loader in
--   any order, with the processes in a heap that `free` takes them out of.
-- - Timer: src/timer.c. A step of `timer_routine` or of a device is one section under a lock; a wait on
--   a condition is a step that is only possible when its loop ends. `slots` counts the calls of
--   `next_slot` that a device has returned from.
-- - Loader: src/loader.c. The functions of stdio and the contents of fresh memory are parameters; what
--   the round trip needs of them is `Loader.Printed.Prints`. The loop makes one round per instruction.
-- - Boot: the loader thread `ld_routine` of src/os.c, in the steps of `ld_step`, beside the CPUs of
--   `Os`, and `read_config` and `main`. `Boot.Loads` relates its steps to those of `Os.Step`. The clock
--   of `Machine` counts slots, below 2 ^ 64. `Boot.Clocked` has the same threads on the timer: a CPU or
--   the loader at a call of `next_slot` takes the steps of its device. `executed` counts the calls of
--   `run` in a run of the program. `Boot.Dirs` has the page directories that `ld_routine` fills.
-- - Mem: src/mem.c, with `dump` in `Mem.Dump`, and the instructions of src/cpu.c that use it, in the
--   build without MM_PAGING; `Mem.Program` is src/paging.c.
-- - Mm32: src/mm.c, in the build without MM64: the functions on the entries of a table, and in
--   `Mm32.Deprecated` those that only return 0.
--
-- A function that can fail ends with an `Access`: a result, -1, or an access that C leaves undefined.
-- The bounds that theorems name are those of the types: an `int` for sizes, 57 bits for addresses
-- (`PAGING64_CPU_BUS_WIDTH`), `uint32_t` for the length of a program.
--
-- Not modelled: what functions print along the way, but for `dump` and the functions that print
-- lists; the script that makes the system call table.
--
-- Pointers to processes are numbers, and NULL is `none`. Numbers of the types `int` and `addr_t` wrap
-- where the code can reach the wrap. `malloc` is taken to succeed, as the code takes it.
pub mod Base
pub mod Queue
pub mod Sched
pub mod Memphy
pub mod Mm
pub mod Paging
pub mod Syscall
pub mod Libmem
pub mod Cpu
pub mod Os
pub mod Timer
pub mod Loader
pub mod Boot
pub mod Mem
pub mod Mm32
