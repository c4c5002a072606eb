-- ===== src/Lib.antt =====
-- A verification library for the kernel under kernel/: the managers of physical memory and of
-- page tables, the tables of the processor, the ports that the ACPI library uses, and the clock
-- sources.
--
-- The parts and how they interact:
--   * kernel/kernel/helpers.hpp and kernel/lib/utils.hpp (Helpers, Utils): alignment and flag
--     tests by bit masks. Helpers/Align relates them to division.
--   * kernel/kernel/bit_helpers.hpp (Enums): the bit operators on the values of an enum.
--   * kernel/kernel/error.hpp, percpu.cpp, assert.hpp and kernel/arch/x86_64/cpu.hpp (Run,
--     Machine): what the memory managers run on. Memory is a function from addresses to 64-bit
--     words, of which those at mapped multiples of 8 can be read and written. An access elsewhere
--     ends the run as `fault`, `x86_64::hcf` ends it as `halted`. The responses of the boot
--     loader (the slide of the direct map, the base of the kernel, the memory map) are fields of
--     `Boot`, as is the address of the allocator's `m_head`. Commands pass the state along;
--     Run/Ensures says that a command returns with a postcondition, which a run that faults,
--     halts or does not end never satisfies.
--   * kernel/mm/pma.cpp (Pma): `FreeListAllocator::alloc`, `free`, `coalesce` and `init`, and the
--     functions around them, over block headers in the free memory. Pma/Blocks says how a free
--     list lies in memory, Pma/FirstFit and Pma/Merge are the allocator on lists of blocks, and
--     the other children prove that the code does what these do: Pma/Split and Alloc for alloc,
--     Pma/Absorb and Coalesce for the two loops of coalesce, Pma/Free for free.
--   * kernel/mm/vmm.cpp (Vmm): `map_virtual`, which gets its tables from the physical allocator.
--     Vmm/Walk is the page walk of the processor, Vmm/Entries the meaning of an entry,
--     Vmm/Indices the parts of an address, and the children up to Vmm/Mapping follow the code: a
--     zeroed table (NewTable), its link into the tables (Grown, Linking), the search below an
--     entry (Tables), the way down (Descent), the last write (Leaf). A set of tables is in order
--     if each is a page of its own and is for one range of addresses, and the entries that lead
--     to them take no permission away and are of no large pages; an owner function says which.
--   * kernel/mm/vma.hpp (Vma): the allocator of address ranges, a doubly linked list of nodes
--     from a static pool or from `operator new`. Vma/Zipper says how the nodes lie in memory,
--     seen from a place in the list, Vma/Pool which nodes are unused. Vma/Link, Split, Takeover,
--     Absorb and Coalesce follow the changes of the list; Vma/Mark says what they do to the free
--     pages. Vma/Fit, AllocLoop and AllocPages are about alloc_pages, Vma/FreeParts, FreePages
--     and FreeCall about free, Vma/Start about init, and Vma/Held and Leases about sequences of
--     calls.
--   * kernel/mm/vma.cpp and kernel/mm/heap.cpp (Heap): the three managers together. The state
--     joins that of the page tables with the allocator of addresses; Heap/Backing, Pages and Loop
--     put memory behind addresses, Heap/Outcomes and Mmap are about mmap, Heap/Sbrk is about
--     sbrk, and Heap/Initial about init_heap. Heap/Live and Isolation are about the pages of all
--     callers together, which a call (AfterMmap, AfterSbrk) and a sequence of calls
--     (Heap/Sequence) keep.
--   * kernel/arch/x86_64/gdt.hpp and gdt.cpp (Gdt), idt.hpp and idt.cpp (Idt): the encoding of
--     descriptors, and the tables. The Decode modules hold what the processor reads from them,
--     and Idt/Handler is the common handler.
--   * kernel/acpi/uacpi_io.cpp and the port functions of kernel/acpi/glue.cpp (Acpi): handles,
--     ranges and port instructions, of which a run keeps the sequence. The devices' answers and
--     the addresses that `new` gives are arguments. Acpi/Glue has the other functions of
--     glue.cpp: memory, locks, and those that are not implemented. Acpi/Early is
--     kernel/acpi/acpi.cpp.
--   * kernel/kernel/irqs/irqs.cpp (Irqs): the search for the MADT and the walk over it. The
--     layout of the table and the constants of the ACPI library are an argument, and so is the
--     number of rounds.
--   * kernel/kernel/percpu.cpp and kernel/arch/x86_64/msr.hpp (Percpu): the per-CPU area by the
--     GS base register, of which Machine has the error code as a field.
--   * kernel/kernel/logger.cpp (Logger): the bytes of a message on their way to the port.
--   * kernel/lib/ptr_array_wrapper.hpp (PtrArray): the range over an array of pointers, as the
--     boot loader gives the memory map.
--   * kernel/kernel/core.cpp (Core): the start, from what the boot loader leaves (Core/Memory) to
--     the memory managers in order (Core/Ready) and to the drivers (Core/Started). Core/Isolated
--     has the calls of dlmalloc after it.
--   * kernel/lib/vector.hpp (Vector): the growable array, by the slots of its buffer.
--     Vector/Loops says what each loop does to a slot, Vector/Elements and Copies what the
--     operations do to the elements.
--   * kernel/lib/memory.cpp (Bytes): the memory and string functions of C, on memory by bytes.
--     Bytes/Moves is about copies and comparisons, Bytes/Strings about searches.
--   * kernel/lib/spinlock.cpp (Spinlock): the lock under any interleaving of threads, as a step
--     relation. The other parts take a lock that is held for one that is waited for without end.
--   * kernel/lib/string.hpp (Strings): the class String over the same bytes.
--   * kernel/drivers/clocksource.cpp (Clock): scaling, differences, and the choice of the best
--     source. Clock/Drivers has kernel/drivers/tsc.cpp, hpet.cpp and acpi_pm.cpp, over what the
--     boot loader and the ACPI tables give, Clock/Choice has the source that they leave as the
--     best, and Clock/Ktime is ktime.hpp.
--   * Prelude: the names that all share, list lemmas, bit operations, arithmetic on 64-bit words.
--
-- Bounds: 64-bit sums, differences and products wrap (`add64`, `sub64`, `mul64`). The loops along
-- the free list run on `rounds` of the machine; a list in order is shorter than that, and the
-- theorems show that the loops then end. The loops of kernel/mm/vma.hpp run on fuel: one round
-- more than there are pages is enough. The other loops are structural.
--
-- Not modelled: kernel/lib/dlmalloc, a copy of another project, so that the memory which the
-- drivers take by `new` is not followed. What its `new` and `delete` do for the allocator of
-- addresses is an argument: null or a node, and whether they call `mmap`, which then waits for
-- the lock that the allocator holds, or `munmap`, which halts the machine. The pages that `new`
-- may get there from `sbrk` are not followed. Nor are boot tables with large pages, which
-- `map_virtual` takes for tables; assembly, and the formatting of messages. Memory is not shared
-- by several processors, but for the spinlock.
pub mod Acpi
pub mod Bytes
pub mod Clock
pub mod Core
pub mod Enums
pub mod Gdt
pub mod Heap
pub mod Helpers
pub mod Idt
pub mod Irqs
pub mod Logger
pub mod Machine
pub mod Percpu
pub mod Pma
pub mod Prelude
pub mod PtrArray
pub mod Run
pub mod Spinlock
pub mod Strings
pub mod Utils
pub mod Vector
pub mod Vma
pub mod Vmm
