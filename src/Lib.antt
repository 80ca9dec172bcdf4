-- ===== src/Lib.antt =====
-- FOSv2: a small teaching kernel for the x86, in C, with a library of string routines.
--
-- The parts of the program and the files that model them:
--   Queue    inc/queue.h. The doubly linked lists of frames and environments. An element is the
--            index of its struct in its array; a list is one store with the head and the links of
--            all elements, and a link back says where the pointer to the element is stored.
--   Mmu      inc/mmu.h, inc/memlayout.h, and the rounding macros of inc/types.h.
--   Int      C's int as far as the kernel uses it, and inc/error.h.
--   Memory   kern/memory_manager.c, and from kern/helpers.c and kern/helpers.h what translates
--            addresses. The state has the free list, the reference counters, the words of all
--            physical pages and the addresses given to invlpg. A pointer to a page table is its
--            kernel virtual address. Memory/Frames has the functions on frames (Init the start-up),
--            Memory/Boot those for boot time (Kernel the kernel's address space and its check),
--            Memory/Paging those on page tables, and Memory/Space the invariant of these: a well
--            linked free list of unused frames, page tables that do not overlap, and counters that
--            count the mappings of one page directory and a given number of other references.
--   Console  kern/console.c. The circular input buffer (Ring), the keyboard's tables and driver
--            (Keymap, Keyboard), reading (Input), and the text screen (Screen). The ports are a
--            parameter: a function that gives the next byte of a port and the devices after it.
--   Env      inc/environment_definitions.h, inc/trap.h, kern/user_environment.c and envid2env of
--            kern/helpers.c. The state has the memory, the array of environments, its free list,
--            the current environment and cr3. Program has the loop over the segments of a user
--            program.
--   Syscall  the handlers sys_allocate_page and sys_getenvid of kern/syscall.c.
--   Format   lib/printfmt.c: printnum (Format, Number), error_string (Errors), vprintfmt (Print)
--            and vsnprintf (Snprint); the print buffer of lib/printf.c (Buffer), and lib/readline.c
--            (Editing). A format is a list of bytes and a va_list the list of the arguments that are
--            left.
--   String   lib/string.c over a memory of bytes. strtol and strsplit are in Parse.
--   Machine  what stands on top of the memory manager and the environments: the table of user
--            programs and env_run_cmd_prmpt of kern/user_environment.c (Programs), the dispatcher of
--            kern/syscall.c with its other handlers (Syscalls), kern/trap.c (Traps), the stubs of
--            lib/syscall.c (Stubs) and kern/command_prompt.c (Commands, Prompt). The state has the
--            kernel of Env, the environments of the user programs, the messages printed, the
--            characters that are typed, and cr2. A call of cprintf is a message whose constructor
--            stands for the format.
--   Boot     boot/main.c. The drive is a parameter.
--   Debug    kern/kdebug.c: stab_binsearch (Search) and debuginfo_eip (Info). The tables are a
--            parameter.
--   Descriptors  the segment descriptors and gates of inc/mmu.h, gdt of kern/helpers.c, and idt_init
--            of kern/trap.c. A descriptor is the record of its bit fields.
--   Detect   detect_memory and nvram_read of kern/helpers.c with mc146818_read of kern/kclock.c. The
--            clock's registers are a parameter.
-- The memory manager calls the lists, the environments and system calls call the memory manager, a
-- trap calls the system calls and resumes an environment, and a command calls the string routines
-- and the memory manager; each call passes the state on. A call ends with a result and a state, with
-- a panic, with an access through a null pointer, in user code, or in the loop of the prompt. Where C
-- gives no meaning to vprintfmt, for a missing or wrong argument and an overflow of an int, the model
-- ends with `undefined`; the value that to_physical_address gives for a null pointer, which C does not
-- define either, is a field of the machine.
--
-- Numbers are natural numbers; a 32-bit or 16-bit result has its remainder written out. A loop over
-- a list, a string or a device runs on fuel, and `none` or `no_fuel` is the end of the fuel. The
-- theorems about such a loop state how much fuel is enough: more than there are elements for a list
-- or a string, what `enough` computes from the format for vprintfmt, a round for each sector and
-- one more for readseg, and two rounds for each entry and two more for stab_binsearch. Loops with a
-- counter recur on it.
--
-- Not modelled: assembly and inline assembly, the set-up of devices, the self test page_check, the
-- messages at start-up and FOS_initialize as a whole (Memory/Boot/Kernel/Apart.antt takes its calls of
-- initialize_kernel_VM and initialize_paging together), what stands behind the panic in env_create,
-- the memory accesses of user code, and the example programs.
pub mod Base
pub mod Queue
pub mod Mmu
pub mod Int
pub mod Memory
pub mod String
pub mod Console
pub mod Env
pub mod Syscall
pub mod Format
pub mod Machine
pub mod Boot
pub mod Debug
pub mod Detect
pub mod Descriptors
