-- ===== src/Lib.antt =====
-- FlitOS: the kernel and the containers of os_kernel/src, with the start, the interrupts and the
-- system calls of riscv-firmware/src and a game of riscv-cart/src, as executable definitions and
-- theorems about them.
--
-- Containers/Vector.antt is os_kernel/src/ecs_vector.h, Containers/Deque.antt
-- os_kernel/src/ecs_queue.h. A vector is its size, its capacity and the cells of its block; a cell
-- is raw or holds an object, and what constructors and destructors do to a cell is an argument.
-- The children of the two prove their laws: Vector/MemSize, Vector/Laws and Vector/Ends,
-- Deque/Reverse, Deque/Grow, Deque/Refine, Deque/Fifo.
--
-- Containers/UnorderedMap.antt is os_kernel/src/ecs_unordered_map.h, over the list of its pairs;
-- UnorderedMap/Laws.antt compares it with an association list, the form of the kernel's tables.
-- Containers/LinkedList.antt is os_kernel/src/ecs_list.h on a heap of nodes: a node is freed where
-- the heap has none, and reading through a null or freed pointer is undefined. LinkedList/Linked
-- has the chains of nodes, Iterators their iterators, Ends and Pops the operations at the ends,
-- Insert and Erase those in between, Runs sequences of operations. Containers/OrderedMap.antt is
-- ecs_map.h over it, OrderedMap/Search its searches, OrderedMap/Subscript its operator[].
-- Containers/Text.antt is the string of ecs_string.h, over the vector. Firmware/Clock.antt is the
-- clock of os_kernel/src/utils.h, Firmware/Handlers.antt and Firmware/Ticks.antt are the list of
-- timer handlers and its calls, of riscv-firmware/src/SList.c and timer.c.
--
-- Firmware/Start.antt is init of riscv-firmware/src/startup.c, Firmware/Memory.antt the copying of
-- riscv-firmware/src/system_calls.c, on a memory of bytes. Cartridge/Video.antt is
-- cartridge_baseline/src/video_api.c, the requests that a cartridge makes of the firmware;
-- Video/Slots.antt serves them by Firmware/Memory. Cartridge/Game.antt is riscv-cart/src/app.c,
-- Game/Rounds.antt the rounds of the threads of riscv-cart/src/main.c on one `World`; Game/Hits,
-- Game/Pillars, Game/Moves, Rounds/Reached and Rounds/Over are about collisions, the blocks of a
-- pillar, their movement, the runs of the game and its end.
--
-- Kernel is the scheduler (cs251_scheduler.h, cs251_scheduler_impl.h), the mutexes
-- (cs251_mutex.h), the condition variables (cs251_condition_variable.h), the sleep timer
-- (cs251_timer.h) and the interrupt nesting (utils.c), which share one state, the record `Kernel`
-- of Kernel/State.antt. The functions keep their source's names: Kernel/Scheduler.antt has
-- ThreadScheduler, Kernel/Sync.antt the rest, Kernel/Machine.antt what runs when, Kernel/Boot.antt
-- main. A thread that blocks inside a call keeps the rest of the call as `Frame`s on its stack,
-- and goes on with them once it runs again. Kernel/Machine/Step.antt is the step relation: a call
-- or a system call from a thread's own code, the topmost frame of the running thread, or an
-- interrupt of a thread's own code. The end of a thread, stub_wrapper behind the thread's
-- function, is two calls, notifyAll and thread_exit. Kernel/Reach.antt has the runs, whose steps
-- are `Allowed` (Kernel/Safety.antt): the ids that a step gives are new, its join is of an id that
-- was given, its transfer is in an open pipe, it destroys neither the first nor the last id of a
-- map nor a mutex or condition variable in which somebody waits, and another thread is ready where
-- the step may block its thread or end it. The idle thread alone yields, is interrupted and goes
-- on in such a run; Kernel/Idle.antt is about what it does for the others. Kernel/SystemCalls.antt
-- is c_system_call of riscv-firmware/src/startup.c, Kernel/Interrupts.antt its
-- c_interrupt_handler, Kernel/Pipes.antt the pipes of cs251_pipe.h over cs251_thread_safe_queue.h
-- and the allocator's mutex of ecs_allocator.h; what they share with the kernel is the record `Io`
-- of Kernel/Io.antt. Kernel/Ready, Kernel/Destroyed, Kernel/Admitted, Kernel/AllServes and
-- Kernel/Interrupted prove what they keep, Kernel/Fifo, Kernel/Copies, Kernel/Unlocked,
-- Kernel/Reading and Kernel/Writing are about the bytes of a pipe, Kernel/Order about the order in
-- which ready threads run. Kernel/Invariant and its children prove what each function keeps;
-- Kernel/AllCalls, Kernel/Safety, Kernel/Reach, Kernel/Turns, Kernel/Locking, Kernel/Unlocking,
-- Kernel/Waking and Kernel/Sleeping state what the machine does. Tests has the runs.
--
-- Outcomes: `ok` returns, `fault` is undefined behaviour, `hang` never returns, which is what the
-- assertion of ecs_assert.h does. Integers are 32 bits, and wrap where the source's do; an `int`
-- of the kernel is its pattern, one of the game an integer, whose sums in calculateCollision keep
-- 32 bits. Fuel: the loop of findMemSize is over after 32 rounds or never, that of invert_data has
-- at most p2 + 1 rounds, that of notifyAll one more than there are waiters, that of clear one for
-- each element, and find_if has one more than there are nodes.
--
-- Bounds of the model: the kernel's queues are lists, compare Deque/Fifo.antt, and its maps are
-- association lists, whatever order ecs::map and ecs::unordered_map keep. A timer interrupt inside
-- a call is not a step: calls are whole between their suspensions. A round of a thread of the game
-- is whole too. The lazily made singletons exist before main. Memory does not run out. The kernel
-- machine abstracts the context switch to frames and the interrupt-enable bit; Kernel/Context has
-- the registers and the words of the stack, and Context/Switches what a thread finds in them. The
-- output of the kernel is left out. Not modelled: what the containers of a pipe allocate while
-- they grow, for which they lock the allocator's mutex, the start of a cartridge, the simulator. A
-- pointer of malloc, a register of a device, gp and the address of a function are arguments,
-- `Outside` and `Event`; the cartridge's functions that the timer calls do nothing to the kernel.
-- erase of the first or the last key of an ecs::map, whose list then points to a freed node,
-- counts as a fault at once.
pub mod Base
pub mod Containers
pub mod Kernel
pub mod Tests
pub mod Firmware
pub mod Cartridge
