-- ===== src/Lib.antt =====
-- Jokerix, a small RISC-V kernel with a file system and a shell: the allocation of frames and of
-- blocks, the creation and scheduling of threads, their queues, page tables and program files, the
-- file system with the program that writes its image, and the shell's line editor.
--
-- kernel/memory.c hands out frames of 4 KiB (Frame), kernel/heap.c smaller blocks by a buddy
-- system (Heap), which user/malloc.c has too (UserHeap). kernel/mapping.c keeps page tables in the
-- frames (Mapping, and the kernel's own address space in Mapping/Kernel), and kernel/elf.c maps a
-- program file into them (Elf). kernel/thread.c makes threads, whose contexts (Context) it lays
-- out on stacks from the heap (Create, with executeCPU of kernel/processor.c), and keeps them in a
-- pool (Pool); the scheduler of kernel/rrscheduler.c (Scheduler) says which one is next.
-- kernel/processor.c (Processor) runs the threads by turns, kernel/condition.c (Condition) lets
-- them wait in the queues of kernel/queue.c (Queue), whose nodes come from the heap, there an
-- interface of operations and laws (KernelHeap), which Heap/Interface fills with the buddy system.
-- kernel/stdin.c (Stdin) keeps what is typed. kernel/interrupt.c, kernel/syscall.c and
-- kernel/timer.c (Trap) handle the interrupts and the calls of the programs, and kernel/main.c
-- (Boot) sets all of it up; Drill has what the kernel runs to try itself. kernel/fs.c (Fs) finds
-- and reads files of an image in memory, with the string functions of kernel/string.c (Str);
-- mkfs/mksfs.c (Mkfs) writes that image: Mkfs/Pack and Mkfs/Rounds are about a file's blocks,
-- Mkfs/Tree to Mkfs/Directory about the tree in the image, and Mkfs/Whole to Mkfs/Paths about what
-- the kernel finds there. user/sh.c (Shell) edits a line and has it executed, user/echo.c (Echo)
-- writes back what is typed, and kernel/printf.c (Print, with printf itself in Print/Format)
-- writes to the console, as user/io.c does for programs (UserIo), with the system calls of
-- user/syscall.h (UserCall). user/entry.c, user/hello.c and user/hello2.c (Hello) start a program
-- and write lines. Tests runs the operations at small inputs.
--
-- State is a record for each C structure, and an operation is a function from the state to the
-- state with what it returns. A call that can panic, or write outside an array, or loop, has a
-- result of type Run (Base/Run): `ok`, `panic`, `fault` or `out_of_fuel`. Arrays and memories are
-- functions from an index. Words of 64 bits are numbers below 2 ^ 64, and their operations wrap
-- around (Base/Words); they stand in memory as bytes (Base/Bytes). An int that the code keeps
-- small and not negative is a number; where a word of a file becomes an int, a negative one, for
-- which the code does nothing, is 0 (int_size of Fs). The names are those of the source, in snake case.
--
-- The buddy tree of kernel/heap.c stands for a tree of blocks that are free, used or split into
-- halves (Heap/Block): the record IsTree of Heap/Buddy relates the array to it, and kalloc and
-- kfree are stated on those blocks. An array that the code leaves uninitialised is a parameter:
-- the contexts of new threads and the inodes of mksfs are set in part.
--
-- A loop is recursion on the number of its rounds where the code knows it, and on fuel where it
-- does not: 65 rounds double a word to 0 in newAllocator, `first_single + 1` rounds reach a leaf
-- from the root, `p + 1` rounds reach the root from `p`. find_node of the buddy system gets 32
-- rounds, since an int is halved to 0 in 31. lookup takes one unit for each name of the path and
-- one more. newUserMapping gets 2 ^ 16 rounds, since a header counts its program headers in 16
-- bits (Elf/Laws). A file is written by mksfs in at most as many rounds as it has bytes.
--
-- A handler may hand the processor over in its middle. Then its result says how far it has come,
-- and resume of Trap/Syscall is what follows when its thread has the processor again. The address
-- by which the kernel reaches a program's byte is a parameter, user_addr. The nodes of the queues
-- are kept in a store of their own, beside the bytes of the memory.
--
-- Not modelled: the switch of contexts, of which only the address that it stores is a parameter;
-- the instructions on machine registers but for what Boot and the contexts keep of them, the
-- firmware, and the assembly at the entry of a trap; and what panic prints before the machine
-- stops.
pub mod Base
pub mod Frame
pub mod Scheduler
pub mod Shell
pub mod Fs
pub mod Str
pub mod KernelHeap
pub mod Queue
pub mod Pool
pub mod Processor
pub mod Condition
pub mod Tests
pub mod Heap
pub mod UserHeap
pub mod UserIo
pub mod UserCall
pub mod Hello
pub mod Echo
pub mod Print
pub mod Mapping
pub mod Elf
pub mod Context
pub mod Create
pub mod Mkfs
pub mod Trap
pub mod Boot
pub mod Drill
pub mod Stdin
