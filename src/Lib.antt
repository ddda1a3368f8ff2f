-- ===== src/Lib.antt =====
-- RXD-OS is a small x86 kernel in C. This library models the parts of it that compute on their own
-- state, and leaves the assembly and the console outside.
--
-- The parts, the files here and the code they are about (paths from the repository's root):
--   Tty        include/io.h and kernel/io.c: the queues of a terminal, the scan code state machine
--              `cook`, its loop `tty_cook`, and the handler `on_keyboard_interrupt`.
--   Keyboard   kernel/keyboard.c and include/keyboard.h: key codes, flags and characters, which Tty
--              uses.
--   Str        lib/string.c: the functions on blocks and strings, on the memory of Memory.
--   Sched      kernel/proc.c and include/proc.h: the task table, `schedule` and the clock interrupt.
--   Pages      mm/memory.c: the map of physical pages, `alloc_pages` and `free_pages`.
--   Slab       mm/slab.c: caches of objects and their slabs; the page allocator is a parameter, which
--              Slab/Source fills with Pages.
--   Chains     include/list.h: the lists of the kernel as sequences of addresses, for Buffer and Slab.
--   Bitmap     fs/bitmap.h: the bits of one block.
--   Blk        kernel/blk_drv/ll_rw_blk.c and blk.h: the table of block requests; the handler of the disk
--              is a parameter, a `Drive`.
--   Buffer     kernel/blk_drv/buffer.c: the cache of disk blocks, over Blk; Buffer/Disk has the laws that
--              the cache needs of the disk for requests of 1 to 256 sectors, Buffer/Rounds and
--              Buffer/Init what buffer_init makes, Buffer/Session what one client does with a block.
--   Blockmap   fs/bitmap.h: bitmaps over several blocks, as clients of Buffer.
--   Image      fs/fs.c: bytes inside a block, and the accesses to one block that fs.c repeats.
--   Super      fs/fs.c and include/fs.h: words as bytes, and the super block; Super/Layout has the order
--              of the parts on the disk.
--   Inode      fs/fs.c: inodes as bytes, `read_inode`, `write_inode` and `mkfs`.
--   Zone       fs/fs.c: the blocks of an inode, `_get_blk` and `_reserve_zone`, over Blockmap.
--   Content    fs/fs.c: `_read` and `_write`, over Zone and Inode; Content/Sample is a disk with a file.
--   Dir        fs/fs.c: `_find_dir_entry` and `_add_dir_entry`, over Content and Str.
--   Mount      fs/fs.c: `fs_init` with `mkfs`, on a disk with a file system or without.
--   OpenFile   fs/fs.c: `sys_read`, `sys_write` and `sys_lseek` on an open file, over Content and Pages.
--   Path       fs/fs.c: the loops over the names of a path, over Str.
--   Hd         kernel/blk_drv/hd.c: the driver of the disk, which Hd/Disk puts behind Blk; the port
--              instructions are a parameter. Hd/Ram runs it on a drive that is always ready, and
--              it is then a disk as Buffer/Disk asks for.
--   Printf     lib/printf.c: the character classes.
--   Number     lib/printf.c: `__itoa` and `atoi`, which use Printf, Str and Memory.
--   Irq        kernel/head.c: the masks of the interrupt controllers.
--   Desc       kernel/head.c, include/head.h and kernel/proc.c: segment descriptors.
--   Prelude    the shared names: Boolean tests, C arrays as lists (Prelude/Lists) and the outcomes of
--              a run (Prelude/Outcomes).
-- A function of the source has its own name here. The state that it changes goes in as an argument and
-- comes out in its result.
--
-- A run ends in `ok`, in `panic` (a failed `assert` or a call of `panic`, both endless loops in the
-- kernel), in `fault` (an access outside the array that is accessed) or in `out_of_fuel` (a bound
-- given to a loop was too small). The theorems with a result `ok` say that none of the others happens.
--
-- Numbers are natural numbers. Where the source computes in a C type that can wrap round, the
-- remainder is written out. A pointer into an array is the distance from its start, and a pointer to
-- a structure is its address, with 0 for NULL.
--
-- Bounds of loops: the loops of lib/string.c over a string have 2 ^ 32 rounds, as a string fits the
-- address space; those over a table have its size; `tty_cook` and the drain of the handler have one
-- round more than their queue holds; `__itoa` has a round for each of at most 32 digits and one more;
-- `schedule` has a bound on its calls of itself, and two are enough; the loop of `buffer_init` goes down
-- from the end of its area and has that many rounds; `wait_status` counts its time down; the walk along
-- the free list of a slab has a round for each entry of the slab's array, and a longer list is a
-- cycle; the loops of `_read` and `_write` have eight rounds, as a zone number above 6 panics; that of
-- `sys_read` has two rounds more than the count and that of `sys_write` one more, as each round but one
-- takes a byte; the loops over a directory have a round for each 32 bytes of its size and one more, and
-- those over a path 2 ^ 32.
--
-- Not modelled: output by `printf` and the formatting of its arguments; `sleep_on` and `wake_up`, which
-- are empty; the part of `switch_to` that is assembly; the wait list behind the panic of `add_request`;
-- what the objects of a slab hold; the page tables; the lists of inodes and of
-- directory entries in memory, and the system calls that open and close files; the boot code.
pub mod Prelude
pub mod Memory
pub mod Str
pub mod Pages
pub mod Keyboard
pub mod Sched
pub mod Tty
pub mod Bitmap
pub mod Printf
pub mod Number
pub mod Irq
pub mod Blk
pub mod Buffer
pub mod Blockmap
pub mod Hd
pub mod Chains
pub mod Slab
pub mod Desc
pub mod Image
pub mod Super
pub mod Inode
pub mod Zone
pub mod Content
pub mod OpenFile
pub mod Mount
pub mod Path
pub mod Dir
