-- ===== src/Lib.antt =====
-- sdx, a UNIX-like kernel for x86-64: a model of its core in definitions that run.
--
-- The kernel starts from the loader's memory map, over which kernel/mm/pmm.c gives out physical pages.
-- kernel/mm/vmm.c enters them in the page tables, and kernel/mm/region.c keeps what a task has mapped.
-- Drivers add disks (kernel/core/disk), whose partition tables are read by kernel/core/mbr.c and
-- kernel/core/gpt.c. The scheduler (kernel/sched) keeps a queue of tasks, each with its registers, its
-- open files and a wait queue of dead children, and system calls (kernel/syscall) change them. All of
-- them stand on the helpers of kernel/util.
--
-- The files and what they model:
--   Prelude    shared names, tests, lists and signed integers over the native numbers
--   Errno      inc/errno.h: the error numbers, and the results of fallible functions
--   Util       kernel/util: Util.Math (math.c), Util.Timestamp (timestamp.c), Util.Bits
--              (kernel/inc/util/bit.h), Util.Words (`|` and `& ~`), Util.ErrorTable (the error table
--              and strerror of string.c), Util.Strings (strings in memory, of string.c and mem.c)
--   Mm         Mm.Pmm: kernel/mm/pmm.c; Mm.Pmm.Ops has pmm_alloc as `alloc`, pmm_free as `free` and
--              pmm_is_allocated as `is_allocated`; the bitmap is a list of 64-bit words
--              Mm.Vmm: kernel/mm/vmm.c; Mm.Vmm.Ops has the calls that map, Mm.Vmm.Search the search for
--              free addresses, Mm.Vmm.Unmap has vmm_unmap, Mm.Vmm.Exact vmm_map_exact; a table is a
--              function of the indexes that lead to it, as the recursive entry of the PML4 shows it,
--              and Mm.Pages is the interface of the page allocator, which Mm.PmmPages gives
--              Mm.Region: the chain of memory regions of kernel/mm/region.c, and
--              Mm.Region.Mapping, which maps them
--   Sched      Sched.Waitq (waitq.c), Sched.Files (file.c and the system calls open, close, read and
--              write), Sched.Regs (the registers of kernel/inc/sched/task.h and their copies),
--              Sched.Tasks (the tasks; Sched.Tasks.Queue, the task queue of sched.c, and
--              Sched.Tasks.Exit, the end of a task), Sched.Signals (signal.c)
--   Disk       reading a disk, of kernel/core/disk/disk.c; Disk.Write: writing to it; Disk.Parts: the
--              partitions of kernel/core/disk/part.c, kernel/core/mbr.c and kernel/core/gpt.c
--   Pic        kernel/core/pic.c, over an interface of ports
--   Fs         Fs.Elf: kernel/fs/fmt/elf.c over an interface of the file and of the memory regions
--              Fs.Inode: the inodes of kernel/inc/fs/fs.h
--              Fs.Fat: kernel/fs/fat32 over the driver of a disk; Fs.Fat.Names has
--              __fat32_entry_name as entry_name, Fs.Fat.Table the table by its format,
--              Fs.Fat.Directory the walks over a directory,
--              Fs.Fat.Files the operations of fat32.c
--              Fs.Vfs: the nodes of kernel/fs/vfs/node.c, Fs.Vfs.Path and Fs.Vfs.Calls vfs.c
--              Fs.Types: the types of file systems of kernel/fs/fs.c
--   Im         kernel/core/im/im.c: descriptors, the list of handlers, and the calls for an interrupt
--   Video      kernel/video/fb.c: the text console; Video.Colors its colors
--   Tests      runs at concrete inputs, and inputs at which the theorems apply
--
-- State is passed explicitly: a function that changes its arguments or globals returns them. A 64-bit
-- value is a natural number, with `% 2 ^ 64` where the source wraps around. A pointer is an address
-- with 0 for NULL, or the position in a list; `none` stands for an access that leads nowhere, a NULL
-- result or a failed read, as each file says. Error numbers are results, `err e` for `-e`.
--
-- Loops that C bounds by a counter are structural. Fuel bounds the others: the loop of pmm_alloc gets
-- two more than the positions of the bitmap, each of which it reads once; gdu and gd get 20,
-- the decimal digits of a 64-bit number, and so do itou, itod and itoh; the loop of gpt_load gets the
-- entry count, a walk over the task queue the length of the queue, and a walk over a string its length
-- and the terminator. The search for free addresses has no bound in the source, and gets its fuel as an argument; the loop of
-- the ELF loader gets one more than the number of program headers, each of which it reads once. In
-- fat32_read the loops get one more than the offset and the size, and the walk over the clusters of a
-- directory, which has no bound in the source, gets its fuel as an argument. A walk over the nodes of
-- the virtual file system gets their number, a lookup the length of the path, and the scrolling of the
-- console one more than the line of the cursor.
--
-- Not modelled: drivers, boot code and assembly, which act on device registers and processor state;
-- vmm_sync, which builds a second PML4; the addresses of the slot 510, where the recursive entry of the
-- PML4 shows the tables a second time, which the theorems on mapping leave out, and tables that two
-- entries lead to; the heap, devfs, the
-- scheduler's timer handler, fork and exec. What the model uses of them is a parameter: the sectors that
-- a driver reads, whether the heap finds memory, the virtual file system behind the file calls, and the
-- file and the regions of the ELF loader.
pub mod Prelude
pub mod Errno
pub mod Util
pub mod Mm
pub mod Sched
pub mod Disk
pub mod Fs
pub mod Pic
pub mod Im
pub mod Video
mod Tests
