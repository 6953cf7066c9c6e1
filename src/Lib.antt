-- ===== src/Lib.antt =====
-- The verification library of waltex, a small 32-bit kernel.
--
-- The parts that are modelled, and how they meet. The keyboard interrupt (kernel/keyboard.c) puts
-- bytes into a ring (kernel/ring.c), and the shell takes them out and gives them to the line
-- editor (kernel/lineedit.c). The timer interrupt (kernel/timer.c) calls the scheduler
-- (kernel/task.c), which shares the processor among at most eight tasks, each with a row of eight
-- descriptors in the virtual filesystem (kernel/vfs.c). This calls the filesystems through the
-- operations of their inodes: kernel/minixfs.c on a block device, kernel/procfs.c over the table
-- of tasks, and kernel/devfs.c over the device registry (kernel/dev.c), whose devices
-- kernel/devio.c makes readable as files. The drivers speak to ports: kernel/ata.c to the disks,
-- kernel/vga.c to the screen, kernel/pic.c, kernel/timer.c and kernel/rtc.c to their chips.
-- kernel/gdt.c and kernel/idt.c make the tables of the processor, and the second sends each
-- interrupt to its handler. All of them use the string functions of kernel/memory.c and the
-- formats of kernel/kprintf.c.
--
-- Which file models which code:
--   Base            names and helpers that every module shares: lists over the native numbers,
--                   Boolean tests, integers as `pos n` and `negsuc n` (-(n + 1)), and the loops that
--                   look for the first index that passes a test (first_index)
--   Bits            tests and changes of the bits of a byte, proved by trying all bytes
--   Ports           the instructions of include/io.h, on a world that is a parameter
--   Blockdev        struct blockdev, what a device that is read by sectors offers
--   Ring            ring_init, ring_push, ring_pop, ring_empty; Ring/Spsc splits ring_push and
--                   ring_pop into their loads and stores, in any interleaving
--   CString         the functions of kernel/memory.c, on lists of bytes; a string ends at a 0 byte,
--                   or where the list ends
--   Dev             the calls of kernel/dev.c; an entry that the caller passes is copied, as the code
--                   copies it, and a pointer to an entry is its index
--   Devio           kernel/devio.c: Devio has blk_read and blk_write, Devio/Entry the character
--                   devices, the registration of a device and devio_fill_inode. The bounce buffer on
--                   the stack is an argument, and a pointer to a device is a number
--   Devfs           kernel/devfs.c; the pool of inodes is a list, one for each entry of the registry
--   Procfs          kernel/procfs.c: Procfs has the root, Procfs/Status the directories of the tasks,
--                   their file and procfs_init
--   Kprintf         put_uint and reverse; a sink is the state it keeps and what a character makes of
--                   it. Kprintf/Format has kvprintf, with its arguments as a list, and vsnprintf;
--                   Kprintf/Prints says what a format is to print
--   LineEdit        lineedit_init, lineedit_putc and lineedit_reset; what the echo callback is given
--                   is a result
--   Shell           shell_parse_dec and shell_parse_hex; *out is the result, `none` where it is left
--                   alone. Shell/Split has shell_split, Shell/Write the text that shell_write makes of
--                   its words, Shell/Pattern the sector that shell_wrsect makes of a pattern, which
--                   Shell/Digits and Shell/Sector describe
--   Task            task_init, task_create, task_next, schedule and task_slot; the table of tasks
--                   with its stacks of 32-bit words, and the processor's stack pointer as an argument
--                   and a result
--   Keyboard        kernel/keyboard.c: the tables, the interrupt, and the reads of the device
--   Vga             kernel/vga.c: the cells of the screen, the cursor and the colour
--   Pic             kernel/pic.c
--   Timer           kernel/timer.c
--   Rtc             kernel/rtc.c; the loop of rtc_seconds_raw, which has no bound, runs on fuel, and
--                   `none` is that it is still running
--   Gdt, Idt        kernel/gdt.c and kernel/idt.c up to the loading of the tables, and isr_handler
--   Ata             kernel/ata.c: Ata has the waits, the registers and ata_identify, Ata/Transfer the
--                   reads, the writes and ata_init
--   Minixfs         kernel/minixfs.c. Minixfs/Disk has blocco_leggi and blocco_scrivi over the device,
--                   Minixfs/Bitmap the bitmaps, Minixfs/Types and Minixfs/Bytes the structs and their
--                   fields on the disk, Minixfs/Inode minixfs_init and the inodes, Minixfs/Zone the
--                   zones, Minixfs/File minix_read and minix_write, Minixfs/Directory the directories
--                   and minix_create, Minixfs/Ops the operations as the virtual filesystem calls them.
--                   The other children prove; Minixfs/Ram is a disk in memory for the runs
--   Vfs             the calls of kernel/vfs.c. Vfs/Types has the data of include/vfs.h, Vfs/Resolve
--                   vfs_resolve and the mounts, Vfs/Create spezza_path, crea_ultimo and vfs_mkdir,
--                   Vfs/Descriptors the table of files, the descriptors, the second half of vfs_open
--                   and vfs_close, Vfs/Calls the rest of vfs_open, vfs_read, vfs_write and
--                   vfs_readdir, Vfs/Seek vfs_lseek and vfs_mount. The other children of Vfs prove;
--                   Vfs/OnTop and Vfs/Follow describe vfs_resolve without its code.
--
-- Conventions. A call that returns -1 for a failure returns `none` or `false` here, and what a call
-- changes is the state that it returns. A C pointer to an inode is a number, and 0 is the null
-- pointer. The filesystems below the virtual filesystem are the operations of an inode, over a world
-- `W` of their own that every call passes on: nothing is assumed of them but what a theorem names. The
-- block device under kernel/minixfs.c is a parameter, and where a theorem needs it the device keeps
-- its blocks (Minixfs/Disk): it reads whole blocks, gives back what was written, and leaves the other
-- blocks alone. An inode of minix is the index of its slot in the cache, its address one more. A
-- call that the C code answers by reading or writing outside an array, or through a null pointer, is
-- a `fault`.
--
-- Bounds. The loops over tables have the sizes of the source: 8 tasks, 8 descriptors for each, 32
-- files, 4 mounts, 16 devices, 64 inodes in memory. The loop of vfs_resolve has no bound in the
-- source; the model gives it one round more than the path has bytes, and Vfs/Descend shows that it
-- never needs more. That of rtc_seconds_raw has as many rounds as a theorem gives it: Rtc/Polls shows
-- that those of the longest update are enough, and Rtc/Stuck a clock for which no number is. The loops
-- of minix_read and minix_write have as many rounds as bytes, and those over a directory as many as
-- it has bytes: each round passes at least one. The digits of put_uint have 32 rounds, enough for 32
-- bits in any base from 2 on. Numbers are
-- natural; the 32-bit wrap is written out where the code can reach it: the indices of the ring, the
-- offsets of files and the stack pointers.
--
-- Not modelled: assembly, the loading of the tables of the processor, boot, the self tests, the
-- serial line, what a panic prints, and the parts that the shell only prints. The rest of
-- kernel/shell.c is not part of the library yet. Ports are a parameter: a theorem about a chip names
-- what it assumes of it. Interrupts that are off around a loop make it one step.
pub mod Ata
pub mod Base
pub mod Bits
pub mod Blockdev
pub mod CString
pub mod Dev
pub mod Devfs
pub mod Devio
pub mod Gdt
pub mod Idt
pub mod Keyboard
pub mod Kprintf
pub mod LineEdit
pub mod Minixfs
pub mod Pic
pub mod Ports
pub mod Procfs
pub mod Ring
pub mod Rtc
pub mod Shell
pub mod Task
pub mod Timer
pub mod Vfs
pub mod Vga
