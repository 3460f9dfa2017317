-- ===== src/Lib.antt =====
-- A verification library for xv6 on RISC-V: the kernel in kernel/ and its user programs in user/.
--
-- Each C file that is modelled has a module of its name, which translates its functions under the
-- names of the source. The modules below it hold the proofs, named for what they prove, and an
-- Examples module with runs at concrete inputs. Prelude holds the numbers, tests and lists that
-- they share.
--
--   Log           kernel/log.c. A transaction is the system calls from begin_op to end_op; log_write
--                 lists a block, and the last end_op commits. Log.Machine is the state: `struct log`,
--                 the disk, and the blocks that kernel/bio.c has cached. A disk write uses up power,
--                 and a run ends when it is gone: the disk is then all that is left, and initlog
--                 starts from it. commit, install_trans and write_log are written with their loops
--                 over the log, which run on `n`, so no fuel is needed. Log.Crash and Log.Phases say
--                 what the disk holds at each write; Log.Reserve has the system calls as a relation.
--   Pipe          kernel/pipe.c. The ring of PIPESIZE bytes with its two 32-bit counters, which
--                 wrap. A call gives up its lock only to sleep, so what it does up to then is one
--                 step, and Pipe.Fifo lets readers and writers take steps in any order.
--   Kalloc        kernel/kalloc.c. The list of free pages runs through the memory of the pages
--                 themselves. freerange runs on fuel for as many pages as lie below PHYSTOP.
--                 Kalloc.Owners has the callers, which own the pages they got, and write to them.
--   KernelString  kernel/string.c. Loops run on the count that the caller gives; strlen has none and
--                 runs on fuel, of which one more than the length is enough.
--   Grep          user/grep.c. Patterns and texts are byte lists; grep reads its input in pieces of
--                 sizes that the system chooses, one for each read.
--   Bcache        kernel/bio.c. The buffers of bcache and the list through them, most recently used
--                 first. Bcache.View says what a block shows, which is what Log.Machine, the log's
--                 picture of the cache, has bread return.
--   Console       kernel/console.c. Console.Ring reads the ring as two lists, the pending bytes and the
--                 line that is edited; Console.Edit, Typed and Read have an editor and a reader of
--                 lists. ^U runs on fuel for a full ring, and the line is never longer.
--   Spinlock      kernel/spinlock.c, on any number of cpus. acquire and release are each several steps,
--                 between which other cpus take theirs.
--   Proc          kernel/proc.c. The process table, with parents, pids, channels and states. Each of
--                 exit, wait, kill and the others is one step on it, up to a sleep, and fork is three,
--                 since it gives up the lock of the new process in between; Proc.System has the runs,
--                 in which the steps of all processes interleave. The loops over the table run on the
--                 number of slots.
--   Ulib          user/ulib.c, on the memory of KernelString. strcpy, strcmp, strchr and atoi run on fuel,
--                 of which one more than the length of the string is enough.
--   File          kernel/file.c. The reference counts of the open files; File.Holders has the holders.
--   Sleeplock     kernel/sleeplock.c. Processes take and release one lock in any order.
--   Fs            kernel/fs.c, on the blocks of one device, the root disk, which `dev` of every inode
--                 names. Fs.Disk has blocks as bytes, with the numbers in them, and the state; Fs.Bitmap has balloc and bfree; Fs.Inodes the inodes on the disk
--                 and in the table; Fs.Content bmap, readi and writei; Fs.Truncate itrunc and iput;
--                 Fs.Directory and Fs.FilePath the rest. Below Fs.Content, Blocks, Steps, Entry and Mapped
--                 say how the map of a file grows, Bytes what its bytes are, Paste, Writes, Rounds and
--                 Finish what a write does to them. readi and writei run on fuel for n rounds, and every
--                 round moves a byte at least; namex on one round more than the path has bytes.
--   Shell         user/sh.c, the parser. Shell.Commands and Shell.Tokens have its data and gettoken; the
--                 parsers run on fuel, one more than the bytes to go, and each round reads one.
--   Printf        user/printf.c, which returns the bytes that it writes. buf of printint has 16 bytes, of
--                 which a decimal takes 11, and the fuel of 33 is one more than the bits of a uint.
--   Uart          kernel/uart.c, the transmit ring. uartstart runs on fuel for a full ring.
--
-- Left out: the hardware and what is written in assembly (kernel/start.c, kernel/trap.c,
-- kernel/swtch.S and others), device drivers (kernel/virtio_disk.c, kernel/plic.c), and the host tool
-- mkfs/mkfs.c, which are registers and input or output with little to state; so is the receive
-- side of kernel/uart.c. Virtual memory, fileread and filewrite, the user's malloc and the shell's
-- runcmd are not modelled, nor what fork and exit do to memory and to open files. What a copy
-- between the caller and the kernel does is a parameter of readi and writei.
-- A lock that a function holds from start to end is not part of its model.
pub mod Bcache
pub mod Console
pub mod File
pub mod Fs
pub mod Grep
pub mod Kalloc
pub mod KernelString
pub mod Log
pub mod Pipe
pub mod Prelude
pub mod Printf
pub mod Proc
pub mod Shell
pub mod Sleeplock
pub mod Spinlock
pub mod Uart
pub mod Ulib
