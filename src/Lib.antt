-- ===== src/Lib.antt =====
-- ZeOS with a FAT32 file system: a teaching kernel with processes, semaphores, paging, and files on
-- an IDE disk.
--
-- The parts and how they interact:
-- * file-system/fat32.c keeps the table of clusters in memory and on disk; searchFile, createFile,
--   deleteFile, readFile and writeFile work on paths and first clusters. Fat holds the state of its
--   globals and the disk; Fat/Boot, Path, Entry, Table, Cluster, File, Search and Directory hold its
--   functions, and their child modules what is proved of them.
-- * zeos_full/sys.c has the system calls on files: descriptors lead through the channel table of the
--   process to the open file table and its first cluster and offset. Sys has the tables, Sys/Path
--   split_filename, Sys/Files the calls.
-- * zeos_full/sched.c is Sched: tasks, queues, the quantum and the statistics. zeos_full/sem.c is Sem,
--   over the queues of Sched. zeos_full/mm.c is Mm: frames and page tables. zeos_full/utils.c is
--   Utils: the copies and the check of user pointers, which the system calls use.
-- * The processes of zeos_full/sys.c, with init_idle and init_task1 of zeos_full/sched.c, are Process,
--   over Sem, Sched and Mm: sys_fork, sys_clone, sys_exit, sys_getstats.
-- * zeos_full/libc.c is Libc: each call goes through the handler of zeos_full/entry.S and the table of
--   zeos_full/sys_call_table.S to a routine of the kernel, and an error goes to errno.
-- * disk-driver/ide.c is Ide: its loops on the status register, idesetblock, idewrite, ideread and
--   ide_check_disk, over a bus. Ide/Drive says what is relied on of the device, and Ide/Refine that
--   the driver is then the disk of Fat.
-- * zeos_full/io.c is Screen, zeos_show_clock of zeos_full/zeos_interrupt.c is Clock, and the
--   descriptor table of zeos_full/interrupt.c with the keyboard is Trap. The texts of numbers, itoa and
--   itoahex, are Text, which Clock and Ide use.
-- * zeos_full/zeos_semaphores.c is Zsem: the second implementation of semaphores, an array over the
--   same queues.
-- * zeos_full/list.c is Ring: the links of all rings, and that a ring stands for the list of its
--   nodes; Sched and Sem have these lists in its place.
-- * Base has what these share: tests on numbers, lists, the outcome of code, and the C int.
-- * Examples and Fat/Examples apply the theorems to a small kernel and a small disk.
--
-- How code is read: a function is a function by clauses on the state that it uses, under the name of
-- the code in lower case with underscores. An outcome is `ok`, or `fault` for undefined behaviour
-- (an index outside an array that is read or written by the table or buffer code, a division by
-- zero, an int that overflows), or `out_of_fuel` for a loop that is still running. What the code
-- reads uninitialised is an argument named for the stack. A sector is a function of the index, a
-- disk one of the block; unsigned arithmetic is taken modulo 2 ^ 32 where it can wrap.
--
-- Fuel: the walks along a chain (allocateCluster, deleteFATchain) have fuel for the 2048 clusters of
-- the table, which is enough for every chain without a repetition; a walk that needs more never
-- ends. The searches through directories take their fuel as an argument, since a directory whose
-- chain is a cycle is searched for ever; the theorems say how much is enough. The loops of the driver
-- on the status register take fuel too, since a device that never answers stops them for ever; for a
-- device as in Ide/Drive more fuel than its latency is enough, or five readings where an error ends
-- the loop. The digits of a number have fuel for the ten decimal or eight hexadecimal digits of a
-- 32-bit one. The other loops run over an array or a buffer, with a fixed number of rounds.
--
-- Disk: Fat has idewrite and ideread by their contract, that a block that is written is what is read
-- back. Ide has their code; the device behind the ports is a parameter, and Examples/Drives has one
-- for which all that is relied on holds. The clock get_ticks and what the stack holds are arguments.
--
-- Not modelled: assembly other than the table and handler of system calls, start-up code, the printing
-- under ide_debug, the routines of exceptions, which halt, and the image builder, which is a program of
-- the build machine.
pub mod Base
pub mod Fat
pub mod Utils
pub mod Sys
pub mod Sched
pub mod Sem
pub mod Mm
pub mod Ring
pub mod Ide
pub mod Text
pub mod Screen
pub mod Clock
pub mod Trap
pub mod Libc
pub mod Process
pub mod Zsem
pub mod Examples
