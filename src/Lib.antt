-- ===== src/Lib.antt =====
-- A verification library for the programs of this repository:
--
--   FileSystem, Memory  exam5/File_System/main.cpp, the simulation of a FAT file system on a virtual
--                       disk of one megabyte
--   CharDriver          the character driver exam3/exam3-1/c_driver.c
--   BlockDriver         the block driver exam3/exam3-2/blk_dev.c
--   MessageQueue        the two threads of exam4/4/msgqueue.c
--   SharedMemory        the two programs of exam4/5, sender.c and receive.c with common.c
--   Pipe                the four processes of exam4/3/pipe.c
--   ProcessList         the kernel modules exam2/1/first.c and exam2/2/second.c, which print tasks
--   Priority            the system call mysetnice of exam1/sys.c, with setpriority and getpriority
--
-- The file system keeps three global things: the disk VDPtr, the table OftList of ten open files, and
-- the index currOftIndex of the current directory in that table. A command works on the disk through
-- pointers into it, and on the copy of a file's control block that the table holds. The parts:
--
--   Memory       the disk as a byte memory (`Mem`), with the reads and writes of little-endian words,
--                and memset, memcpy, strcpy and the comparison of strings; Memory/Token is strtok.
--   Fcb          struct FCB: its fields at their offsets on a 64-bit machine (`sizeof (fcb)` is 32),
--                judgeDir, fileNameMatch, initFcb, initFcbTime, viewFcbTime, updateFcbTime.
--   Fat          get_block_ptr, the entries of the first table, getNextVhdBlock, the copy to the
--                second table, deleteFileAtFat and deleteDirAtFat.
--   Dir          the entries of a directory: getNextFcb, getIndexOfFcb, findFileAtDir, and the search
--                that createfile makes.
--   Oft          struct OFT and FDT, the state `Fs`, initFdt, initOft, getNextOft, findParentOft.
--   Create       initFileFCB and createfile, for data files and directories.
--   Delete       deleteFile. Delete/Tree is the tree of files below a directory, Delete/Walk the walk over
--                it, and Delete/Undo what is left when a new file is deleted.
--   Failure      what createfile and deleteFile leave when they fail.
--   Write        writePreProcess and do_write, each of its loops a function of its own.
--   Read         my_read with what it prints.
--   Format       my_format, with the boot block, the tables, the root directory and the slots.
--   Open         my_close, initOftByFileName and my_open.
--   Control      my_ctrl.
--   Usable       a file that createfile makes, my_open opens, do_write writes and my_read reads.
--   Cd           open_curpath and my_cd, each of their loops and branches a function of its own.
--                Open/Stack and Cd/Stack hold the invariant of the slots, a path from the root.
--   Listing      my_ls and printFile, which gives the arguments of its printf.
--   Input        my_write, with the characters that are typed as a list.
--   Session      initsys and my_exit_sys, with what the host's file holds.
--   Command      getIndexOfCmd, excuteCmd and the loop of main, on a state `World` that has the input,
--                the output and the host's file beside `Fs`.
--   Sample, Examples, TreeExamples, SessionExamples
--                a small disk, and the theorems applied to it.
--
-- An operation takes the state `Fs` and returns its value with the state after it. The disk is a
-- function from addresses to bytes, so an address past the end of the array is a place like any other:
-- a theorem that bounds what changes shows that nothing outside has changed. The control block of an
-- open file is a byte memory of its own at address 0. `clock` holds what the calls of time and
-- localtime will read, in order; theorems hold for any clock. Messages on the terminal are left out,
-- except for what my_read and my_ls show. A result `none` stands for a loop that does not end or
-- for undefined behaviour, as the comment at each definition says. `dirName` holds at most 79 bytes and a NUL
-- (`DirName`); a path that is longer runs over its end and is such behaviour. The host's file is opened in
-- text mode: what it holds after fwrite, and what fread gives back, is the parameter `HostFile`, and that
-- the bytes come back, as POSIX says, is `KeepsBytes`.
--
-- Loops run on fuel or on a count: the table of entries has 32 places and fcb_rounds is 32768;
-- delete_rounds and cut_rounds are 65536, more than there are blocks, and than the walk over a tree
-- of directories needs, which Delete/Tree bounds by 33 rounds a block; the loops of do_write and
-- my_read have one round more than bytes, or than the file pointer. The theorems that an operation
-- returns show that this is enough. A block number is an unsigned short, a length an unsigned int,
-- and both wrap where the source's do. close_rounds is 10, the number of slots, which
-- Cd/Leave shows to be enough on a path; the loop of my_cd over a path has one round more than the
-- path has bytes, and the calls of my_cd by itself are a number of the caller's.
--
-- CharDriver has the functions of the driver by their names. The kernel's copies to and from a process
-- are the parameter `UserCopy`, with what the kernel documents of them as `Copies`; Session has the
-- calls of any processes as steps on the device's memory and the positions of its open files, and
-- Setup what the module holds of the kernel.
--
-- BlockDriver has do_my_blk_request on a list of requests, each with its bios and their pages, and
-- what the module holds of the kernel. `bio_cur_bytes` is a parameter. The offset of a bio is an
-- unsigned long and wraps as in the source.
--
-- MessageQueue, SharedMemory and Pipe have the programs as steps on a state that they share, in any
-- interleaving: the first as an indexed relation, the others as functions for the next call of each
-- program. Every call succeeds, and texts have any length; in SharedMemory the names of the
-- semaphores and the segment come and go with the calls that make and remove them. In Pipe a write of 30
-- bytes is not divided, and what is printed stands in the order of the printf calls, as on a terminal.
--
-- Priority has tasks as numbers, with a table of their nice values, each 20 higher. What the kernel
-- gives otherwise, among it set_user_nice, is the record `Kernel`, and what is used of set_user_nice
-- is `SetsNice`. The two calls have the same switch over `which`, which is `tasks_of`.
--
-- ProcessList has the two modules as functions to the lines that they print. A task is a number, and a
-- list head in it is the task with the name of the member; the kernel's lists are the record `Kernel`,
-- and what is used of list_for_each is `Visits`, on lists that a function `next` links to a circle.
--
-- Not modelled: the other calls of exam1/sys.c, a copy of the kernel's, and its tables; the reference
-- ramdisk, a driver of others; the shell of exam4/2 and the test programs, which only call the system
-- and print.
pub mod Common
pub mod Memory
pub mod FileSystem
pub mod CharDriver
pub mod BlockDriver
pub mod MessageQueue
pub mod SharedMemory
pub mod Priority
pub mod Pipe
pub mod ProcessList
