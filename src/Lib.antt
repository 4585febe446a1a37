-- ===== src/Lib.antt =====
-- Verification of the C programs of this repository: a shell, a user file system in memory, a
-- growing array, a thread pool, a `dup2` of its own, and small programs on threads. The programs
-- do not call each other. Each has a module named for it, with the theorems in the modules below
-- it and its runs in `Tests`.
--
-- The shell's parser (src/shell/shell.c, src/shell/shell.h). Shell.Lexer has `gettoken`, `peek`
-- and `mkcopy`; Shell.Heap the command structs on a heap, with `command_create_exec` and its like;
-- Shell.Parser the functions `parse_command` to `parse_redirects` under their names. A pointer
-- into the line is the text from it on. A node is a position on the heap, and a `command_exec *`
-- that points to another struct is the outcome `fault`. Shell.Syntax is a grammar of pipelines
-- with the command that each means, and Shell.Command reads a heap back as a command. The loops
-- take fuel: `parse_command` gives one round more than the line has bytes, which is enough since
-- each round takes a byte or ends.
--
-- Shell.Run is `run_cmd` on such a command. A process is its name and its descriptor table
-- (Shell.Descriptors, where `close`, `open`, `pipe` and `dup2` do what POSIX says), and a run is
-- the list of the ends of all processes that it forks, from left to right: a program launched with
-- its arguments and its descriptors, an exit, an overrun buffer, or a return to the caller. Which
-- calls of `execv`, `open`, `pipe` and `fork` succeed is a parameter, World. `run_cmd` is
-- structural on the command, so that it needs no fuel. Shell.Run.Wiring says which program gets
-- which files, Shell.Run.Pipelines and Shell.Run.Tables that `run_cmd` does so, Shell.Run.Lines
-- joins this with the parser, and Shell.Run.Failures has failing calls. Shell.Run.Rounds is the
-- loop of src/shell/shell_main.c on lines that are parsed, where every process that returns from
-- `run_cmd` goes on with the lines that are left in the buffer of its standard input. The limits
-- on descriptors and on a process's arguments are not modelled, and `wait` changes nothing that
-- is. Shell.Input is `scan_cmd` over a model of `fgets`, without the prompt, and the reading loop
-- of src/shell/shell_main.c, on fuel: one round more than the input has bytes is enough, since
-- each round takes a byte.
--
-- Shell.Popen is `popen` and `pclose` of src/shell/popen.c, which stand in a comment there, over
-- the same descriptor tables. What `open_max`, `calloc`, `pipe`, `fork`, `fdopen`, `fclose` and
-- `waitpid` give is a parameter; `errno` is the reason in the result. Shell.Popen.Streams has a
-- stream from its opening to its end, Shell.Popen.Child the child. Shell.OpenMax is `open_max` of
-- src/shell/open_max.c, with what `sysconf` gives as a parameter.
--
-- The file system (src/fs/userfs.c, src/fs/userfs.h). Ufs.State has the structs and the static
-- variables, with a heap of files and one of descriptors, where freed memory is `none`; Ufs.Blocks
-- `allocate_block`, `read_data` and the loop of `file_size`; Ufs.Files the list of files and
-- `write_data`; Ufs.Calls the calls from `ufs_open` to `ufs_delete`, Ufs.Program the main that
-- stands in a comment. Ufs.Files.Directory reads the list of files as a directory.
-- `find_file_struct` takes as much fuel as there are files on the heap, which is enough since each
-- `prev` leads to an older file. `assert` stops the run as `abort`, undefined behaviour as
-- `fault`, and `malloc` is taken to succeed. The array of descriptors has any length, of entries
-- that may be uninitialised.
--
-- Ufs.Spec is what these calls promise, without pointers: files by number, with their contents,
-- handles by descriptor number, a directory, and the last error with its messages. A call there is
-- `none` where userfs.c keeps no promise: at a number that is not open, a mode that was never set,
-- a file that was not written, a full array of descriptors, a search by name once a file was
-- freed, a write of no byte, of more than 2^30 or of more than the caller has, a read but of a
-- file of one to seven bytes in rounds of eight from the offset behind them, and a close of any
-- number but the last. Ufs.Spec.Represents says when a state of userfs.c stands for one of the
-- specification; Creating, Reopening, Opening, Writing, Reading, Deleting and Closing beside it
-- have one call or part each, and Ufs.Spec.Runs sequences of calls.
--
-- The array (src/array/array.c, src/array/array.h) is Array: `size_t` wraps around at 2^64, and a
-- capacity goes through an `int`. `malloc` gives NULL above PTRDIFF_MAX bytes, and memory below.
--
-- The thread pool (src/threads/thread_pool.c, src/threads/thread_pool.h). Threads.Pool has the
-- functions under their names; a push and a round of `process_task` are one step each, as both
-- hold the mutex from start to end. Threads.Queue reads the queue as a list, Threads.Rounds has
-- what a round does, Threads.Schedule any order of steps, Threads.Progress the writes of a round
-- to its task one by one, since a join reads the flags without the mutex, Threads.Start the start
-- of a pool, Threads.Life the end of a task, Threads.Program `test_ret` and the main of
-- thread_pool.c, and Threads.UnitTests the tests of src/threads/thread_pool_test.c, of two of them
-- the part up to the check at which they exit. The functions that tasks run are a parameter, from
-- a function and an argument to the pointer that it returns: NULL, to an `int` from `malloc`, or
-- to memory elsewhere, and so is which of the calls of `pthread_create` succeed. `process_task`
-- takes the number of rounds; a thread ends behind 10^9 of them, and `thread_pool_join` takes the
-- rounds that are left.
--
-- The programs of src/thread_yt stand in comments in their files. ThreadYt.System has threads that
-- share a memory, and the interleavings of their moves as an indexed data type; each program is a
-- data type of the moves of one thread. ThreadYt.Semaphore is thread_semaphore.c and
-- thread_login_queue.c, ThreadYt.ProdCons prod_cons.c, ThreadYt.Fuel thread_cv.c,
-- ThreadYt.Deadlock thread_deadlock.c, ThreadYt.Trylock thread_trylock.c, ThreadYt.Recursive
-- thread_recursive_mutex.c, ThreadYt.Primes thread_mutex.c, and ThreadYt.Pool thread_pool.c, with
-- the array in ThreadYt.Pool.Contents. A lock and a semaphore are moves that need the lock free or
-- the value positive; `pthread_cond_wait` gives the lock free and goes on behind a later broadcast
-- or a signal, or without one where AnyMove is the moves. Printing and sleeping are no moves. All
-- threads are taken to be created.
--
-- `dup2_impl` (src/shell/mydup2.c) is Dup2. `dup` and `close` are parameters over a state of the
-- process. The loop on `dup` takes fuel: one round for each descriptor that `dup` returns is
-- enough, and the C code does not end where `dup` never returns `newfd`.
--
-- Common has what the parts share: tests, lists and sums over the native numbers, and Cmd, a state
-- monad whose runs may stop, with Ensures for what a run gives.
--
-- Not modelled: the directory that the shell's `cd` changes, and the parts of its input that are
-- not in the buffer when it forks; of src/thread_yt, the programs that only create threads that
-- print; the tests of the shell, and of the pool what stands behind the checks at which they exit.
pub mod Array
pub mod Common
pub mod Dup2
pub mod Shell
pub mod ThreadYt
pub mod Threads
pub mod Ufs
