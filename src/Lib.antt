-- ===== src/Lib.antt =====
-- pipefs: a FUSE file system that shows each file with a given suffix as the output of a command.
--
-- A source file is found by translating the suffix of the name that is asked for (src/util.c). Its
-- command's output is collected in a cache (src/controller/Cache.cpp), in which readers wait for
-- bytes that have not come yet. The caches are kept by name with the number of their users, and the
-- unused ones are removed when they take too much space (src/controller/BasicCaches.hpp). One
-- thread starts the commands, up to a limit, and copies their output to the caches
-- (src/controller/BasicReadLoop.hpp).
--
-- The files, and the code that they are about:
--   Common      lists, dictionaries, equality, signed integers and texts; no code of the program.
--   Util        src/util.c: is_suffix, translate_suffix, translate_file. Util/Suffix has the laws.
--   Cache       src/controller/Cache.hpp and Cache.cpp: write, read, finish, is_finished, get_size.
--               Each is the critical section of the method of that name. Cache/Reading is about what
--               readers get, Cache/Monitor about the mutex, the condition variable and the loops
--               that wait on it.
--   Caches      src/controller/BasicCaches.hpp: get_if_present, get, release, cleanup and add, on
--               the map `caches`. Caches/Sorting has what std::sort promises, Caches/Sweep and
--               Caches/Cleanup are about the removal of entries, Caches/Users and Caches/Usage about
--               the users.
--   ReadLoop    src/controller/BasicReadLoop.hpp: cancel, add and remove post handlers; `handle` runs
--               one. ReadLoop/Step has the schedules, ReadLoop/Limit the process limit,
--               ReadLoop/Order the queue, ReadLoop/Owner and ReadLoop/Ownership the streams,
--               ReadLoop/Contents what reaches the caches, ReadLoop/Draining and ReadLoop/Rest what
--               is left to do once no other thread calls it; ReadLoop/Watch, Settling, Expected and
--               Serving what comes of every command, every task and every cache.
--   SignalHandler src/controller/SignalHandler.cpp: start, cancel, wait and the handler, on a signal
--               set. SignalHandler/Reaping has the schedules of children and signals.
--   IoThread    src/controller/IOThread.cpp: start and stop.
--   SystemError src/controller/SystemError.hpp: a call returns, throws a system error, or breaks off.
--   SpawnCommand src/controller/SpawnCommand.cpp and FileData.hpp: `spawn_command` is the parent and
--               `run_child` the child. SpawnCommand/Wiring is about the descriptors of both.
--   Controller  src/controller/Controller.cpp: `open_file` (open), `preload`; Controller/Access has
--               `read` and `release`, Controller/Commands createCommand and the handlers of the read
--               loop that start it, Controller/Stat the attributes and the waits,
--               Controller/CInterface the functions of src/controller/pipefs_controller.cpp.
--               Controller/Session is a schedule of calls; Users, Frames, Served, Release and
--               Invariant are about caching, Direct about files without a cache, Opening about the
--               branches of `open`. Controller/Seekable is about the tasks of files that have a cache
--               of their own, which hold the address of the file: Pending, Waiting, Guarded, Frames,
--               Runs, Opens, Calls and Starts lead to FreedFiles.
--   Flags       src/data.h: the flags and their bits.
--   Fuse        src/functions_common.c and src/functions_translate.c: pipefs_fullpath, has_source_path,
--               check_suffix, pipefs_getattr; Fuse/Handles has pipefs_fgetattr, pipefs_open,
--               pipefs_read and pipefs_release, Fuse/Directory pipefs_readdir. Fuse/Visible is about
--               the names that there are, and the errors.
--   Fuse/PassThrough src/functions.c: the system calls and the macros that refuse. Entries has the
--               operations on the entries of directories, Attributes those on attributes, OpenFiles
--               `create` and those on open files, Operations the table of src/operations.c.
--               Translated, Hidden, Errors and Lifetimes are about them.
--   CommandLine src/command_line.c: parse_preload and parse_size; CommandLine/Options has the loop of
--               parse_arguments and the checks of bin/main.c, CommandLine/Sizes and
--               CommandLine/Preload are about the two parsers.
--   Strtok      the loop over `strtok_r` of src/command_line.c and src/log.c; Strtok/Pieces compares
--               it with the pieces between delimiters.
--   Log         src/log.c: log_open and log_msg. Log/Lines is about the lines.
--   Program     bin/main.c after its checks, and pipefs_init and pipefs_destroy of
--               src/functions_translate.c. Program/PidFile is about the pid file.
--   UnitTest    UnitTest/utilTest.cpp, CacheTest.cpp, command_line_test.cpp, CachesTest.cpp and
--               ReadLoopTest.cpp, with what they use of the mock objects: the checks of each suite as
--               a list. SpawnCommandTest.cpp runs processes and is left out.
--
-- How they interact: a FUSE operation translates its path with Util and calls the Controller, which
-- keeps a use of a cache in Caches and posts a task to the ReadLoop; the ReadLoop starts the task's
-- command with SpawnCommand and writes its output to the Cache, which the Controller reads.
--
-- Numbers: sizes and positions are natural numbers. The `int` that `read` returns is the low 32 bits
-- of the size, with a sign; the usage count is an `unsigned` modulo 2 ^ 32 and the total size in
-- `cleanup` a `size_t` modulo 2 ^ 64. Addresses of caches, streams and tasks are numbers, and a map is
-- a list of pairs with one entry for a key. Bytes are numbers, and a C string is the list of its bytes.
-- `%u` of sscanf is read as a number modulo 2 ^ 32.
--
-- Fuel: only the client in Cache/Reading that reads to the end runs on fuel; more fuel than there
-- are bytes left is enough, which its theorem assumes, and the loop over `strtok_r`, with a round for
-- every byte and one for the end, which is enough by its theorem. The loop of
-- UnitTest/ReadLoopTest has as much as its runs need. The other loops are structural.
--
-- Parameters: the results of system calls, the clock, `std::sort`, the descriptors that new streams
-- get, and whether a `weak_ptr` can still lock its cache (Controller/Commands defines this by who
-- holds the cache), the signal set of Boost, and `fuse_main`. Each is an argument or a record of laws.
--
-- Atomicity: a method of Cache or Caches is one step, as its mutex makes it. A call of the controller
-- is one step too, although other calls may come between its parts.
--
-- Not modelled: what the log messages of the program say, but for those of its start and end; the
-- overflow of a path buffer; releases of a file under another path than that of its opening; calls
-- that other threads make between the parts of a call or a handler; the io_service of Boost but for
-- the order in which its thread runs what is posted; src/signal_handler.c, which nothing calls; how
-- getopt_long reads the command line. A command's output buffer of 65536 bytes appears as the bytes
-- that a completed read brings.
pub mod Common
pub mod UnitTest
pub mod Util
pub mod Cache
pub mod Caches
pub mod ReadLoop
pub mod SystemError
pub mod SpawnCommand
pub mod Controller
pub mod SignalHandler
pub mod IoThread
pub mod Flags
pub mod Fuse
pub mod Strtok
pub mod CommandLine
pub mod Log
pub mod Program
