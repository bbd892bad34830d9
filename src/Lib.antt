-- ===== src/Lib.antt =====
-- The programs of a course on operating systems: a shell (sem_1/homework), a file that is sent
-- through two pipes (sem_2/homework) and through shared memory, a message queue and a FIFO
-- (sem_3/homework), an integral from random points that threads share (sem_4/homework), a file
-- copy by signals and shared memory (task_5/homework), a daemon that watches and backs up files
-- (task_6/homework), a file server over FIFOs and its client (task_7/homework), and an integral
-- that servers on a network share (task_8/homework).
--
-- Shell is the command parser of the shell, sem_1/homework/src/command_parser.c. Shell/Parser
-- holds ParseCommandLine and its helpers (parse_command_line, add_argument, fix_before_tok,
-- fix_after_tok); `grants n` says whether the n-th call that asks for memory is given it.
-- Shell/Parser/Bounds is about the sizes of the table, Shell/Parser/Reference describes the
-- commands of a line without the parser, Shell/Parser/View relates the table to that description,
-- Shell/Parser/Split compares the two, and Shell/Parser/SecondBar is about a token with two bars.
-- Shell/Launch is the loop of RunCmd in src/run_cmd.c that starts the commands, over tables of
-- descriptors, and Shell/Launch/Wiring says which pipe stands between which commands.
--
-- Duplex is sem_2/homework. Duplex/Descriptors says what stands behind a descriptor and what read
-- and write do there, Duplex/Processes has src/duplex_pipe.c and src/main.c with one state for
-- each process, Duplex/Kept is about the bytes that the parent copies, Duplex/Copy about its loop,
-- Duplex/Closed about the end of main, and Duplex/Echo about the child. What the other process
-- does to a pipe is given: `incoming` are the results of its reads, `accepts` those of its writes.
-- The parent's wait for the child comes back where neither process holds an end of a pipe that
-- could keep the child waiting, and fork may fail.
--
-- SharedCopy is sem_3/homework/src/shm_main.c from fork() on. SharedCopy/System has the two
-- processes as a step relation, with a step for each statement that the other can see and for each
-- way that a system call may end; SharedCopy/Invariant says who holds the token and what the
-- file's parts are, SharedCopy/ParentMoves and SharedCopy/ChildMoves follow it through the steps,
-- and SharedCopy/Safety is about every run.
--
-- MessageCopy is sem_3/homework/src/mq_main.c and FifoCopy src/fifo_main.c, both from fork() on
-- and as step relations like SharedCopy: MessageCopy/System and FifoCopy/System have the two
-- processes, with a step for each call and each way it may end, MessageCopy/Invariant and
-- FifoCopy/Invariant say which part of the file stands where, MessageCopy/Moves follows it through
-- the steps, MessageCopy/Safety and FifoCopy/Safety are about every run, and MessageCopy/Early is
-- about a part of the file that looks like the message for the end.
--
-- MonteCarlo is sem_4/homework/src/calculate.c. MonteCarlo/Points has the loop of MonteCarloThread
-- and what CalculateIntegral gives to each thread, MonteCarlo/Threads the threads on their lock
-- and counter as a step relation, and MonteCarlo/Counter is about every run of them.
--
-- FileServer is task_7/homework. FileServer/Table has the table of clients of src/server/server.c
-- with the open and the watched descriptors, FileServer/Commands process_client_command,
-- FileServer/Registration register_new_client and process_registration_commands, and
-- FileServer/EventLoop the loop of src/server/main_server.c and the end of the server. The answers
-- of the kernel are the record Os, asked with a clock that goes on with each call; what the
-- descriptors give to read is part of the turns of the loop. FileServer/Invariant and
-- FileServer/Steps are about the table and the descriptors, FileServer/Shutdown about the end,
-- FileServer/Dispatch about the events of a client. FileServer/Transfer has send_file_to_client
-- and receive_file of src/client/client.c, and FileServer/Delivery what passes between them.
-- FileServer/Client has the client's send_get_command, and FileServer/Asking what the server makes
-- of it. FileServer/Session has register_client and main of src/client/main_client.c as the list
-- of calls they make, with what each call gives as a parameter, the unlink of cleanup_fifo
-- (src/fifo.c) among them; FileServer/Left, FileServer/Cleanup and FileServer/Departure are about
-- the FIFOs and descriptors that these lists leave. A file asked for starts a thread: the model
-- keeps the list of these tasks, and the bytes of one transfer are separate from the loop, with
-- the server's running flag as a parameter.
--
-- Signals is task_5/homework. Signals/Handlers has the two handlers of src/handler.c over the
-- shared data of include/shm.h, Signals/System the start of src/main.c and the runs of handlers as
-- steps, Signals/Chunks the chunks that wait in a queue, and Signals/Integrity the copy as a
-- whole.
--
-- Monitor is the watch of task_6/homework. Monitor/State has MonitorState of include/daemon.h,
-- Monitor/Watch add_inotify_watch_recursive of src/daemon.c over a tree of directories that stands
-- for what opendir and inotify_add_watch give, and Monitor/Events process_inotify_events. What a
-- path holds and whether it is text are parameters. Monitor/Added is about the watches and
-- Monitor/Queue about the queue of changed files. Monitor/Names has make_backup_relative_path of
-- src/backup.c, and Monitor/Diffs the file that save_diff writes and the loop of
-- restore_file_to_sample that takes the metadata off; Monitor/Cleaning is about the two.
-- Monitor/Changes has find_changed_files, with stat and the files of the directory given,
-- Monitor/Settled is about the look at one file and Monitor/Again about a second search.
-- Monitor/Search has search_files_in_dir of src/file.c over a listing of the directories.
-- Monitor/Disk has the files by their paths and the copy of one, Monitor/Backups
-- create_full_backup, save_diff and create_incremental_backup, and Monitor/Restore
-- restore_file_to_sample; what popen of diff prints and what system does for patch are parameters.
-- Monitor/Paths tells the files in BACKUP_DIR apart, Monitor/Saved is about the full backup,
-- Monitor/Sampled about the diffs of a sample, Monitor/Restored about the way from a backup and a
-- diff to the file, Monitor/Patched about the diff that save_diff writes on that way,
-- Monitor/Returned about a sample and its restore together, and Monitor/Kept about later samples.
-- Monitor/Commands has read_command of src/ipc.c and Monitor/Commands/Answers process_command;
-- Monitor/Commands/Config is about the state, Monitor/Commands/Room about the response, and
-- Monitor/Commands/Period about set_period. What glob, get_diff_content, get_process_cwd and
-- restore_file_to_sample do is the record Outside. Monitor/Daemon has run_daemon, with the two
-- backups as functions on the state, and Monitor/Sleep is about its pauses; Monitor/Interactive
-- has run_interactive in the same way, Monitor/Lines says which lines it takes for a sample and
-- for the end, and Monitor/Counted is about its samples. A number past an int is read as glibc
-- does, through a long.
--
-- Integration is task_8/homework. Integration/Messages has utils/src/serializer.c,
-- Integration/Discovery utils/src/udp_discovery.c, Integration/Exchange send_task_to_server of
-- client/src/tcp_client.c and handle_client of server/src/tcp_server.c, and Integration/Strips
-- client/src/client.c. Integration/Floats has the doubles and their printing and scanning as a
-- parameter, with what is asked of a printed number. Integration/RoundTrip is about the messages,
-- Integration/Found about the list of servers, Integration/Answer about one task,
-- Integration/Points and Integration/Whole about all of them.
--
-- Base has the names the parts share and lemmas on lists; Outcome a result that goes on or
-- returns; Fallible the bind of Option; Descriptors the table of open files of a process, with the
-- lowest free number for what is opened; Text the C functions on strings that the sources call
-- (strchr, strtok_r, sscanf with %s), and Numbers decimal numbers (%ld, %zu with its wrap-around
-- at 2 ^ 64). A descriptor of -1 is none.
--
-- Fuel: read_chunk has max_attempts turns, and each turn adds an attempt, of which the code allows
-- no more. write_out has one turn more than there are bytes, and each turn writes one at least.
-- send_chunks and receive_chunks have one turn more than the bytes of the file, and each turn
-- moves one at least. The parent's loop of Duplex has one turn more than the bytes of the file,
-- and each turn but the last reads one at least; the child's has one more than the reads to come.
-- copy_loop has one turn more than the bytes of the file, and each turn but the last copies one at
-- least. decimal has as many turns as the number and one, and each divides by ten.
--
-- Not modelled: the log and what is printed outside the interactive mode, the creation of FIFOs
-- and the directories they stand in (task_7/homework/src/fifo.c), of sockets, of epoll, of the
-- message queue and of shared memory, the reading of the shell's line and its waiting for
-- commands, the set-up of the daemon and what it reads of a diff (get_diff_content), the command
-- lines, the set-up and the end of the copy by signals, the main loop of the integral's server,
-- and the examples of the lectures.
mod Base
pub mod Outcome
pub mod Fallible
pub mod Text
pub mod Numbers
pub mod Shell
pub mod FileServer
pub mod Signals
pub mod Monitor
pub mod Integration
pub mod SharedCopy
pub mod FifoCopy
pub mod MessageCopy
pub mod MonteCarlo
pub mod Duplex
pub mod Descriptors
