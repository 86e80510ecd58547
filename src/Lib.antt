-- ===== src/Lib.antt =====
-- nav: the daemon that keeps, for the shells of one user, tags (names for directories) and a stack of
-- visited paths per shell. Clients send datagrams "pid command arguments"; the daemon answers on the
-- socket of the shell with that process id.
--
-- Parts and files.
--   Base        the shared names: native numbers, lists, byte strings, integers.
--   Run         the outcome of C code: `ok` with a value, `fault` for undefined behaviour (a read or
--               write outside an object, a null dereference), `hang` for a loop out of fuel.
--   CString     the functions of <string.h> and <stdio.h> that src/daemon uses, as their standards
--               document them.
--   Utils       src/shared/utils.c: get_trailing_whitespace, valid_path. Its get_username is in Setup.
--   ItemList    src/daemon/list.c: the list as its clients use it, that is the items in order and the
--               counter n_items. compare_func and cleanup_func are arguments of the operations that
--               call them. ItemList.Lookup and ItemList.Maps read it as a finite map.
--   Nodes       src/daemon/list.c again, on a heap of nodes: every load, store and free. Nodes.Chain says
--               which nodes make up a list.
--   Tag         src/daemon/tag.c: tags and write_tag_file.
--   TagFile     src/daemon/tag.c: read_tag_file, with fgets on the content of the file.
--   Shell       src/daemon/shell.c: shells, their actions, and the cleanup loop.
--   World       src/daemon/state.h, with the datagrams sent so far and the content of the tag file.
--   Commands    src/daemon/commands.c: Replies (what is sent where), Registry (register, unregister),
--               Tags (add, delete, show, list, get), Actions (push, pop, actions, reset), Dispatch (the
--               table and dispatch_command). A handler takes the answers of the system, the world, the
--               process id and the arguments, and gives the outcome with the new world; each early
--               return of the C is a branch. Invariant, Safety and Isolation are about all of them.
--   Loop        src/daemon/main.c: a round of `loop`, from `recv` to the dispatch, the worlds that
--               rounds reach (Reach), their tag file (Saved), the messages of the client and what is
--               behind them in the buffer (Message, Arguments, Served, Stale), and the socket paths that
--               process ids give. Loop.Buffer is `loop` itself, over its one receive buffer.
--   Lifecycle   src/daemon/state.c: init_state, deinit_state, get_state, and the signal handler of
--               src/daemon/main.c.
--   Setup       src/daemon/main.c: parse_args, setup_directory, setup_initial_state, setup_socket, and main
--               before its loop (`main`) and behind it (`shutdown`).
--   Daemon      src/daemon/main.c: the whole of main, from Setup over Loop.Buffer to `shutdown`.
--   Client      src/client/main.c: the calls that the client makes, in order, and its exit status.
--               Client.Exchange joins it with a round of the daemon, Client.Served with `Server`.
--   Server      what the daemon promises, with no nodes, counters, addresses or buffers: a map from names
--               to paths, the order of the names, a stack of paths for each shell, and a request on them
--               for each command. Server.View reads the world of the daemon as such a state; Refines,
--               Names, Stacks, Listings and Serves are about the handlers and the dispatch, Arguments
--               about what lies behind a message, Rounds and Replay about the loop, Isolation about one
--               shell among others, Restart about a second start, Overrun about a request for which the
--               whitespace scan leaves the buffer.
--   Log         src/shared/log.c and include/log.h: the level test and the line that is written.
--   Tests       concrete worlds, and the theorems at them.
--
-- Memory. A pointer into the receive buffer is the list of the bytes from there to the end of the
-- readable memory, with whatever lies behind the NUL. `strtok_r` and the whitespace scan read such
-- memory, and give `fault` where it ends. A local buffer filled by `sprintf` is the text in it; a text
-- that does not fit with its NUL gives `fault`. Strings that the daemon stores are the bytes before the
-- NUL.
--
-- The receive buffer is never cleared: `round` takes any old content, over which the datagram is laid.
-- `loop` starts with zeros and passes on what a round leaves, where each call of `strtok_r`, in the
-- loop and in the handlers, has written a NUL on the delimiter that ended its token. `loop` takes a
-- list of datagrams, each with the answers of the system to it, and ends with the list, or at a
-- process id out of range.
--
-- What lies behind the receive buffer, and can be read, is one list with it, and so it is for the line
-- buffer of `read_tag_file`: with an empty list there a read past the end of the buffer is a `fault`.
-- The C standard promises no such memory. Where a result asks for a space or newline behind a buffer,
-- the whitespace scan of the code may leave the buffer, and the result says what the daemon does if
-- the memory up to there can be read. The results that ask for newlines in the datagrams and in the
-- tag file hold with an empty list.
--
-- Bounds and fuel. Three kinds of loop run on fuel. That of cleanup_shell has the counter of the stack as
-- its fuel, since each round takes 1 from it. Those of Nodes take any fuel that is more than the number of
-- nodes, since each round passes one. That of read_tag_file has the length of the file and 1, since each
-- round reads a byte at least. All other loops are over lists.
--
-- The system. `Os` holds the answers of fstatat, of fopen and of the two calls of malloc that a command
-- makes for a node and its data; the memory that strndup asks for is taken to be had. The result of
-- sendto is ignored, as in the code. Before the loop the file system is the record `FileSystem`, whose one
-- law is that a directory that mkdir made is there; `Answers` and `ClientOs` hold what getopt, getenv,
-- getpwuid, malloc and the socket calls answer. A signal comes between two calls.
--
-- The tag file is in the world as soon as the loop begins; `daemon` takes the effect of writing a file as an
-- argument, and returns the file system with the tag file as the loop left it. The counter of a list is a
-- natural number; the `int` of src/daemon/list.h is the same below 2^31 items.
--
-- Not modelled: register_signal_handlers, whose `struct sigaction` is not initialised, the calls of
-- the logger in the other parts, the usage and version texts, file descriptors as numbers, and the
-- shell scripts under scripts, which only wrap the client.
pub mod Base
pub mod Run
pub mod CString
pub mod Utils
pub mod ItemList
pub mod Tag
pub mod Shell
pub mod World
pub mod Commands
pub mod Daemon
pub mod Tests
pub mod Loop
pub mod Nodes
pub mod TagFile
pub mod Lifecycle
pub mod Setup
pub mod Client
pub mod Log
pub mod Server
