-- ===== src/Lib.antt =====
-- MiniWeb, an HTTP/1.x server in C: the parts of it that decide what a client gets, as functions on
-- explicit state, with the theorems that make them correct.
--
-- The server reads a request from a socket (or a worker process reads it from a file), parses it,
-- looks its route up, checks the session cookie or the Basic credentials of a protected route, and
-- runs the handler. The parts modelled here are the ones in between:
--
-- - Http: src/http_parser.c and include/http_parser.h. `Request` is `http_request_t`; Request holds
--   the header lookup, RequestLine, Headers and Body one phase of the parser each, Parse the whole
--   of `http_parse_request`. Sizes and Parse/Bounds are about the buffers, Parse/Message and
--   Parse/RoundTrip about a message that is read back, Headers/KeepAlive about the connection.
--   Response holds the response builders (and src/http_response.c), Files the content types, the
--   check of a path and `http_serve_file`; the file system and the text of the clock are arguments.
--   Response/Framing is about a response that is read back, Files/Safe about where a path leads.
-- - Handler: src/request_handler.c. `Server` holds what the handlers share: the document root, the
--   password file, the sessions and the users. Message reads the bytes of a request, Decode its form
--   fields and paths, Credentials the password file and the cookie; Users, Search, Index, Login and
--   Served hold the handlers, with their pages in Pages and SearchPages; Dispatch is the check of
--   the credentials, Process the dispatch (`request_handler_process_http`), Connection the
--   keep-alive loop (`request_handler_handle_connection`). Authorized, Guarded and Basic are about
--   who gets in, Sessions about login and logout, KeepAlive about a connection, Crashes about names
--   that are empty, Passwords and Decode/RoundTrip about what is read back, Decode/Memory and
--   Decode/InPlace about decoding in the memory that is read.
-- - Users: src/user_store.c. `Shared` holds the list pool in shared memory, with the head's slot and
--   the state of the index, whose operations are an argument (`Index`); Csv reads a line, Refines and
--   Remove are about the linked list, Operations, Adds and Deletes about what it does as a list.
-- - Tree: src/user_index.c, the red-black tree that indexes the users by name. `Bst` holds the tree
--   pool with the root; `bst_insert` and `bst_find` are there, `bst_delete` in Delete. Find is about
--   the search, Walk the walk that writes the users. A loop has the length of the pool as its fuel.
-- - Route: src/route_table.c and include/route_table.h. `RouteTable` holds the two arrays and the
--   hash table `g_hash`; `route_table_add` and `route_table_find` are the functions of that name.
-- - Session: src/session.c and include/session.h. `SessionStore` holds `g_sessions` and `g_hash`;
--   the clock and the bytes of /dev/urandom are arguments.
-- - Base64: src/base64.c, the decoder of Basic credentials, over the caller's buffer.
-- - Pool: src/thread_pool.c and include/thread_pool.h. `ThreadPool` is the state between two holders
--   of the pool's mutex, Ring its ring buffer, Tasks what the adding thread and a worker do, and
--   `Runs.Step` every section of the code under the mutex, of any thread, as a step.
-- - Probe: the loops over the open-addressing hash tables of Session and Route.
-- - CString: the functions of the C library that the program calls, as the C standard describes
--   them. Prelude: shared types, list functions on native numbers and their lemmas.
--
-- A C string is the list of its bytes before the NUL; a buffer is a list of bytes. Pointers that
-- the program tests against NULL are never NULL here. `unsigned int` wraps around at 2^32, in the
-- hash. `atoi` is not bounded by the size of an `int`: the C function is undefined there.
--
-- The handlers take the user store as a record of its operations (`UserStore`), and the loop of a
-- connection takes `config_find_server` as a function: both are interfaces of other parts of the
-- program. A handler's answer is its result with what stands in the buffer, or the process going
-- down; what it finds outside (clock, random bytes, files) is an argument, `Outside`. A connection is
-- a list of rounds, each with what `recv` returns and whether `send` succeeds.
--
-- Fuel: a probing loop takes one round for each of the 256 slots, after which it would meet the
-- same slots again and so never ends; a loop that has not ended by then is a value of its own. The
-- loop over header lines takes as many rounds as there are bytes, and every round takes a line off.
--
-- A pool's steps may come in any order: which thread gets the mutex is not modelled, nor are the
-- condition variables, the statistics and the end of the pool.
--
-- Not modelled: the sockets, processes and signals of the server modes, the log, the configuration
-- files, the operations of src/user_store.c that print, search by several fields or load a file,
-- and the line protocol of the first version of the server (`request_handler_process`).
pub mod Prelude
pub mod CString
pub mod Probe
pub mod Session
pub mod Base64
pub mod Http
pub mod Route
pub mod Pool
pub mod Handler
pub mod Users
pub mod Tree
