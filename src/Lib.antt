-- ===== src/Lib.antt =====
-- TinyWebServer: an HTTP server on epoll, with a pool of worker threads. Its main loop
-- (src/server_epoll.cpp) takes the events of the sockets; for a connection it calls
-- HttpConn::read_once on a read event and hands HttpConn::process to a worker, calls
-- HttpConn::write on a write event, and closes the connection when one of them fails. A
-- connection (src/http_conn.h, src/http_conn.cpp) parses the request line by line, logs users in
-- and registers them with a map and a MySQL database, stores uploaded files, and answers with
-- JSON text or a file. This library models the connection, that is all of src/http_conn.cpp but
-- get_mime_type, the timers, the pools, the queue, the log, and the main loop over them.
--
-- The parts, and the files that model them:
--   Prelude        the shared names: native numbers, tests, lists, integers.
--   Memory         C memory: arrays of bytes with bounds, NUL-terminated strings in them, and runs
--                  that fault. Memory.Strings is what a write changes and what it leaves alone.
--   CString        the functions of <string.h> and <stdlib.h> that the code calls.
--   Http.Types     the members of HttpConn; a member m_x is the field x.
--   Http.Line      HttpConn::parse_line.
--   Http.RequestLine  HttpConn::parse_request_line, which edits the line in place.
--   Http.Headers   HttpConn::parse_headers. Http.Headers.Sets is what a header line sets.
--   Http.World     what a connection shares (the map `users`, m_user_count, the epoll instance) and
--                  the answers of the system.
--   Http.Content   HttpConn::parse_content and parse_multipart_content.
--   Http.Request   HttpConn::do_request.
--   Http.Reader    HttpConn::process_read, the state machine over the five before it. Http.Reader.Cut
--                  and Http.Reader.Block take it over a line and the headers, Http.Reader.Whole and
--                  Http.Reader.Body over a request.
--   Http.Bounds    what the functions that process_read calls leave as it is.
--   Http.Response  HttpConn::add_response and the functions on top of it, and process_write.
--   Http.Conn      HttpConn::init, init_parse_state, close_conn, process and initmysql_result.
--                  Http.Conn.Fresh is the request that follows a reset.
--   Http.Transfer  HttpConn::read_once, unmap and write.
--   TimeHeap       the class time_heap of src/lst_timer.h, the heap of timers. TimeHeap.Order and
--                  TimeHeap.Down are the loops of add_timer and pop_timer, TimeHeap.Weigh
--                  the entries as a collection, TimeHeap.Due what tick takes out of it.
--   SqlConnPool    the pool of database connections, src/sql_conn_pool.cpp, with its users.
--   ThreadPool     the worker threads, src/ThreadPool.h, with those who enqueue.
--   BlockQueue     the queue in front of the log, src/block_queue.h.
--   Log            the log, src/log.cpp and the macros of src/log.h: Log.State, Log.Open (init) and
--                  Log.Write. Log.Stamp and Log.Format prove the line in its buffer, Log.Rotate and
--                  Log.Files the file that it goes to, Log.Start init, Log.Calls a sequence of calls,
--                  Log.Threads threads that log at once.
--   Server         main and cb_func of src/server_epoll.cpp: Server.State, Server.Accept and
--                  Server.Handle. Server.Watched is the invariant, Server.Keeps, Server.Events and
--                  Server.Rounds keep it, Server.Loop is a run.
--   Http.Samples, and each Tests  inputs, runs on them, and the theorems at concrete inputs.
--
-- A function of the code is the function of the same name. It takes the connection and, where it
-- needs them, the shared state (World) and the system's answers (System), and returns them changed
-- beside its result. A `char*` into m_read_buf is its offset. A run is `ok`, or `fault` where
-- the code would read or write outside an array, read a string that has no end, or write to a
-- string literal; so a theorem that ends in `Returns` says that none of that happens, and one
-- that ends in `Allows` says what holds if it does not.
--
-- Parameters: stat, fopen, the contents of a file (or that open or mmap fails) and the database's
-- answer to an INSERT are functions of the record System. The results of recv and writev are
-- functions of the number of the call; hypotheses say that recv returns no more bytes than asked
-- for, and that a writev which succeeds sends a byte or more. What writev is offered is m_iv, and
-- what it accepts of that is recorded.
--
-- Fuel: parse_line makes m_read_idx - m_checked_idx rounds, as its loop does. The loop of
-- process_read has fuel for twice what is left to scan and two rounds more: a round that scans a
-- line takes a byte or more, and a round for the body needs no line but is the last. read_once
-- has a round for each byte of room and one more, write one for each byte to send and one
-- more. In these, `none` is a loop that ran out of fuel, and it is proved not to happen. The loops
-- of time_heap have fuel for the number of timers and one round more; their theorems, that the
-- heap is in order behind them, could not hold if a loop stopped early.
--
-- Numbers: the indices are natural numbers, m_content_length is an integer, and the conversions to
-- a 32-bit int are written out. The parser's arrays are small enough that its other sums do not
-- overflow. Strings are lists of bytes. A path of 200 bytes or more, which the code leaves without
-- its NUL, is a fault.
--
-- Threads: in SqlConnPool, ThreadPool and BlockQueue what a thread does while it holds the lock, and
-- each call on the semaphore, is one step, and the steps of all threads come in any order.
--
-- The server takes one event, one end of a round or one turn of a worker as a step, in any order;
-- its main loop is given the events, and what time, accept, recv and writev answer to each. A user's
-- timer is found by the descriptor. An access past the end of the array of timers is recorded in the
-- heap, and the pointers that were deleted in the store of timers; TimeHeap.Owned is who has a
-- pointer. The log takes the local time, the text that a call prints,
-- and whether fopen succeeds; a stream of stdio keeps its lines until it is flushed or closed.
--
-- Not modelled: how main makes the sockets, the pipe and the epoll instance, and sets up signals;
-- the logging calls of the other parts, setsockopt and fcntl, which do not change the state of a
-- connection; get_mime_type, which nothing calls; and two requests at once: the lock around the map
-- is left out, one call of process runs at a time. The programs under demos are not part of the
-- server.
pub mod Prelude
pub mod Memory
pub mod CString
pub mod Http
pub mod TimeHeap
pub mod SqlConnPool
pub mod BlockQueue
pub mod Log
pub mod ThreadPool
pub mod Server
