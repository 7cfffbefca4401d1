-- ===== src/Server.antt =====
-- The server, src/server_epoll.cpp: what the main loop does with an event of the epoll instance,
-- with the signals and at the end of a round, the callback of the timers, and a worker's turn.
pub mod State
pub mod Accept
pub mod Handle
pub mod Watched
pub mod Expiry
pub mod Keeps
pub mod Events
pub mod Rounds
pub mod Loop
mod Tests
