-- ===== src/Log.antt =====
-- The log, src/log.cpp and src/log.h: the class Log and the macros LOG_DEBUG to LOG_ERROR.
pub mod State
pub mod Open
pub mod Write
pub mod Stamp
pub mod Format
pub mod Rotate
pub mod Files
pub mod Start
pub mod Calls
pub mod Threads
pub mod Kept
pub mod Account
mod Tests
