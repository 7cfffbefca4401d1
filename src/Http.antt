-- ===== src/Http.antt =====
-- src/http_conn.h and src/http_conn.cpp: one HTTP connection.
pub mod Types
pub mod Line
pub mod RequestLine
pub mod Headers
pub mod World
pub mod Content
pub mod Request
pub mod Reader
pub mod Response
pub mod Conn
pub mod Transfer
pub mod Bounds
pub mod Samples
mod Tests
