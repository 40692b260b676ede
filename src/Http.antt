-- ===== src/Http.antt =====
-- muduo/net/http: the parser of requests, the printer of responses, and the server's callbacks.
pub mod StringMap
pub mod Request
pub mod Context
pub mod Response
pub mod Server
mod Tests
