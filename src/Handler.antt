-- ===== src/Handler.antt =====
-- source/handler: the server's side of a request, and the thread that answers.
pub mod Messages
pub mod RequestMap
pub mod ListQueue
mod Tests
pub mod IoHandler
pub mod LogicHandler
pub mod IoHandlerFactory
