-- ===== src/Worker.antt =====
-- The worker: its start and end, its updates of the table of jobs, and the handling of one message.
pub mod Seconds
pub mod Chunks
pub mod Progress
pub mod Audio
pub mod Transcriber
pub mod Pipeline
pub mod Retry
pub mod Database
pub mod Message
pub mod Handler
pub mod Startup
