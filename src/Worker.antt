-- ===== src/Worker.antt =====
-- src/worker/: the worker, its HTTP client, its executor and its main loop.
pub mod Client
pub mod Executor
pub mod Config
pub mod App
pub mod Main
