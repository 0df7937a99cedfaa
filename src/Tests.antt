-- ===== src/Tests.antt =====
-- Examples: the theorems of the library at concrete inputs.
mod World
mod Limits
mod App
mod Router
mod Usage
mod Batches
mod Executor
mod Serving
mod Auth
mod Health
mod Files
