-- ===== src/Examples.antt =====
-- Tests of the modules at concrete inputs.
mod Fixtures
mod Stoll
mod Sha1
mod Capabilities
mod Registry
mod Session
mod Router
mod Manager
mod Queue
mod Retry
mod Pipe
mod Configuration
mod Client
