-- ===== src/Tests.antt =====
-- Tests on concrete data, with a simple instance of each interface to code that is not lixy's own.
mod World
mod Trees
mod Commands
mod Table
mod Messages
mod Lines
mod Requests
mod Threads
mod Daemon
mod Abstract
mod Startup
