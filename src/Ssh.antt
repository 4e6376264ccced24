-- ===== src/Ssh.antt =====
-- src/ssh: sessions over libssh2. The library and the sockets' coroutines are parameters: what they
-- return is what each stop of a coroutine gets.
pub mod Calls
pub mod Errors
pub mod Session
pub mod Relay
mod Tests
