-- ===== src/Net.antt =====
-- src/socket: the blocking calls of class Socket on one descriptor, and SocketSelect. What the kernel
-- answers is a script: the list of the results of the calls that the code makes, in their order. A
-- script that ends before the code stops making calls stands for a call that never returns (`waits`).
pub mod Receive
pub mod Lifecycle
pub mod Blocking
pub mod Select
pub mod Send
pub mod Descriptors
mod Examples
