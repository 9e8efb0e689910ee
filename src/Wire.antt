-- ===== src/Wire.antt =====
-- src/decoder/ClickHouse_Wire.h and ClickHouse_Wire.cpp: the packets of the ClickHouse wire
-- protocol and the buffers that they are read from and written to. Bytes are numbers below 256,
-- texts are lists of bytes, and a `uint64_t` is a number below 2 ^ 64.
pub mod Reference
pub mod Packets
pub mod Reader
pub mod Writer
pub mod Varint
pub mod Strings
pub mod Encoder
pub mod Decoder
pub mod Exchange
pub mod Lifetime
mod Examples
