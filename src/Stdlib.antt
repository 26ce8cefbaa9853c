-- ===== src/Stdlib.antt =====
-- What the program uses of Go's packages strings, strconv and net, on the bytes of a text.
pub mod Text
pub mod Number
pub mod Hex
pub mod Ip
pub mod HostPort
