-- ===== src/Network.antt =====
-- The wire format: src/networkmessage.h and .cpp, src/outputmessage.h, and the XTEA cipher and the
-- framing of src/protocol.cpp.
pub mod Memory
pub mod Message
pub mod Xtea
pub mod Protocol
mod Tests
