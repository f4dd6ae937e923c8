-- ===== src/Wire.antt =====
-- internal/smpp: the wire format.
pub mod Bytes
pub mod Pdu
pub mod Tlv
pub mod Udh
pub mod Submit
pub mod Tests
