-- ===== src/Message.antt =====
-- pyzor/message.go: the wire format, both ways.
pub mod Request
pub mod Response
pub mod Checks
pub mod RoundTrip
pub mod Delivered
