-- ===== src/Sms.antt =====
-- internal/message: encoding detection and the splitting of long messages. A text is a string of bytes,
-- and its runes are those that Go decodes.
pub mod Utf8
pub mod Gsm7
pub mod Split
pub mod Tests
