-- ===== src/Utils.antt =====
-- The helpers of src/utils: strings, character encoding, throttling and timers.
pub mod Strings
pub mod Encoding
pub mod TokensBucket
pub mod TimedEvents
