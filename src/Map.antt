-- ===== src/Map.antt =====
-- map.h and map.c: LISP control messages.
pub mod Fields
pub mod Headers
pub mod Build
pub mod Request
pub mod Receive
pub mod Respond
pub mod Sizes
pub mod Message
