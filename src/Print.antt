-- ===== src/Print.antt =====
-- kernel/core/print.c: the formatter behind printf, snprintf, debug and panic. The variable
-- arguments are the 32-bit words that the caller pushed; a string argument is the text that its
-- pointer designates, given by `text`.
pub mod Buffer
pub mod Digits
pub mod Format
pub mod Console
pub mod Panic
pub mod Calls
pub mod Pieces
