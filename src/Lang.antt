-- ===== src/Lang.antt =====
-- What a program takes from the C library: strings, numbers as text, and formatted text, which the
-- kernel has its own code for.
pub mod Strings
pub mod Numbers
pub mod Print
