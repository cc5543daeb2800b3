-- ===== src/Strings.antt =====
-- common/strcasecmp.c. A string is the list of its bytes without its NUL.
pub mod Compare
mod Examples
