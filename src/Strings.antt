-- ===== src/Strings.antt =====
-- exercises/cookbook/strings.cpp: the recipes on strings. A string is the list of its bytes and a
-- std::u16string the list of its code units, so that shifts and masks are quotients and remainders.
pub mod Unicode
pub mod Parts
