-- ===== src/Json.antt =====
-- src/rbjson.h, src/rbjson.cpp: the JSON values, one child module for each part.
pub mod Value
pub mod Key
pub mod Object
pub mod Array
pub mod Text
pub mod Compare
pub mod Parse
