-- ===== src/Mba.antt =====
-- The mixed boolean arithmetic passes, lib/MBASub.cpp and lib/MBAAdd.cpp.
pub mod Block
pub mod Keeps
pub mod Sub
pub mod Add
