-- ===== src/Url/RoundTrip.antt =====
-- Between `to_string` and `parse` of url.cpp.
pub mod Tail
pub mod Port
pub mod Authority
pub mod Whole
