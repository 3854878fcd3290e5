-- ===== src/Url.antt =====
-- service/include/helpers/url.h and service/sources/helpers/url.cpp: a URL as a record of its parts,
-- its parser, printer, percent coding, query parameters and path normalisation.
pub mod Model
pub mod Codec
pub mod Query
pub mod Path
pub mod Parser
pub mod Printer
pub mod RoundTrip
pub mod Compare
mod Tests
