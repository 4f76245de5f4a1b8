-- ===== src/Web.antt =====
-- src/rbwebserver.c: the web server.
pub mod UrlDecode
pub mod Host
pub mod ReadLine
pub mod MimeType
pub mod Serve
pub mod Scan
pub mod Request
pub mod Route
pub mod Process
pub mod Server
