-- ===== src/Web.antt =====
-- The guard of web access: agent/src/core/web/ssrf.ts. `isIP` of Node and the parser of URLs are
-- arguments. A text is the list of its code units; those of a URL's host are ASCII.
pub mod Ssrf
mod Tests
