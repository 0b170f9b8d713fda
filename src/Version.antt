-- ===== src/Version.antt =====
-- The HTTP version and its text, src/enums/version.rs.
use minihttp.Base.{Bytes}
use minihttp.Base.Ascii.{codes}

pub data Version : Type 0 where
  http10 http11 : Version

-- `fmt::Display`
abbrev pub version_text : Version → Bytes
version_text http10 = codes "HTTP/1.0"
version_text http11 = codes "HTTP/1.1"
