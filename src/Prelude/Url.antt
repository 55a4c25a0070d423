-- ===== src/Prelude/Url.antt =====
-- `*url.URL` through what the source reads of it: what `String()` returns, and the fields `Scheme`
-- and `Host`. Parsing is the library's.
use devhub.Prelude.Bytes.{Text}

pub record Url : Type 0 where
  pub string : Text
  pub scheme : Text
  pub host : Text
