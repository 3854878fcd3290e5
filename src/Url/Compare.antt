-- ===== src/Url/Compare.antt =====
-- What url.cpp makes of a file path, and the comparison of a URL with a text. A text that cannot be
-- parsed is `none`: the exception of the constructor leaves the comparison.
use social_network.Prelude.{Bool, not, [], Option, none, some, Bytes, codes}
use social_network.Url.Model.{Url, Result, ok, threw, blank, equals}
use social_network.Url.Parser.{from_string}
use social_network.FilePath.{FilePath}
use social_network.FilePath.System.{Filesystem, absolute_path}

abbrev value_or_empty : Option Bytes → Bytes
value_or_empty none = []
value_or_empty (some path) = path

unfoldable pub from_file_path : {State : Type 0} → Filesystem State → State → FilePath → Url
unfolding absolute_path
from_file_path fs s path = record blank {
  scheme = codes "file";
  path = value_or_empty (absolute_path fs s path);
}

abbrev pub compared : (Url → Bool) → Result → Option Bool
compared test (ok url) = some (test url)
compared test (threw e url) = none

unfoldable pub is_equal : Url → Bytes → Option Bool
unfolding equals from_string
is_equal u url = compared (equals u) (from_string url)

unfoldable pub is_not_equal : Url → Bytes → Option Bool
unfolding equals from_string
is_not_equal u url = compared (λ parsed_url. not (equals u parsed_url)) (from_string url)
