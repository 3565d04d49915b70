-- ===== src/Operator/Pg/Dsn.antt =====
-- PGClient.go: the name of the data source.
use nacos_operator.Prelude.{String, ◌==◌, ◌+++◌, replace_char, if◌then◌else◌}

-- urlQueryEscape
unfoldable pub url_query_escape : String → String
url_query_escape s = replace_char b'#' "%23" (
    replace_char b'?' "%3F"
      (replace_char b'/' "%2F" (replace_char b':' "%3A" (replace_char b'@' "%40" s))))

abbrev pub or_default : String → String → String
or_default value default = if value == "" then default else value

unfoldable pub data_source_name : (user pass host port database : String) → String
unfolding url_query_escape
data_source_name user pass host port database =
    "postgres://"
    +++ url_query_escape user
    +++ ":"
    +++ url_query_escape pass
    +++ "@"
    +++ host
    +++ ":"
    +++ port
    +++ "/"
    +++ database
    +++ "?sslmode=disable"
