-- ===== src/RequestTarget/Examples.antt =====
-- The tests of src/server/request_target.rs.
use minihttp.Base.{◌≡◌, refl, none, some, []}
use minihttp.Base.Ascii.{codes}
use minihttp.RequestTarget.{origin, absolute, authority, asterisk, position, parse}
use minihttp.RequestTarget.Laws.{text_of, IsTarget, parse-text}

empty_test : parse [] ≡ none
unfolding parse
empty_test = refl

path_query_test : parse (codes "/hello?xxx") ≡ some (origin (codes "/hello?xxx"))
unfolding parse
path_query_test = refl

star_test : parse (codes "*") ≡ some asterisk
unfolding parse position
star_test = refl

strange_path_test : parse (codes "/http://x") ≡ some (origin (codes "/http://x"))
unfolding parse
strange_path_test = refl

plain_authority_uri_test : parse (codes "http://x") ≡ some (absolute (codes "http") (codes "x") [])
unfolding parse position
plain_authority_uri_test = refl

bigger_uri_test :
    parse (codes "https://x:932/hello?world")
    ≡ some (absolute (codes "https") (codes "x:932") (codes "/hello?world"))
unfolding parse position
bigger_uri_test = refl

authority_test :
    (parse (codes "x:80") ≡ some (authority (codes "x:80"))) × (parse (codes "u@x") ≡ none)
unfolding parse position
authority_test = (refl, refl)

parse-text_example :
    (text_of (absolute (codes "https") (codes "x:932") (codes "/hello?world"))
      ≡ codes "https://x:932/hello?world")
    × IsTarget (absolute (codes "https") (codes "x:932") (codes "/hello?world"))
parse-text_example =
    parse-text (codes "https://x:932/hello?world")
      (absolute (codes "https") (codes "x:932") (codes "/hello?world")) bigger_uri_test
