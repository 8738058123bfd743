-- ===== src/Url/Tests.antt =====
-- Texts that `url.Parse` accepts and refuses.
use spegel.Base.{◌≡◌, refl, ascii, str_eq, cut, has_prefix, cut_last, all, ok, err, error}
use spegel.Url.{parse}
use spegel.Url.Escape.{unescape}

parse_port :
    parse (ascii "dummy://example.com:5000/a%2Fb@c?q#f")
    ≡ ok (record { scheme = ascii "dummy"; host = ascii "example.com:5000"; path = ascii "/a/b@c" })
unfolding parse unescape str_eq cut has_prefix cut_last all
parse_port = refl

parse_bad_port : parse (ascii "dummy://a:b/c") ≡ err (error "invalid port after host")
unfolding parse unescape str_eq cut has_prefix cut_last all
parse_bad_port = refl
