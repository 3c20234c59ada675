-- ===== src/Connection/Head/Runs.antt =====
-- The theorems on header fields at concrete inputs.
use h2ts.Common.{◌≡◌, refl, List, [], ◌∷◌, none, some, codes, if◌then◌else◌, ℕ}
use h2ts.Hpack.Decoder.{Header}
use h2ts.Connection.Head.{
  RequestInit, separator, among, forbidden_headers, collect_headers, build_request_headers, plain,
  collect, parse_u16,
}
use h2ts.Connection.Head.Fields.{values, join}
use h2ts.Connection.Head.Request.{asked, values-build_request_headers}

-- The same text, of a request that is in capitals already.
abbrev same : List ℕ → List ℕ
same t = t

abbrev two_cookies : List Header
two_cookies =
    plain (codes ":status") (codes "200")
    ∷ plain (codes "cookie") (codes "a=1")
    ∷ plain (codes "vary") (codes "x")
    ∷ plain (codes "cookie") (codes "b=2")
    ∷ []

abbrev upload : RequestInit
upload = record {
  method = some (codes "POST");
  path = none;
  authority = some (codes "h");
  scheme = none;
  headers =
      (codes "Accept", codes "a") ∷ (codes "Host", codes "h") ∷ (codes "accept", codes "b") ∷ [];
}

-- The status is read, and the cookies are joined.
status_200 : (collect_headers two_cookies).status ≡ 200
unfolding collect_headers collect parse_u16
status_200 = refl

cookies_joined :
    join (separator (codes "cookie")) (values (codes "cookie") two_cookies)
    ≡ some (codes "a=1; b=2")
cookies_joined = refl

values-build_request_headers_example :
    values (codes "accept") (build_request_headers same upload) ≡ (
      if among (codes "accept") forbidden_headers
      then []
      else asked (codes "accept") upload.headers)
values-build_request_headers_example =
    values-build_request_headers same upload (codes "accept") refl
