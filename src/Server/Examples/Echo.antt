-- ===== src/Server/Examples/Echo.antt =====
-- A parser of requests and a service for the tests of src/server/proto.rs.
use minihttp.Base.{
  ℕ, suc, ◌≤◌, ◌≡◌, ◌≢◌, refl, Option, some, [], ◌∷◌, ◌++◌, Bytes, length, Result, ok, arith,
}
use minihttp.Base.Ascii.{codes}
use minihttp.RequestHead.{Request}
use minihttp.RequestHead.Head.{ParseError, ParseStatus, whole, partial, RequestParser}
use minihttp.Server.Config.{Mode, buffered_upfront}
use minihttp.Server.State.{Service, ready}
use minihttp.Server.Sound.{IsTame}

abbrev pub post : Request
post = record {
  method = codes "POST";
  path = codes "/";
  version = 1;
  headers = record { name = codes "Content-Length"; value = codes "2" } ∷ [];
}

-- A parser that reads every three bytes as one and the same request.
abbrev answer : Bytes → Result ParseError ParseStatus
answer (x ∷ y ∷ z ∷ rest) = ok (whole post 3)
answer _ = ok partial

pub answer-le :
    (buf : Bytes) (r : Request) (bytes : ℕ)
    → answer buf ≡ ok (whole r bytes)
    → (1 ≤ bytes) × (bytes ≤ length buf)
answer-le buf r bytes e = ground arith

abbrev pub three_parser : RequestParser
three_parser = record {
  parse_request = λ n buf. answer buf;
  request_within = λ n buf r bytes e. answer-le buf r bytes e;
  more_room = λ n m buf h e. refl;
}

abbrev pub clock : ℕ → ℕ
clock n = n

-- The codecs are numbers; a response is ready at once, and is the number of its codec. The
-- seventh takes over the connection.
abbrev mode_of : ℕ → Mode
mode_of n = elim (Prim.Native.Nat.compare n 7) [
  | Prim.Native.Nat.Ordering.eq ↦ Mode.hijack
  | _ ↦ buffered_upfront 10
]

abbrev pub echo : Service ℕ ℕ Bytes (Unit {0})
echo = record {
  headers_received = λ d h. (suc d, ok d);
  recv_mode = λ c. (c, record { mode = mode_of c; timeout = Option.none });
  data_received = λ c bytes done. (c, ok (some (length bytes)));
  start_response = λ c e. (c, e.1 ++ (c ∷ []));
  poll = λ f. ok (ready f);
}

pub echo-IsTame : IsTame echo
echo-IsTame = record { never_progressive = λ c n e. never c n e; takes_all = λ c c' bytes r e. cc }
  where
    never : (c n : ℕ) → mode_of c ≢ Mode.progressive n
    never c n e = ground arith
