-- ===== src/Examples/Builds.antt =====
-- Tests and witnesses of Http/Build.
use php_ion.Base.{
  ℕ, ◌≡◌, ◌≢◌, refl, none, some, [], ◌∷◌, Bytes, length, replicate, length-replicate, arith,
}
use php_ion.Http.Parser.{Filling, start}
use php_ion.Http.Build.{response, unknown, build, reason_of}
use php_ion.Http.Build.Rendered.{zend_string}
use php_ion.Http.Build.Texts.{build-message_text}

abbrev zeros : ℕ → Bytes
zeros n = replicate n 0

zeros_size : (n : ℕ) → length (zeros n) ≡ n
zeros_size n = length-replicate n 0

abbrev print : ℕ → Bytes
print n = b'2' ∷ b'0' ∷ b'0' ∷ []

abbrev reason_text : ℕ → Bytes
reason_text n = b'O' ∷ b'K' ∷ []

-- A response with the header "a-b: x,yz" and the body "!".
abbrev answer : Filling
answer = record start {
  status = 200;
  message = record {
    headers = (b'a' ∷ b'-' ∷ b'b' ∷ [], (b'x' ∷ []) ∷ (b'y' ∷ b'z' ∷ []) ∷ []) ∷ [];
    version = none;
    body = some (b'!' ∷ []);
  };
}

abbrev wanted : Bytes
wanted =
    b'H' ∷ b'T' ∷ b'T' ∷ b'P' ∷ b'/' ∷ b'1' ∷ b'.' ∷ b'1' ∷ b' ' ∷ b'2' ∷ b'0' ∷ b'0' ∷ b' ' ∷ b'O'
    ∷ b'K' ∷ 13 ∷ 10 ∷ b'A' ∷ b'-' ∷ b'B' ∷ b':' ∷ b' ' ∷ b'x' ∷ b',' ∷ b'y' ∷ b'z' ∷ 13 ∷ 10 ∷ 13
    ∷ 10 ∷ b'!' ∷ []

response-ne-unknown : response ≢ unknown
response-ne-unknown h = cc

build-message_text_example :
    build zeros print reason_text response answer ≡ some (zend_string wanted)
unfolding reason_of
build-message_text_example =
    build-message_text zeros print reason_text zeros_size response answer response-ne-unknown
      (omega arith) (tt)

-- withStatus(404) stores 148, which has no reason: build() reads NULL.
no_reason : build zeros print reason_text response (record start { status = 148 }) ≡ none
unfolding build
no_reason = refl
