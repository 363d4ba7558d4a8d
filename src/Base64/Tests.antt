-- ===== src/Base64/Tests.antt =====
-- Runs of the decoder, and its theorems at inputs.
use uestc_shixvn_mini_web_se.Base64.RoundTrip.{base64_decode-encode}
use uestc_shixvn_mini_web_se.Base64.Bounds.{base64_decode-StaysInside, StaysInside}
use uestc_shixvn_mini_web_se.Base64.{
  failed, byte2, byte1, byte0, leftover, flush, put_if_room, decoded, put, base64_decode,
}
use uestc_shixvn_mini_web_se.Base64.Alphabet.{encode}
use uestc_shixvn_mini_web_se.Prelude.{◌≡◌, refl, [], ◌∷◌, ◌++◌, arith, replicate, codes}

credentials : encode (codes "user:pw") ≡ codes "dXNlcjpwdw=="
unfolding encode
credentials = refl

decodes_credentials :
    base64_decode (codes "dXNl cjpwdw==") (replicate 9 1)
    ≡ decoded 7 (codes "user:pw" ++ 0 ∷ 1 ∷ [])
unfolding base64_decode put put_if_room flush leftover byte0 byte1 byte2
decodes_credentials = refl

rejects_underscore : base64_decode (codes "dX_l") (replicate 4 1) ≡ failed (replicate 4 1)
unfolding base64_decode put put_if_room flush leftover byte0 byte1 byte2
rejects_underscore = refl

base64_decode-encode_example :
    base64_decode (encode (codes "user:pw")) (replicate 5 1) ≡ decoded 4 (codes "user" ++ 0 ∷ [])
base64_decode-encode_example =
    base64_decode-encode (codes "user:pw") 1 (replicate 4 1) (omega arith)

base64_decode-StaysInside_example :
    StaysInside 3 (base64_decode (codes "dXNl cjpwdw==") (replicate 3 1))
base64_decode-StaysInside_example =
    base64_decode-StaysInside (codes "dXNl cjpwdw==") (replicate 3 1)
