-- ===== src/Pipeline/Der/Examples.antt =====
-- The DER of testinghq/pipeline/sigcheck.py on small data.
use testing_hq.Prelude.{◌≡◌, ◌<◌, refl, [], ◌∷◌, arith}
use testing_hq.Pipeline.Der.{ok, err, DerError, der_signature, parse_der_signature}
use testing_hq.Pipeline.Der.Bytes.{two_to}
use testing_hq.Pipeline.Der.RoundTrip.{parse_der_signature-der_signature}

small : (300 < two_to 256) × (128 < two_to 256)
unfolding two_to
small = (omega arith, omega arith)

written : der_signature 300 128 ≡ 48 ∷ 8 ∷ 2 ∷ 2 ∷ 1 ∷ 44 ∷ 2 ∷ 2 ∷ 0 ∷ 128 ∷ []
unfolding der_signature
written = refl

cut_short : parse_der_signature (48 ∷ 5 ∷ 2 ∷ 1 ∷ 5 ∷ 2 ∷ []) ≡ err DerError.truncated
unfolding parse_der_signature
cut_short = refl

-- The bytes of the long length are missing, and the length is read as 0.
cut_in_length : parse_der_signature (48 ∷ 5 ∷ 2 ∷ 1 ∷ 5 ∷ 2 ∷ 129 ∷ []) ≡ ok (5, 0)
unfolding parse_der_signature
cut_in_length = refl

parse_der_signature-der_signature_example :
    parse_der_signature (der_signature 300 128) ≡ ok (300, 128)
parse_der_signature-der_signature_example =
    parse_der_signature-der_signature 300 128 small.0 small.1
