-- ===== src/Tests/Encoders.antt =====
-- Helpers/mdz_hlp_functions/encoders.cpp on concrete texts.
use lib_mantids.Common.{◌+◌, ◌*◌, ◌%◌, ◌≡◌, refl, text, arith, [], ◌∷◌, map}
use lib_mantids.Helpers.Obfuscated.{to_base64_obf, from_base64_obf}
use lib_mantids.Helpers.Obfuscated.RoundTrip.{from_base64_obf-to_base64_obf}
use lib_mantids.Helpers.Url.{to_url, from_url, strict, quoteprint}
use lib_mantids.Helpers.Url.RoundTrip.{escape_all, kept, to_url-eq-escape_all, from_url-to_url_kept}
use lib_mantids.Helpers.Base64.{to_base64, from_base64}
use lib_mantids.Helpers.Base64.RoundTrip.{from_base64-to_base64}

encodes : to_base64 (text "light w") ≡ text "bGlnaHQgdw=="
unfolding to_base64
encodes = refl

decodes : from_base64 (text "bGlnaHQgdw==") ≡ text "light w"
unfolding from_base64
decodes = refl

from_base64-to_base64_example : from_base64 (to_base64 (text "light")) ≡ text "light"
from_base64-to_base64_example = from_base64-to_base64 (text "light") (omega arith)

url_encodes : to_url (text "a b/%") strict ≡ text "a%20b%2F%25"
unfolding to_url
url_encodes = refl

url_decodes : from_url (text "a%20b%2f%zz%4") ≡ text "a b/%zz%4"
unfolding from_url
url_decodes = refl

from_url-to_url_kept_example :
    from_url (to_url (b'a' ∷ 0xe9 ∷ []) strict) ≡ map kept (b'a' ∷ 0xe9 ∷ [])
from_url-to_url_kept_example = from_url-to_url_kept (b'a' ∷ 0xe9 ∷ []) (omega arith)

to_url-eq-escape_all_example : to_url (text "a b") quoteprint ≡ escape_all (text "a b") quoteprint
to_url-eq-escape_all_example = to_url-eq-escape_all (text "a b") quoteprint

from_base64_obf-to_base64_obf_example :
    from_base64_obf
      (λ i. (i * 37 + 5) % 256)
      (to_base64_obf (λ i. (i * 37 + 5) % 256) (text "secret"))
    ≡ text "secret"
from_base64_obf-to_base64_obf_example =
    from_base64_obf-to_base64_obf (λ i. (i * 37 + 5) % 256) (text "secret") (λ n. omega arith)
      (omega arith)
