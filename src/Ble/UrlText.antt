-- ===== src/Ble/UrlText.antt =====
-- What the bytes of an Eddystone URL stand for, and that `getDecodedURL` gives it.
use jedge.Base.{ℕ, ◌+◌, ◌≤◌, ◌<◌, ◌≡◌, List, [], ◌∷◌, ◌++◌, length, arith, refl, ◌∙◌}
use mathlib.Core.Path.{ap₂}
use jedge.Ble.EddystoneUrl.{EddystoneUrl, set_url, scheme_text, url_piece, get_decoded_url}
use jedge.Ble.BeaconData.{pieces, get_decoded_url-pieces}

pub data Scheme : Type 0 where
  http_www : Scheme
  https_www : Scheme
  http : Scheme
  https : Scheme

pub data Domain : Type 0 where
  dot_com : Domain
  dot_org : Domain
  dot_edu : Domain
  dot_net : Domain
  dot_info : Domain
  dot_biz : Domain
  dot_gov : Domain

-- A byte of the URL: a character, a domain with a slash behind it, or a domain.
pub data Token : Type 0 where
  letter : ℕ → Token
  site : Domain → Token
  host : Domain → Token

abbrev pub scheme_code : Scheme → ℕ
scheme_code http_www = 0
scheme_code https_www = 1
scheme_code http = 2
scheme_code https = 3

-- "http", and "://"
abbrev protocol : List ℕ
protocol = b'h' ∷ b't' ∷ b't' ∷ b'p' ∷ []

abbrev authority : List ℕ
authority = b':' ∷ b'/' ∷ b'/' ∷ []

abbrev www : List ℕ
www = b'w' ∷ b'w' ∷ b'w' ∷ b'.' ∷ []

abbrev pub text_of_scheme : Scheme → List ℕ
text_of_scheme http_www = protocol ++ authority ++ www
text_of_scheme https_www = protocol ++ b's' ∷ authority ++ www
text_of_scheme http = protocol ++ authority
text_of_scheme https = protocol ++ b's' ∷ authority

abbrev pub domain_code : Domain → ℕ
domain_code dot_com = 0
domain_code dot_org = 1
domain_code dot_edu = 2
domain_code dot_net = 3
domain_code dot_info = 4
domain_code dot_biz = 5
domain_code dot_gov = 6

abbrev pub domain_name : Domain → List ℕ
domain_name dot_com = b'c' ∷ b'o' ∷ b'm' ∷ []
domain_name dot_org = b'o' ∷ b'r' ∷ b'g' ∷ []
domain_name dot_edu = b'e' ∷ b'd' ∷ b'u' ∷ []
domain_name dot_net = b'n' ∷ b'e' ∷ b't' ∷ []
domain_name dot_info = b'i' ∷ b'n' ∷ b'f' ∷ b'o' ∷ []
domain_name dot_biz = b'b' ∷ b'i' ∷ b'z' ∷ []
domain_name dot_gov = b'g' ∷ b'o' ∷ b'v' ∷ []

abbrev pub token_code : Token → ℕ
token_code (letter c) = c
token_code (site d) = domain_code d
token_code (host d) = 7 + domain_code d

abbrev pub token_text : Token → List ℕ
token_text (letter c) = c ∷ []
token_text (site d) = b'.' ∷ domain_name d ++ b'/' ∷ []
token_text (host d) = b'.' ∷ domain_name d

abbrev pub codes : List Token → List ℕ
codes [] = []
codes (t ∷ ts) = token_code t ∷ codes ts

abbrev pub texts : List Token → List ℕ
texts [] = []
texts (t ∷ ts) = token_text t ++ texts ts

-- Characters from 34 to 126: printable, and neither a space nor '!'.
abbrev pub IsToken : Token → Type 0
IsToken (letter c) = (34 ≤ c) × (c ≤ 126)
IsToken (site _) = Unit
IsToken (host _) = Unit

abbrev pub AreTokens : List Token → Type 0
AreTokens [] = Unit
AreTokens (t ∷ ts) = IsToken t × AreTokens ts

scheme_text_lem : (s : Scheme) → scheme_text (scheme_code s) ≡ text_of_scheme s
unfolding scheme_text
scheme_text_lem http_www = refl
scheme_text_lem https_www = refl
scheme_text_lem http = refl
scheme_text_lem https = refl

url_piece-site : (d : Domain) → url_piece (domain_code d) ≡ token_text (site d)
unfolding url_piece
url_piece-site dot_com = refl
url_piece-site dot_org = refl
url_piece-site dot_edu = refl
url_piece-site dot_net = refl
url_piece-site dot_info = refl
url_piece-site dot_biz = refl
url_piece-site dot_gov = refl

url_piece-host : (d : Domain) → url_piece (7 + domain_code d) ≡ token_text (host d)
unfolding url_piece
url_piece-host dot_com = refl
url_piece-host dot_org = refl
url_piece-host dot_edu = refl
url_piece-host dot_net = refl
url_piece-host dot_info = refl
url_piece-host dot_biz = refl
url_piece-host dot_gov = refl

url_piece-token : (t : Token) → IsToken t → url_piece (token_code t) ≡ token_text t
unfolding url_piece
url_piece-token (letter c) (low, high) = ground arith
url_piece-token (site d) h = url_piece-site d
url_piece-token (host d) h = url_piece-host d

pieces-codes : (ts : List Token) → AreTokens ts → pieces (codes ts) ≡ texts ts
pieces-codes [] h = refl
pieces-codes (t ∷ ts) (h, hs) = ap₂ ◌++◌ (url_piece-token t h) (pieces-codes ts hs)

-- A URL of at most 16 bytes that was set, which begins with the code of a scheme and goes on with
-- codes of domains and characters from 34 to 126, is decoded to the text that these stand for,
-- whatever memory follows.
pub get_decoded_url-set_url :
    (s : Scheme) (ts : List Token) (beyond : List ℕ) (b : EddystoneUrl)
    → AreTokens ts
    → length (codes ts) < 16
    → get_decoded_url beyond (set_url (scheme_code s ∷ codes ts) b) ≡ text_of_scheme s ++ texts ts
get_decoded_url-set_url s ts beyond b h short =
    get_decoded_url-pieces (scheme_code s) (codes ts) beyond b short
    ∙ ap₂ ◌++◌ (scheme_text_lem s) (pieces-codes ts h)
