-- ===== src/Auth/Signature.antt =====
-- `SessionManager.sign` of internal/auth/session.go and `sha256Hex` of internal/db/db.go: the bytes of
-- an HMAC or a hash, which are a parameter, in hex.
pub mod Forged
use stevy.Base.{ℕ, ◌+◌, ◌-◌, ◌/◌, ◌%◌, List, [], ◌∷◌, ltb, if◌then◌else◌}
use stevy.Base.Text.{Text}

abbrev pub hex_digit : ℕ → ℕ
hex_digit n = if ltb n 10 then b'0' + n else b'a' + (n - 10)

-- `hex.EncodeToString`
unfoldable pub hex_encode : List ℕ → Text
hex_encode [] = []
hex_encode (b ∷ bs) = hex_digit (b / 16) ∷ hex_digit (b % 16) ∷ hex_encode bs

-- The first text is the secret, the second what is signed.
unfoldable pub sign : (Text → Text → List ℕ) → Text → Text → Text
unfolding hex_encode
sign hmac_sha256 secret text = hex_encode (hmac_sha256 secret text)

unfoldable pub sha256_hex : (Text → List ℕ) → Text → Text
unfolding hex_encode
sha256_hex sha256 text = hex_encode (sha256 text)
