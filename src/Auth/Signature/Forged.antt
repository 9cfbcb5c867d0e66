-- ===== src/Auth/Signature/Forged.antt =====
-- Which signatures of a session cookie pass.
use stevy.Base.{ℕ, ◌/◌, ◌%◌, ◌≡◌, refl, ap, ap₂, ◌≢◌, ◌↔◌, true, List, [], ◌∷◌, ◌++◌, some, arith}
use stevy.Base.Text.{Text}
use stevy.Auth.{user_id, cookie_value}
use stevy.Auth.Laws.{no_dot, user_id_sound, user_id-cookie_value}
use stevy.Auth.Signature.{hex_digit, hex_encode, sign}

head_or : ℕ → Text → ℕ
head_or d [] = d
head_or d (c ∷ s) = c

tail_of : Text → Text
tail_of [] = []
tail_of (c ∷ s) = s

hex_digit_injective : (m n : ℕ) → hex_digit m ≡ hex_digit n → m ≡ n
hex_digit_injective m n e = ground arith

same_byte : (a b : ℕ) → a / 16 ≡ b / 16 → a % 16 ≡ b % 16 → a ≡ b
same_byte a b high low = omega arith

-- Different bytes have different texts in hex.
hex_encode_injective : (xs bs : List ℕ) → hex_encode xs ≡ hex_encode bs → xs ≡ bs
unfolding hex_encode head_or tail_of
hex_encode_injective [] [] e = refl
hex_encode_injective [] (b ∷ bs) e = absurd cc
hex_encode_injective (a ∷ xs) [] e = absurd cc
hex_encode_injective (a ∷ xs) (b ∷ bs) e =
    let high = hex_digit_injective (a / 16) (b / 16) (ap (head_or 0) e) in
    let low = hex_digit_injective (a % 16) (b % 16) (ap (λ s. head_or 0 (tail_of s)) e) in
    let rest = hex_encode_injective xs bs (ap (λ s. tail_of (tail_of s)) e) in
    ap₂ ◌∷◌ (same_byte a b high low) rest

append_injective : (user a b : Text) → user ++ (b'.' ∷ a) ≡ user ++ (b'.' ∷ b) → a ≡ b
unfolding tail_of
append_injective [] a b e = ap tail_of e
append_injective (c ∷ user) a b e = append_injective user a b (ap tail_of e)

-- A cookie that names a user, whose id is not empty and has no dot, with the hex of some bytes as its
-- signature passes as that user just if the bytes are the HMAC of the id under the secret.
pub user_id-hex_encode :
    (hmac : Text → Text → List ℕ) (secret user : Text) (bytes : List ℕ)
    → user ≢ []
    → no_dot user ≡ true
    → (user_id (sign hmac secret) (some (user ++ (b'.' ∷ hex_encode bytes))) ≡ user)
      ↔ (bytes ≡ hmac secret user)
unfolding sign cookie_value
user_id-hex_encode hmac secret user bytes ne plain = (
  λ h.
      hex_encode_injective bytes (hmac secret user)
        (append_injective user _ _ (user_id_sound (sign hmac secret) _ user h ne)),
  λ same. rw same (user_id-cookie_value (sign hmac secret) user plain),
)
