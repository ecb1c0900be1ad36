-- ===== src/Domain/Id.antt =====
-- NewID of internal/domain/events.go: the text of a random UUID. The 16 bytes that crypto/rand gives
-- are given, as a function of their place; that it gives none is a panic.
use Prim.Native.Nat.{bit_and, bit_or}
use Prim.Native.Char.{Char, code}
use Prim.Native.String.{◌∷◌ as cons, [] as nil}
use eventledger.Prelude.{
  ℕ, zero, suc, ◌/◌, ◌%◌, ◌<◌, ◌≡◌, refl, ◌∙◌, Bool, true, false, ◌&&◌, ◌||◌, String, List, [], ◌∷◌,
  ◌==◌, leb, arith,
}

-- The digits of `%x`.
abbrev char_at : ℕ → String → Char
char_at n nil = "0"
char_at zero (cons c s) = c
char_at (suc n) (cons c s) = char_at n s

abbrev hex_digit : ℕ → Char
hex_digit n = char_at n "0123456789abcdef"

-- `%x` of one byte, before a text.
abbrev hex_byte : ℕ → String → String
hex_byte b s = cons (hex_digit (b / 16)) (cons (hex_digit (b % 16)) s)

abbrev dash : String → String
dash s = cons "-" s

-- `(b & 0x0f) | 0x40` and `(b & 0x3f) | 0x80`
abbrev pub version_bits : ℕ → ℕ
version_bits b = bit_or (bit_and b 0x0f) 0x40

abbrev pub variant_bits : ℕ → ℕ
variant_bits b = bit_or (bit_and b 0x3f) 0x80

unfoldable pub new_id : (ℕ → ℕ) → String
new_id b = hex_byte (b 0) (
    hex_byte (b 1) (
      hex_byte (b 2) (
        hex_byte (b 3) (
          dash (
            hex_byte (b 4) (
              hex_byte (b 5) (
                dash (
                  hex_byte (version_bits (b 6)) (
                    hex_byte (b 7) (
                      dash (
                        hex_byte (variant_bits (b 8)) (
                          hex_byte (b 9) (
                            dash (
                              hex_byte (b 10) (
                                hex_byte (b 11) (
                                  hex_byte (b 12) (
                                    hex_byte (b 13)
                                      (hex_byte (b 14) (hex_byte (b 15) nil)))))))))))))))))))

-- What may stand at a place of a UUID: a digit in lower case, a dash, the digit of version 4, or one
-- of those of the variant of RFC 4122.
data Class : Type 0 where
  digit hyphen four variant : Class

fits : Class → Char → Bool
fits digit c = (leb b'0' (code c) && leb (code c) b'9') || (leb b'a' (code c) && leb (code c) b'f')
fits hyphen c = code c == b'-'
fits four c = code c == b'4'
fits variant c = (code c == b'8') || (code c == b'9') || (code c == b'a') || (code c == b'b')

matches : List Class → String → Bool
matches [] nil = true
matches [] (cons c s) = false
matches (k ∷ ks) nil = false
matches (k ∷ ks) (cons c s) = fits k c && matches ks s

abbrev digits : ℕ → List Class → List Class
digits zero ks = ks
digits (suc n) ks = digit ∷ digits n ks

-- The canonical text of a UUID of version 4.
pub is_uuid_v4 : String → Bool
is_uuid_v4 = matches (
    digits 8 (
      hyphen
      ∷ digits 4 (hyphen ∷ four ∷ digits 3 (hyphen ∷ variant ∷ digits 3 (hyphen ∷ digits 12 [])))))

-- Whether a test holds of all numbers up to a bound.
pass : (ℕ → Bool) → ℕ → Bool
pass test zero = true
pass test (suc top) = pass test top && test top

pass-at : (test : ℕ → Bool) (top i : ℕ) → i < top → pass test top ≡ true → test i ≡ true
unfolding pass
pass-at test zero i below passed = absurd (omega arith)
pass-at test (suc top) i below passed = ground (arith, pass-at test top i)

both_fit : Class → Class → ℕ → Bool
both_fit k l b = fits k (hex_digit (b / 16)) && fits l (hex_digit (b % 16))

digits_table : pass (both_fit digit digit) 256 ≡ true
unfolding pass both_fit fits
digits_table = refl

version_table : pass (λ b. both_fit four digit (version_bits b)) 256 ≡ true
unfolding pass both_fit fits
version_table = refl

variant_table : pass (λ b. both_fit variant digit (variant_bits b)) 256 ≡ true
unfolding pass both_fit fits
variant_table = refl

matches-hex_byte :
    (k l : Class) (ks : List Class) (b : ℕ) (s : String)
    → both_fit k l b ≡ true
    → matches (k ∷ l ∷ ks) (hex_byte b s) ≡ matches ks s
unfolding matches both_fit
matches-hex_byte k l ks b s h = ground arith

matches-dash : (ks : List Class) (s : String) → matches (hyphen ∷ ks) (dash s) ≡ matches ks s
unfolding matches fits
matches-dash ks s = refl

matches-end : matches [] nil ≡ true
unfolding matches
matches-end = refl

module _ (b : ℕ → ℕ) (bytes : (i : ℕ) → b i < 256) where
  plain :
      (i : ℕ) (ks : List Class) (s : String)
      → matches (digit ∷ digit ∷ ks) (hex_byte (b i) s) ≡ matches ks s
  plain i ks s =
      matches-hex_byte digit digit ks (b i) s (pass-at _ 256 (b i) (bytes i) digits_table)

  -- Whatever bytes the generator of random numbers gives, NewID gives the canonical text of a UUID of
  -- version 4 and the variant of RFC 4122: 36 characters, digits in lower case, dashes after the
  -- 8th, 12th, 16th and 20th digit, and the two fixed digits at their places.
  pub new_id-is_uuid_v4 : is_uuid_v4 (new_id b) ≡ true
  unfolding is_uuid_v4 new_id
  new_id-is_uuid_v4 =
      plain 0 _ _
      ∙ plain 1 _ _
      ∙ plain 2 _ _
      ∙ plain 3 _ _
      ∙ matches-dash _ _
      ∙ plain 4 _ _
      ∙ plain 5 _ _
      ∙ matches-dash _ _
      ∙ matches-hex_byte four digit _ (version_bits (b 6)) _
          (pass-at _ 256 (b 6) (bytes 6) version_table)
      ∙ plain 7 _ _
      ∙ matches-dash _ _
      ∙ matches-hex_byte variant digit _ (variant_bits (b 8)) _
          (pass-at _ 256 (b 8) (bytes 8) variant_table)
      ∙ plain 9 _ _
      ∙ matches-dash _ _
      ∙ plain 10 _ _
      ∙ plain 11 _ _
      ∙ plain 12 _ _
      ∙ plain 13 _ _
      ∙ plain 14 _ _
      ∙ plain 15 _ _
      ∙ matches-end
