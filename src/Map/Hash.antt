-- ===== src/Map/Hash.antt =====
-- The hash of map keys (api/map.hpp): FNV-1a over the bytes of a key. `size_t` has 64 bits.
use jule.Common.{ℕ, ◌*◌, ◌%◌, ◌<◌, ◌^◌, ◌≡◌, ◌≢◌, bit_xor, List, [], ◌∷◌, ◌++◌, All, arith}
use jule.Common.Bits.{bit_xor-lt, bit_xor_inj, bit_xor_inj_left}
use jule.Utf8.Standard.{IsByte}

-- The `sum` of `fnv1a` after `reset`.
abbrev pub offset_basis : ℕ
offset_basis = 14695981039346656037

abbrev pub prime : ℕ
prime = 1099511628211

-- `write(data)`: the sum after it.
pub write : ℕ → List ℕ → ℕ
write sum [] = sum
write sum (b ∷ bytes) = write (bit_xor sum b * prime % 2 ^ 64) bytes

-- `operator()` on a slice of bytes, and on a string, of which `fake_slice` gives the bytes.
pub hash_bytes : List ℕ → ℕ
unfolding write
hash_bytes key = write offset_basis key

-- The generic `to_str`, which is the text "test".
pub to_str {ℓ} : {T : Type ℓ} → T → List ℕ
to_str obj = b't' ∷ b'e' ∷ b's' ∷ b't' ∷ []

-- `operator()` on a key of another type.
pub hash_other {ℓ} : {T : Type ℓ} → T → ℕ
unfolding hash_bytes to_str
hash_other obj = hash_bytes (to_str obj)

-- The prime is odd, so that a multiplication by it loses nothing.
times_prime : (x y : ℕ) → x < 2 ^ 64 → y < 2 ^ 64 → x * prime % 2 ^ 64 ≡ y * prime % 2 ^ 64 → x ≡ y
times_prime x y p q e = omega arith

write-lt : (sum : ℕ) (key : List ℕ) → sum < 2 ^ 64 → write sum key < 2 ^ 64
unfolding write
write-lt sum [] h = h
write-lt sum (b ∷ key) h = write-lt (bit_xor sum b * prime % 2 ^ 64) key (omega arith)

-- The bytes behind do not bring two different sums together.
write_inj :
    (x y : ℕ) (key : List ℕ)
    → x < 2 ^ 64
    → y < 2 ^ 64
    → All IsByte key
    → write x key ≡ write y key
    → x ≡ y
unfolding write
write_inj x y [] p q h e = e
write_inj x y (b ∷ key) p q (h, hs) e = bit_xor_inj_left 64 x y b p q (
    times_prime (bit_xor x b) (bit_xor y b) (bit_xor-lt 64 x b p (omega arith))
      (bit_xor-lt 64 y b q (omega arith))
      (write_inj (bit_xor x b * prime % 2 ^ 64) (bit_xor y b * prime % 2 ^ 64) key (omega arith)
        (omega arith) hs e))

one_byte :
    (sum : ℕ) (front : List ℕ) (a b : ℕ) (back : List ℕ)
    → sum < 2 ^ 64
    → All IsByte back
    → a < 256
    → b < 256
    → write sum (front ++ (a ∷ back)) ≡ write sum (front ++ (b ∷ back))
    → a ≡ b
unfolding write
one_byte sum [] a b back h hs p q e = bit_xor_inj 64 sum a b (omega arith) (omega arith) (
    times_prime (bit_xor sum a) (bit_xor sum b) (bit_xor-lt 64 sum a h (omega arith))
      (bit_xor-lt 64 sum b h (omega arith))
      (write_inj (bit_xor sum a * prime % 2 ^ 64) (bit_xor sum b * prime % 2 ^ 64) back
        (omega arith) (omega arith) hs e))
one_byte sum (c ∷ front) a b back h hs p q e =
    one_byte (bit_xor sum c * prime % 2 ^ 64) front a b back (omega arith) hs p q e

-- The hash of a key of bytes fits 64 bits, and two keys of bytes that differ in just one byte,
-- which is any of them, have different hashes.
pub hash-separates :
    (front : List ℕ) (a b : ℕ) (back : List ℕ)
    → a < 256
    → b < 256
    → All IsByte back
    → a ≢ b
    → (hash_bytes (front ++ (a ∷ back)) < 2 ^ 64)
      × (hash_bytes (front ++ (a ∷ back)) ≢ hash_bytes (front ++ (b ∷ back)))
unfolding hash_bytes
hash-separates front a b back p q hs ne = (
  write-lt offset_basis (front ++ (a ∷ back)) (omega arith),
  λ e. ne (one_byte offset_basis front a b back (omega arith) hs p q e),
)
