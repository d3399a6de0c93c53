-- ===== src/Connection/Platform.antt =====
-- What connection.c uses of the machine: the byte order conversions, and the object
-- representation of a `size_t`.
use cs507_unix_programming.Prelude.{
  ℕ, zero, suc, ◌+◌, ◌*◌, ◌/◌, ◌%◌, ◌^◌, ◌<◌, ◌≡◌, refl, ap, Bytes, [], ◌∷◌, arith, length,
}
use native.Mathlib.Nat.{pow-suc}

abbrev pub sizeof_size_t : ℕ
sizeof_size_t = 8

-- htonl(3) and ntohl(3) on `uint32_t`, and a `size_t` as the eight bytes that it occupies.
pub record Machine : Type 0 where
  pub htonl : ℕ → ℕ
  pub ntohl : ℕ → ℕ
  pub object : ℕ → Bytes
  pub value : Bytes → ℕ
  pub ntohl-htonl : (x : ℕ) → x < 2 ^ 32 → ntohl (htonl x) ≡ x
  pub htonl_range : (x : ℕ) → x < 2 ^ 32 → htonl x < 2 ^ 32
  pub ntohl_zero : ntohl 0 ≡ 0
  pub length-object : (n : ℕ) → length (object n) ≡ sizeof_size_t
  pub value-object : (n : ℕ) → n < 2 ^ 64 → value (object n) ≡ n

-- A machine that meets the laws: eight bytes, the least significant first, and a network order
-- that is the host's.
little_digits : ℕ → ℕ → Bytes
little_digits zero n = []
little_digits (suc w) n = (n % 256) ∷ little_digits w (n / 256)

little_value : Bytes → ℕ
little_value [] = 0
little_value (b ∷ bs) = b + 256 * little_value bs

length-little_digits : (w n : ℕ) → length (little_digits w n) ≡ w
unfolding little_digits
length-little_digits zero n = refl
length-little_digits (suc w) n = ap suc (length-little_digits w (n / 256))

little_value-little_digits : (w n : ℕ) → n < 256 ^ w → little_value (little_digits w n) ≡ n
unfolding little_digits little_value
little_value-little_digits zero n h = omega arith
little_value-little_digits (suc w) n h =
    omega (arith, little_value-little_digits w (n / 256) (omega (arith, pow-suc 256 w)))

unfoldable pub plain_machine : Machine
unfolding little_digits little_value length-little_digits little_value-little_digits
plain_machine = record {
  htonl = λ x. x;
  ntohl = λ x. x;
  object = little_digits 8;
  value = little_value;
  ntohl-htonl = λ x h. refl;
  htonl_range = λ x h. h;
  ntohl_zero = refl;
  length-object = length-little_digits 8;
  value-object = λ n h. little_value-little_digits 8 n h;
}
