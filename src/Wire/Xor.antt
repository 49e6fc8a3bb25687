-- ===== src/Wire/Xor.antt =====
-- Exclusive or on the native numbers, and the checksum's power to tell bodies apart
-- (`checksum` of tools/viewer/web/app.js).
use Prim.Native.Nat.{digits, differ, bit_xor-bitwise}
use open_fpgastudio.Base.{
  ℕ, zero, suc, ◌+◌, ◌*◌, ◌/◌, ◌%◌, ◌^◌, ◌≤◌, ◌<◌, ◌≡◌, ◌≢◌, refl, ap, ◌∙◌, arith, bit_xor, List,
  [], ◌∷◌, ◌++◌, All,
}
use open_fpgastudio.Wire.{xor_all, checksum, IsByte}
use native.Mathlib.Nat.{pow-suc}

abbrev xor_digits : ℕ → ℕ → ℕ → ℕ
xor_digits n a b = digits (λ b. b) differ n a b

xor_digits_fuel : (n m a b : ℕ) → a ≤ n → a ≤ m → xor_digits n a b ≡ xor_digits m a b
xor_digits_fuel zero zero a b p q = refl
xor_digits_fuel zero (suc m) zero b p q = refl
xor_digits_fuel zero (suc m) (suc a) b p q = absurd (omega arith)
xor_digits_fuel (suc n) zero zero b p q = refl
xor_digits_fuel (suc n) zero (suc a) b p q = absurd (omega arith)
xor_digits_fuel (suc n) (suc m) zero b p q = refl
xor_digits_fuel (suc n) (suc m) (suc a) b p q =
    omega (arith, xor_digits_fuel n m (suc a / 2) (b / 2) (omega arith) (omega arith))

zero-bit_xor : (b : ℕ) → bit_xor 0 b ≡ b
zero-bit_xor b = bit_xor-bitwise 0 b

differ_bits : (x y : ℕ) → x < 2 → y < 2 → differ x y ≡ (x + y) % 2
differ_bits zero y h k = omega arith
differ_bits (suc zero) zero h k = refl
differ_bits (suc zero) (suc zero) h k = refl
differ_bits (suc zero) (suc (suc y)) h k = absurd (omega arith)
differ_bits (suc (suc x)) y h k = absurd (omega arith)

-- The lowest digit of an exclusive or, and the others.
bit_xor_step : (a b : ℕ) → bit_xor a b ≡ bit_xor (a / 2) (b / 2) * 2 + (a + b) % 2
bit_xor_step zero b = omega (arith, zero-bit_xor b, zero-bit_xor (b / 2))
bit_xor_step (suc a) b = omega (
  arith,
  bit_xor-bitwise (suc a) b,
  bit_xor-bitwise (suc a / 2) (b / 2),
  xor_digits_fuel a (suc a / 2) (suc a / 2) (b / 2) (omega arith) (omega arith),
  differ_bits (suc a % 2) (b % 2) (omega arith) (omega arith),
)

right_fuel : (n a b c : ℕ) → b ≤ n → c ≤ n → bit_xor a b ≡ bit_xor a c → b ≡ c
right_fuel zero a b c p q e = omega arith
right_fuel (suc n) a b c p q e =
    let high : bit_xor (a / 2) (b / 2) ≡ bit_xor (a / 2) (c / 2) =
      omega (arith, bit_xor_step a b, bit_xor_step a c) in
    omega (
      arith,
      bit_xor_step a b,
      bit_xor_step a c,
      right_fuel n (a / 2) (b / 2) (c / 2) (omega arith) (omega arith) high,
    )

pub bit_xor-injective_right : (a b c : ℕ) → bit_xor a b ≡ bit_xor a c → b ≡ c
bit_xor-injective_right a b c e = right_fuel (b + c) a b c (omega arith) (omega arith) e

comm_fuel : (n a b : ℕ) → a ≤ n → b ≤ n → bit_xor a b ≡ bit_xor b a
comm_fuel zero zero zero p q = refl
comm_fuel zero (suc a) b p q = absurd (omega arith)
comm_fuel zero zero (suc b) p q = absurd (omega arith)
comm_fuel (suc n) a b p q = omega (
  arith,
  bit_xor_step a b,
  bit_xor_step b a,
  comm_fuel n (a / 2) (b / 2) (omega arith) (omega arith),
)

pub bit_xor_comm : (a b : ℕ) → bit_xor a b ≡ bit_xor b a
bit_xor_comm a b = comm_fuel (a + b) a b (omega arith) (omega arith)

pub bit_xor-injective_left : (a b c : ℕ) → bit_xor a c ≡ bit_xor b c → a ≡ b
bit_xor-injective_left a b c e =
    bit_xor-injective_right c a b (bit_xor_comm c a ∙ e ∙ bit_xor_comm b c)

self_fuel : (n a : ℕ) → a ≤ n → bit_xor a a ≡ 0
self_fuel zero zero p = refl
self_fuel zero (suc a) p = absurd (omega arith)
self_fuel (suc n) a p = omega (arith, bit_xor_step a a, self_fuel n (a / 2) (omega arith))

pub bit_xor_self : (a : ℕ) → bit_xor a a ≡ 0
bit_xor_self a = self_fuel a a (omega arith)

pub bit_xor-lt : (k a b : ℕ) → a < 2 ^ k → b < 2 ^ k → bit_xor a b < 2 ^ k
bit_xor-lt zero zero zero p q = omega arith
bit_xor-lt zero (suc a) b p q = absurd (omega arith)
bit_xor-lt zero zero (suc b) p q = absurd (omega arith)
bit_xor-lt (suc k) a b p q =
    let half_a : a / 2 < 2 ^ k = omega (arith, pow-suc 2 k) in
    let half_b : b / 2 < 2 ^ k = omega (arith, pow-suc 2 k) in
    omega (arith, pow-suc 2 k, bit_xor_step a b, bit_xor-lt k (a / 2) (b / 2) half_a half_b)

pub xor_all-lt : (bs : List ℕ) (acc : ℕ) → acc < 256 → All IsByte bs → xor_all acc bs < 256
unfolding xor_all
xor_all-lt [] acc h all = h
xor_all-lt (b ∷ bs) acc h all = xor_all-lt bs (bit_xor acc b) (bit_xor-lt 8 acc b h all.0) all.1

pub xor_all-injective : (bs : List ℕ) (x y : ℕ) → xor_all x bs ≡ xor_all y bs → x ≡ y
unfolding xor_all
xor_all-injective [] x y e = e
xor_all-injective (b ∷ bs) x y e =
    bit_xor-injective_left x y b (xor_all-injective bs (bit_xor x b) (bit_xor y b) e)

pub xor_all-last :
    (bs : List ℕ) (acc c : ℕ) → xor_all acc (bs ++ c ∷ []) ≡ bit_xor (xor_all acc bs) c
unfolding xor_all
xor_all-last [] acc c = refl
xor_all-last (b ∷ bs) acc c = xor_all-last bs (bit_xor acc b) c

-- The two texts differ in one entry, and are of one length.
pub data OneByte : List ℕ → List ℕ → Type 0 where
  here : {b c : ℕ} {bs : List ℕ} → b ≢ c → OneByte (b ∷ bs) (c ∷ bs)
  there : {b : ℕ} {bs cs : List ℕ} → OneByte bs cs → OneByte (b ∷ bs) (b ∷ cs)

pub xor_all-OneByte : {bs cs : List ℕ} → OneByte bs cs → (acc : ℕ) → xor_all acc bs ≢ xor_all acc cs
unfolding xor_all
xor_all-OneByte (here {b} {c} {bs} h) acc = λ e.
    h (bit_xor-injective_right acc b c (xor_all-injective bs (bit_xor acc b) (bit_xor acc c) e))
xor_all-OneByte (there {b} d) acc = xor_all-OneByte d (bit_xor acc b)

pub checksum-bytes : (bs : List ℕ) → All IsByte bs → checksum bs ≡ xor_all 0 bs
unfolding checksum
checksum-bytes bs all = omega (arith, xor_all-lt bs 0 (omega arith) all)

-- A body with its checksum behind it adds up to nothing.
pub xor_all-checksum : (bs : List ℕ) → All IsByte bs → xor_all 0 (bs ++ checksum bs ∷ []) ≡ 0
xor_all-checksum bs all =
    xor_all-last bs 0 (checksum bs)
    ∙ ap (bit_xor (xor_all 0 bs)) (checksum-bytes bs all)
    ∙ bit_xor_self (xor_all 0 bs)
