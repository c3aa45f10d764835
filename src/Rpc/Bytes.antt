-- ===== src/Rpc/Bytes.antt =====
-- How a value stands in the bytes of a buffer. The compiler lays structs out, so a struct's layout is
-- a parameter, an interface with its laws; integers are little-endian.
use mathlib.Core.List.{append_assoc}
use ubturbo.Prelude.{
  ℕ, ◌%◌, refl, List, ◌≡◌, ◌+◌, arith, ◌^◌, zero, ◌*◌, ◌++◌, ◌∷◌, ◌<◌, ap, [], suc, ◌/◌,
  length-append, All, length,
}

pub record Layout (M : Type 0) : Type 1 where
  pub size : ℕ
  pub to_bytes : M → List ℕ
  pub of_bytes : List ℕ → M
  -- The values that the type holds.
  pub Fits : M → Type 0
  pub size_pos : 0 < size
  pub length-to_bytes : (m : M) → length (to_bytes m) ≡ size
  pub of_bytes-to_bytes : (m : M) (rest : List ℕ) → Fits m → of_bytes (to_bytes m ++ rest) ≡ m

module _ {ℓ} {A : Type ℓ} where
  abbrev pub drop : ℕ → List A → List A
  drop zero xs = xs
  drop (suc n) [] = []
  drop (suc n) (x ∷ xs) = drop n xs

  abbrev pub take : ℕ → List A → List A
  take zero xs = []
  take (suc n) [] = []
  take (suc n) (x ∷ xs) = x ∷ take n xs

  pub drop-append : (n : ℕ) (xs ys : List A) → length xs ≡ n → drop n (xs ++ ys) ≡ ys
  drop-append zero [] ys h = refl
  drop-append zero (x ∷ xs) ys h = absurd (omega arith)
  drop-append (suc n) [] ys h = absurd (omega arith)
  drop-append (suc n) (x ∷ xs) ys h = drop-append n xs ys (omega arith)

  pub drop-all : (n : ℕ) (xs : List A) → length xs ≡ n → drop n xs ≡ []
  drop-all zero [] h = refl
  drop-all zero (x ∷ xs) h = absurd (omega arith)
  drop-all (suc n) [] h = refl
  drop-all (suc n) (x ∷ xs) h = drop-all n xs (omega arith)

  drop-nil : (n : ℕ) → drop n [] ≡ []
  drop-nil zero = refl
  drop-nil (suc n) = refl

  pub drop-drop : (m n k : ℕ) (xs : List A) → m + n ≡ k → drop n (drop m xs) ≡ drop k xs
  drop-drop zero n k xs h = ap (λ j. drop j xs) (omega arith)
  drop-drop (suc m) n zero xs h = absurd (omega arith)
  drop-drop (suc m) n (suc k) [] h = drop-nil n
  drop-drop (suc m) n (suc k) (x ∷ xs) h = drop-drop m n k xs (omega arith)

  pub take-all : (n : ℕ) (xs : List A) → length xs ≡ n → take n xs ≡ xs
  take-all zero [] h = refl
  take-all zero (x ∷ xs) h = absurd (omega arith)
  take-all (suc n) [] h = refl
  take-all (suc n) (x ∷ xs) h = ap (x ∷◌) (take-all n xs (omega arith))

-- The `w` bytes of an unsigned integer, the lowest first, and the integer they hold.
abbrev pub le_bytes : ℕ → ℕ → List ℕ
le_bytes zero n = []
le_bytes (suc w) n = n % 256 ∷ le_bytes w (n / 256)

abbrev pub le_value : ℕ → List ℕ → ℕ
le_value zero bs = 0
le_value (suc w) [] = 0
le_value (suc w) (b ∷ bs) = b + 256 * le_value w bs

pub length-le_bytes : (w n : ℕ) → length (le_bytes w n) ≡ w
length-le_bytes zero n = refl
length-le_bytes (suc w) n = ap suc (length-le_bytes w (n / 256))

pub le_value-le_bytes :
    (w n : ℕ) (rest : List ℕ) → n < 256 ^ w → le_value w (le_bytes w n ++ rest) ≡ n
le_value-le_bytes zero n rest h = omega arith
le_value-le_bytes (suc w) n rest h = omega (arith, le_value-le_bytes w (n / 256) rest (omega arith))

abbrev pub IsByte : ℕ → Type 0
IsByte b = b < 256

pub le_value-lt : (w : ℕ) (bs : List ℕ) → All IsByte bs → le_value w bs < 256 ^ w
le_value-lt zero bs h = omega arith
le_value-lt (suc w) [] h = grind (arith, le_value-lt w [] tt)
le_value-lt (suc w) (b ∷ bs) h = omega (arith, le_value-lt w bs h.1, h.0)

-- `uint16_t`, `uint32_t` (an `int` by its bit pattern) and `uint64_t`.
abbrev pub word : (w : ℕ) → 0 < w → Layout ℕ
word w pos_w = record {
  size = w;
  to_bytes = le_bytes w;
  of_bytes = le_value w;
  Fits = λ n. n < 256 ^ w;
  size_pos = pos_w;
  length-to_bytes = length-le_bytes w;
  of_bytes-to_bytes = le_value-le_bytes w;
}

abbrev pub bool_layout : Layout ℕ
bool_layout = word 1 (omega arith)

abbrev pub u16_layout : Layout ℕ
u16_layout = word 2 (omega arith)

abbrev pub int_layout : Layout ℕ
int_layout = word 4 (omega arith)

abbrev pub u64_layout : Layout ℕ
u64_layout = word 8 (omega arith)

module _ {M : Type 0} (L : Layout M) where
  -- The bytes of an array, and the first `n` elements of the array that the bytes hold.
  abbrev pub array_bytes : List M → List ℕ
  array_bytes [] = []
  array_bytes (m ∷ ms) = L.to_bytes m ++ array_bytes ms

  abbrev pub array_of : ℕ → List ℕ → List M
  array_of zero bs = []
  array_of (suc n) bs = L.of_bytes bs ∷ array_of n (drop L.size bs)

  pub length-array_bytes : (ms : List M) → length (array_bytes ms) ≡ L.size * length ms
  length-array_bytes [] = grind arith
  length-array_bytes (m ∷ ms) = grind (
    arith,
    length-append (L.to_bytes m) (array_bytes ms),
    L.length-to_bytes m,
    length-array_bytes ms,
  )

  pub array_of-array_bytes :
      (ms : List M) (rest : List ℕ)
      → All L.Fits ms
      → array_of (length ms) (array_bytes ms ++ rest) ≡ ms
  array_of-array_bytes [] rest h = refl
  array_of-array_bytes (m ∷ ms) rest h = rw (
    append_assoc (L.to_bytes m) (array_bytes ms) rest,
    L.of_bytes-to_bytes m (array_bytes ms ++ rest) h.0,
    drop-append L.size (L.to_bytes m) (array_bytes ms ++ rest) (L.length-to_bytes m),
    array_of-array_bytes ms rest h.1,
  )
