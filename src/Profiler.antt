-- ===== src/Profiler.antt =====
-- ext/memory/profiler/profiler.c: the address of an object as text.
use memory_tracker.Base.{
  ℕ, zero, suc, ◌+◌, ◌-◌, ◌*◌, ◌/◌, ◌%◌, ◌^◌, ◌≤◌, ◌<◌, ◌≡◌, refl, ap, ◌∙◌, arith, ◌&&◌, Option,
  none, some, inl, inr, List, [], ◌∷◌, ◌++◌, if◌then◌else◌, ltb, leb, lt→ltb, ◌==◌, Bool-cases,
  length, length-append, take,
}
use memory_tracker.Value.{Value}

-- A digit of `%lx`, as its character.
unfoldable pub hex_digit : ℕ → ℕ
hex_digit d = if ltb d 10 then b'0' + d else b'a' + (d - 10)

-- The first argument bounds the digits.
unfoldable pub hex_digits : ℕ → ℕ → List ℕ
unfolding hex_digit
hex_digits zero n = []
hex_digits (suc left) n =
    let front = hex_digits left (n / 16) in
    if ltb n 16 then hex_digit n ∷ [] else front ++ hex_digit (n % 16) ∷ []

-- snprintf writes at most 31 characters into the buffer of 32, and the terminating zero.
unfoldable pub address_of : Value → List ℕ
unfolding hex_digits
address_of object = take 31 (b'0' ∷ b'x' ∷ hex_digits 16 object)

-- What the text stands for: the reading of a hexadecimal number.
abbrev pub digit_value : ℕ → Option ℕ
digit_value c =
    if leb b'0' c && leb c b'9'
    then some (c - b'0')
    else if leb b'a' c && leb c b'f'
    then some (c - b'a' + 10)
    else none

abbrev pub shift_in : Option ℕ → Option ℕ → Option ℕ
shift_in (some n) (some d) = some (n * 16 + d)
shift_in (some n) none = none
shift_in none d = none

abbrev pub read_digits : Option ℕ → List ℕ → Option ℕ
read_digits n [] = n
read_digits n (c ∷ cs) = read_digits (shift_in n (digit_value c)) cs

abbrev pub read_address : List ℕ → Option ℕ
read_address (a ∷ b ∷ cs) = if (a == b'0') && (b == b'x') then read_digits (some 0) cs else none
read_address _ = none

digit_value-hex_digit : (d : ℕ) → d < 16 → digit_value (hex_digit d) ≡ some d
unfolding hex_digit
digit_value-hex_digit d l = ground arith

read_digits-append :
    (n : Option ℕ) (cs : List ℕ) (c : ℕ)
    → read_digits n (cs ++ c ∷ []) ≡ shift_in (read_digits n cs) (digit_value c)
read_digits-append n [] c = refl
read_digits-append n (x ∷ cs) c = read_digits-append (shift_in n (digit_value x)) cs c

-- The number has at most so many digits.
abbrev Fits : ℕ → ℕ → Type 0
Fits zero n = n ≡ 0
Fits (suc left) n = Fits left (n / 16)

one_digit : (n : ℕ) → 0 * 16 + n ≡ n
one_digit n = omega arith

-- One digit more, below those that are read already.
read_front :
    (left n : ℕ)
    → read_digits (some 0) (hex_digits left (n / 16)) ≡ some (n / 16)
    → read_digits (some 0) (hex_digits left (n / 16) ++ hex_digit (n % 16) ∷ []) ≡ some n
read_front left n h =
    let whole : n / 16 * 16 + n % 16 ≡ n = omega arith in
    read_digits-append (some 0) (hex_digits left (n / 16)) (hex_digit (n % 16))
    ∙ rw (h, digit_value-hex_digit (n % 16) (omega arith)) (ap some whole)

read_digits-hex_digits :
    (left n : ℕ) → Fits (suc left) n → read_digits (some 0) (hex_digits (suc left) n) ≡ some n
unfolding hex_digits
read_digits-hex_digits zero n f =
    let small : n < 16 = omega arith in
    rw (lt→ltb n 16 small) (rw (digit_value-hex_digit n small) (ap some (one_digit n)))
read_digits-hex_digits (suc left) n f = elim (Bool-cases (ltb n 16)) [
  | inl small ↦
      rw small (rw (digit_value-hex_digit n (ground (arith, small))) (ap some (one_digit n)))
  | inr large ↦ rw large (read_front (suc left) n (read_digits-hex_digits left (n / 16) f))
]

length-hex_digits : (left n : ℕ) → length (hex_digits left n) ≤ left
unfolding hex_digits
length-hex_digits zero n = omega arith
length-hex_digits (suc left) n = ground (
  arith,
  length-hex_digits left (n / 16),
  length-append (hex_digits left (n / 16)) (hex_digit (n % 16) ∷ []),
)

take_short : {A : Type 0} (n : ℕ) (xs : List A) → length xs ≤ n → take n xs ≡ xs
take_short zero [] l = refl
take_short zero (x ∷ xs) l = elim l [ ]
take_short (suc n) [] l = refl
take_short (suc n) (x ∷ xs) l = ap (◌∷◌ x) (take_short n xs (omega arith))

address_of_lem : (object : Value) → address_of object ≡ b'0' ∷ b'x' ∷ hex_digits 16 object
unfolding address_of
address_of_lem object =
    let short : length (hex_digits 16 object) ≤ 16 = length-hex_digits 16 object in
    take_short 31 (b'0' ∷ b'x' ∷ hex_digits 16 object) (omega arith)

-- The text of address_of for a VALUE of 64 bits, read as a hexadecimal number after its prefix, is
-- the VALUE, and the text has at most 18 characters.
pub read_address-address_of :
    (object : Value)
    → object < 2 ^ 64
    → (read_address (address_of object) ≡ some object) × (length (address_of object) ≤ 18)
read_address-address_of object l = (
  rw (address_of_lem object) (read_digits-hex_digits 15 object (omega arith)),
  rw (address_of_lem object) (omega (arith, length-hex_digits 16 object)),
)
