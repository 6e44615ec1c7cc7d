-- ===== src/Prelude/Decimal.antt =====
-- `fmt.Sprintf` with the verbs `%d` and `%0wd` on a number that is not negative.
use Prim.Native.Nat.{ℕ, zero, suc, ◌+◌, ◌-◌, ◌*◌, ◌/◌, ◌%◌, ◌^◌, ◌≤◌, ◌<◌}
use Prim.Native.Char.{Char, code, len_utf8}
use Prim.Native.String.{String, len}
use Prim.Native.String.len
use mathlib.Core.Path.{◌≡◌, refl, sym, ap, ◌∙◌}
use mathlib.Core.List.{List, [], ◌∷◌, ◌++◌}
use native.Mathlib.Nat.{pow-suc}
use native.Mathlib.Omega.{arith}
use codemigrate.Prelude.Tests.{ltb, if◌then◌else◌}
use codemigrate.Prelude.Lists.{length, length-append, replicate, length-replicate, All, All-append}

-- The character of a decimal digit.
digit_char : ℕ → Char
digit_char zero = "0"
digit_char (suc zero) = "1"
digit_char (suc (suc zero)) = "2"
digit_char (suc (suc (suc zero))) = "3"
digit_char (suc (suc (suc (suc zero)))) = "4"
digit_char (suc (suc (suc (suc (suc zero))))) = "5"
digit_char (suc (suc (suc (suc (suc (suc zero)))))) = "6"
digit_char (suc (suc (suc (suc (suc (suc (suc zero))))))) = "7"
digit_char (suc (suc (suc (suc (suc (suc (suc (suc zero)))))))) = "8"
digit_char _ = "9"

-- Most significant digit first. The fuel is the number: a round divides by ten.
digits_fuel : ℕ → ℕ → List ℕ
digits_fuel zero n = n ∷ []
digits_fuel (suc f) n =
    let more = digits_fuel f (n / 10) ++ (n % 10) ∷ [] in if ltb n 10 then n ∷ [] else more

pub digits : ℕ → List ℕ
unfolding digits_fuel
digits n = digits_fuel n n

show : List ℕ → String
unfolding digit_char
show [] = ""
show (d ∷ ds) = String.◌∷◌ (digit_char d) (show ds)

-- %d
unfoldable pub decimal : ℕ → String
unfolding digits show
decimal n = show (digits n)

pad : ℕ → List ℕ → List ℕ
pad w ds = replicate (w - length ds) 0 ++ ds

-- %0wd
unfoldable pub zero_padded : ℕ → ℕ → String
unfolding pad digits show
zero_padded w n = show (pad w (digits n))

value : ℕ → List ℕ → ℕ
value acc [] = acc
value acc (d ∷ ds) = value (acc * 10 + d) ds

value-append : (acc : ℕ) (xs : List ℕ) (d : ℕ) → value acc (xs ++ d ∷ []) ≡ value acc xs * 10 + d
unfolding value
value-append acc [] d = refl
value-append acc (x ∷ xs) d = value-append (acc * 10 + x) xs d

value-digits_fuel : (f n : ℕ) → n ≤ f → value 0 (digits_fuel f n) ≡ n
unfolding value digits_fuel
value-digits_fuel zero n h = omega arith
value-digits_fuel (suc f) n h =
    ground (arith, value-digits_fuel f (n / 10), value-append 0 (digits_fuel f (n / 10)) (n % 10))

value-zeros : (k : ℕ) (ds : List ℕ) → value 0 (replicate k 0 ++ ds) ≡ value 0 ds
unfolding value
value-zeros zero ds = refl
value-zeros (suc k) ds = value-zeros k ds

value-pad : (w n : ℕ) → value 0 (pad w (digits n)) ≡ n
unfolding pad digits
value-pad w n = value-zeros _ (digits_fuel n n) ∙ value-digits_fuel n n (omega arith)

abbrev AreDigits : List ℕ → Type 0
AreDigits = All (λ d. d < 10)

digits_fuel-AreDigits : (f n : ℕ) → n ≤ f → AreDigits (digits_fuel f n)
unfolding digits_fuel
digits_fuel-AreDigits zero n h = (omega arith, tt)
digits_fuel-AreDigits (suc f) n h = ground (
  arith,
  All-append (λ d. d < 10) (digits_fuel f (n / 10)) ((n % 10) ∷ []),
  digits_fuel-AreDigits f (n / 10),
)

zeros-AreDigits : (k : ℕ) → AreDigits (replicate k 0)
zeros-AreDigits zero = tt
zeros-AreDigits (suc k) = (omega arith, zeros-AreDigits k)

pad-AreDigits : (w n : ℕ) → AreDigits (pad w (digits n))
unfolding pad digits
pad-AreDigits w n =
    All-append (λ d. d < 10) (replicate (w - length (digits_fuel n n)) 0) (digits_fuel n n)
      (zeros-AreDigits (w - length (digits_fuel n n))) (digits_fuel-AreDigits n n (omega arith))

code-digit_char : (d : ℕ) → d < 10 → code (digit_char d) ≡ 48 + d
unfolding digit_char
code-digit_char zero h = refl
code-digit_char (suc zero) h = refl
code-digit_char (suc (suc zero)) h = refl
code-digit_char (suc (suc (suc zero))) h = refl
code-digit_char (suc (suc (suc (suc zero)))) h = refl
code-digit_char (suc (suc (suc (suc (suc zero))))) h = refl
code-digit_char (suc (suc (suc (suc (suc (suc zero)))))) h = refl
code-digit_char (suc (suc (suc (suc (suc (suc (suc zero))))))) h = refl
code-digit_char (suc (suc (suc (suc (suc (suc (suc (suc zero)))))))) h = refl
code-digit_char (suc (suc (suc (suc (suc (suc (suc (suc (suc zero))))))))) h = refl
code-digit_char (suc (suc (suc (suc (suc (suc (suc (suc (suc (suc n)))))))))) h =
    absurd (omega arith)

first_code : String → ℕ
first_code String.[] = 0
first_code (String.◌∷◌ c s) = code c

rest_of : String → String
rest_of String.[] = ""
rest_of (String.◌∷◌ c s) = s

show_inj : (xs ys : List ℕ) → AreDigits xs → AreDigits ys → show xs ≡ show ys → xs ≡ ys
unfolding show first_code rest_of
show_inj [] [] hx hy e = refl
show_inj [] (y ∷ ys) hx hy e = absurd (omega (arith, ap first_code e, code-digit_char y hy.0))
show_inj (x ∷ xs) [] hx hy e = absurd (omega (arith, ap first_code e, code-digit_char x hx.0))
show_inj (x ∷ xs) (y ∷ ys) hx hy e =
    let same : x ≡ y =
      omega (arith, ap first_code e, code-digit_char x hx.0, code-digit_char y hy.0) in
    cc (same, show_inj xs ys hx.1 hy.1 (ap rest_of e))

-- Padded numbers differ when the numbers do.
pub zero_padded_inj : (w m n : ℕ) → zero_padded w m ≡ zero_padded w n → m ≡ n
unfolding zero_padded
zero_padded_inj w m n e =
    sym (value-pad w m)
    ∙ ap (value 0) (show_inj _ _ (pad-AreDigits w m) (pad-AreDigits w n) e)
    ∙ value-pad w n

-- One digit takes one byte, so `len` counts digits.
len-digit_char : (d : ℕ) → len_utf8 (digit_char d) ≡ 1
unfolding digit_char
len-digit_char zero = refl
len-digit_char (suc zero) = refl
len-digit_char (suc (suc zero)) = refl
len-digit_char (suc (suc (suc zero))) = refl
len-digit_char (suc (suc (suc (suc zero)))) = refl
len-digit_char (suc (suc (suc (suc (suc zero))))) = refl
len-digit_char (suc (suc (suc (suc (suc (suc zero)))))) = refl
len-digit_char (suc (suc (suc (suc (suc (suc (suc zero))))))) = refl
len-digit_char (suc (suc (suc (suc (suc (suc (suc (suc zero)))))))) = refl
len-digit_char (suc (suc (suc (suc (suc (suc (suc (suc (suc n))))))))) = refl

len-show : (ds : List ℕ) → len (show ds) ≡ length ds
unfolding show
len-show [] = len.nil
len-show (d ∷ ds) = omega (arith, len.cons (digit_char d) (show ds), len-digit_char d, len-show ds)

pow_pos : (k : ℕ) → 1 ≤ 10 ^ k
pow_pos zero = omega arith
pow_pos (suc k) = omega (arith, pow-suc 10 k, pow_pos k)

length-digits_fuel :
    (k f n : ℕ) → n ≤ f → 10 ^ k ≤ n → n < 10 ^ suc k → length (digits_fuel f n) ≡ suc k
unfolding digits_fuel
length-digits_fuel zero zero n h lo hi = refl
length-digits_fuel zero (suc f) n h lo hi = ground arith
length-digits_fuel (suc k) zero n h lo hi = absurd (omega (arith, pow-suc 10 k, pow_pos k))
length-digits_fuel (suc k) (suc f) n h lo hi = ground (
  arith,
  length-digits_fuel k f (n / 10),
  pow-suc 10 k,
  pow-suc 10 (suc k),
  pow_pos k,
  length-append (digits_fuel f (n / 10)) ((n % 10) ∷ []),
)

length-digits_fuel_one : (f n : ℕ) → n < 10 → length (digits_fuel f n) ≡ 1
unfolding digits_fuel
length-digits_fuel_one zero n h = refl
length-digits_fuel_one (suc f) n h = ground arith

length-digits_fuel_two : (f n : ℕ) → n < 100 → n ≤ f → length (digits_fuel f n) ≤ 2
unfolding digits_fuel
length-digits_fuel_two zero n h l = omega arith
length-digits_fuel_two (suc f) n h l = ground (
  arith,
  length-append (digits_fuel f (n / 10)) ((n % 10) ∷ []),
  length-digits_fuel_one f (n / 10),
)

-- A number of `k + 1` digits prints as `k + 1` bytes.
pub len-decimal : (k n : ℕ) → 10 ^ k ≤ n → n < 10 ^ suc k → len (decimal n) ≡ suc k
unfolding decimal digits
len-decimal k n lo hi = len-show (digits_fuel n n) ∙ length-digits_fuel k n n (omega arith) lo hi

-- `%02d` of a number below a hundred takes two bytes.
pub len-zero_padded_two : (n : ℕ) → n < 100 → len (zero_padded 2 n) ≡ 2
unfolding zero_padded pad digits
len-zero_padded_two n h =
    len-show (pad 2 (digits n))
    ∙ omega (
      arith,
      length-append (replicate (2 - length (digits_fuel n n)) 0) (digits_fuel n n),
      length-replicate {A = ℕ} (2 - length (digits_fuel n n)) 0,
      length-digits_fuel_two n n h (omega arith),
    )
