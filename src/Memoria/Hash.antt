-- ===== src/Memoria/Hash.antt =====
-- hashing of memoria.c, with the parts of libc that it calls on the texts of two numbers.
use so_distribuido.Base.{
  ℕ, zero, suc, ◌+◌, ◌-◌, ◌*◌, ◌/◌, ◌%◌, ◌<◌, min, List, [], ◌∷◌, ◌++◌, Bool, ◌&&◌, arith, ◌==◌,
  leb, if◌then◌else◌,
}
use so_distribuido.Memoria.Types.{Conf, word, is_negative}

-- The decimal digits of `n` in front of `rest`. Twenty rounds are enough: an int has ten digits.
unfoldable pub digits : ℕ → ℕ → List ℕ → List ℕ
digits zero n rest = rest
digits (suc fuel) n rest =
    let text = (b'0' + n % 10) ∷ rest in
    let more = digits fuel (n / 10) text in if n / 10 == 0 then text else more

-- `sprintf(str, "%d", w)`
unfoldable pub print_int : ℕ → List ℕ
unfolding digits
print_int w = if is_negative w then b'-' ∷ digits 20 (word - w) [] else digits 20 w []

is_digit : ℕ → Bool
is_digit c = leb b'0' c && leb c b'9'

-- The value of the digits at the start of a text.
unfoldable pub read_digits : ℕ → List ℕ → ℕ
unfolding is_digit
read_digits acc [] = acc
read_digits acc (c ∷ cs) =
    let more = read_digits (acc * 10 + (c - b'0')) cs in if is_digit c then more else acc

-- `atoi(str)`, an int as its bit pattern.
unfoldable pub atoi : ℕ → List ℕ → ℕ
unfolding read_digits
atoi long_max [] = 0
atoi long_max (c ∷ cs) =
    if c == b'-'
    then (word - min (read_digits 0 cs) (long_max + 1) % word) % word
    else min (read_digits 0 (c ∷ cs)) long_max % word

-- hashing: the two numbers are printed one after the other, and read back as one.
unfoldable pub hashing : Conf → ℕ → ℕ → ℕ
unfolding print_int atoi
hashing conf pid page = atoi conf.long_max (print_int pid ++ print_int page) % conf.frames

pub hashing-lt :
    (conf : Conf) (pid page : ℕ) → 0 < conf.frames → hashing conf pid page < conf.frames
unfolding hashing
hashing-lt conf pid page h = omega arith
