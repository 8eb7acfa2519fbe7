-- ===== src/SharedLibrary/Stream.antt =====
-- Bytes written one after the other with memcpy, and read in the same order. The machine is little
-- endian. A writer puts the bytes of its argument before those that follow; a reader answers a
-- value and the bytes after it, and `none` where the code would read past the end.
pub mod Shrink
use so_distribuido.Base.{
  ℕ, zero, suc, ◌+◌, ◌*◌, ◌/◌, ◌%◌, ◌^◌, ◌<◌, ◌≡◌, refl, ◌∙◌, List, [], ◌∷◌, Option, none, some,
  arith, length,
}

abbrev pub Reader : Type 0 → Type 0
Reader A = List ℕ → Option (A × List ℕ)

abbrev pub return : {A : Type 0} → A → Reader A
return a bytes = some (a, bytes)

infixl 5 ◌>>=◌
abbrev pub ◌>>=◌ : {A B : Type 0} → Reader A → (A → Reader B) → Reader B
◌>>=◌ m f bytes = elim (m bytes) [ none ↦ none | some (a, rest) ↦ f a rest ]

pub bind_some :
    {A B : Type 0} (m : Reader A) (f : A → Reader B) (bytes : List ℕ) (a : A) (rest : List ℕ)
    → m bytes ≡ some (a, rest)
    → (m >>= f) bytes ≡ f a rest
bind_some m f bytes a rest e = rw (e, ◌>>=◌) refl

-- sizeof(char), sizeof(uint16_t) and sizeof(int)
unfoldable pub put8 : ℕ → List ℕ → List ℕ
put8 n rest = n % 2 ^ 8 ∷ rest

unfoldable pub put16 : ℕ → List ℕ → List ℕ
put16 n rest = n % 2 ^ 8 ∷ n / 2 ^ 8 % 2 ^ 8 ∷ rest

unfoldable pub put32 : ℕ → List ℕ → List ℕ
put32 n rest = n % 2 ^ 8 ∷ n / 2 ^ 8 % 2 ^ 8 ∷ n / 2 ^ 16 % 2 ^ 8 ∷ n / 2 ^ 24 % 2 ^ 8 ∷ rest

unfoldable pub get8 : Reader ℕ
get8 (a ∷ rest) = some (a, rest)
get8 _ = none

unfoldable pub get16 : Reader ℕ
get16 (a ∷ b ∷ rest) = some (a + b * 2 ^ 8, rest)
get16 _ = none

unfoldable pub get32 : Reader ℕ
get32 (a ∷ b ∷ c ∷ d ∷ rest) = some (a + b * 2 ^ 8 + c * 2 ^ 16 + d * 2 ^ 24, rest)
get32 _ = none

pub get8-put8 : (n : ℕ) (rest : List ℕ) → n < 2 ^ 8 → get8 (put8 n rest) ≡ some (n, rest)
unfolding get8 put8
get8-put8 n rest h = let e : n % 2 ^ 8 ≡ n = omega arith in rw e refl

pub get16-put16 : (n : ℕ) (rest : List ℕ) → n < 2 ^ 16 → get16 (put16 n rest) ≡ some (n, rest)
unfolding get16 put16
get16-put16 n rest h = let e : n % 2 ^ 8 + n / 2 ^ 8 % 2 ^ 8 * 2 ^ 8 ≡ n = omega arith in rw e refl

pub get32-put32 : (n : ℕ) (rest : List ℕ) → n < 2 ^ 32 → get32 (put32 n rest) ≡ some (n, rest)
unfolding get32 put32
get32-put32 n rest h =
    let e : n % 2 ^ 8
          + n / 2 ^ 8 % 2 ^ 8 * 2 ^ 8
          + n / 2 ^ 16 % 2 ^ 8 * 2 ^ 16
          + n / 2 ^ 24 % 2 ^ 8 * 2 ^ 24
        ≡ n =
      omega arith in
    rw e refl

module _ {A : Type 0} where
  -- The loops over the elements of a list.
  unfoldable pub put_all : (A → List ℕ → List ℕ) → List A → List ℕ → List ℕ
  put_all put [] rest = rest
  put_all put (x ∷ xs) rest = put x (put_all put xs rest)

  unfoldable pub get_all : Reader A → ℕ → Reader (List A)
  get_all get zero = return []
  get_all get (suc n) = do x ← get; xs ← get_all get n; return (x ∷ xs)

  -- Every element is one that the reader reads back.
  pub data All (P : A → Type 0) : List A → Type 0 where
    all_none : All P []
    all_next : (x : A) (xs : List A) → P x → All P xs → All P (x ∷ xs)

  pub get_all-put_all :
      (P : A → Type 0) (get : Reader A) (put : A → List ℕ → List ℕ)
      → ((x : A) (rest : List ℕ) → P x → get (put x rest) ≡ some (x, rest))
      → (xs : List A) (rest : List ℕ) → All P xs
      → get_all get (length xs) (put_all put xs rest) ≡ some (xs, rest)
  unfolding get_all put_all
  get_all-put_all P get put back [] rest all_none = refl
  get_all-put_all P get put back (x ∷ xs) rest (all_next _ _ p ps) =
      bind_some get _ _ x (put_all put xs rest) (back x (put_all put xs rest) p)
      ∙ bind_some (get_all get (length xs)) _ _ xs rest (get_all-put_all P get put back xs rest ps)
