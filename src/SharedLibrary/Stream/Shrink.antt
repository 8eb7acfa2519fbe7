-- ===== src/SharedLibrary/Stream/Shrink.antt =====
-- A reader leaves no more bytes than it found.
use so_distribuido.Base.{ℕ, zero, suc, ◌≤◌, List, [], ◌∷◌, Option, none, some, arith, length}
use so_distribuido.SharedLibrary.Stream.{Reader, return, ◌>>=◌, get8, get32, get_all}

-- A result that leaves at most n bytes.
abbrev pub Leaves : {A : Type 0} → ℕ → Option (A × List ℕ) → Type 0
Leaves n none = Unit
Leaves n (some (a, rest)) = length rest ≤ n

abbrev pub Shrinks : {A : Type 0} → Reader A → Type 0
Shrinks m = (bytes : List ℕ) → Leaves (length bytes) (m bytes)

weaken : {A : Type 0} (n k : ℕ) (o : Option (A × List ℕ)) → n ≤ k → Leaves n o → Leaves k o
weaken n k none h l = l
weaken n k (some (a, rest)) h l = omega arith

pub return-Shrinks : {A : Type 0} (a : A) → Shrinks (return a)
return-Shrinks a bytes = omega arith

bound-Leaves :
    {A B : Type 0} (f : A → Reader B) (n : ℕ) (o : Option (A × List ℕ))
    → ((a : A) → Shrinks (f a))
    → Leaves n o
    → Leaves n (elim o [ none ↦ none | some (a, rest) ↦ f a rest ])
bound-Leaves f n none sf l = l
bound-Leaves f n (some (a, rest)) sf l = weaken (length rest) n (f a rest) l (sf a rest)

pub bind-Shrinks :
    {A B : Type 0} (m : Reader A) (f : A → Reader B)
    → Shrinks m
    → ((a : A) → Shrinks (f a))
    → Shrinks (m >>= f)
bind-Shrinks m f sm sf bytes = bound-Leaves f (length bytes) (m bytes) sf (sm bytes)

pub get8-Shrinks : Shrinks get8
unfolding get8
get8-Shrinks [] = tt
get8-Shrinks (a ∷ rest) = omega arith

pub get32-Shrinks : Shrinks get32
unfolding get32
get32-Shrinks [] = tt
get32-Shrinks (a ∷ []) = tt
get32-Shrinks (a ∷ b ∷ []) = tt
get32-Shrinks (a ∷ b ∷ c ∷ []) = tt
get32-Shrinks (a ∷ b ∷ c ∷ d ∷ rest) = omega arith

pub get_all-Shrinks : {A : Type 0} (get : Reader A) (n : ℕ) → Shrinks get → Shrinks (get_all get n)
unfolding get_all
get_all-Shrinks {A} get zero s = return-Shrinks {A = List A} []
get_all-Shrinks {A} get (suc n) s = bind-Shrinks get _ s (λ x.
    bind-Shrinks (get_all get n) _ (get_all-Shrinks get n s)
      (λ xs. return-Shrinks {A = List A} (x ∷ xs)))
