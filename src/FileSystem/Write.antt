-- ===== src/FileSystem/Write.antt =====
-- write_file changes the bytes of the file, as one sequence, like one memcpy.
use so_distribuido.Base.{
  ℕ, zero, suc, ◌+◌, ◌-◌, ◌*◌, ◌/◌, ◌%◌, ◌≤◌, ◌<◌, ◌≡◌, ◌≢◌, ◌⊎◌, refl, ◌∙◌, ap, sym, List, true,
  false, ◌==◌, ltb, leb, if◌then◌else◌, length, arith, Buffer, shift, memcpy, memcpy_before,
  memcpy_after, Bool-cases, inl, inr, update,
}
use native.Mathlib.Decide.{dec_lt, ℕ_discrete}
use so_distribuido.FileSystem.{block_size, list_get, write_blocks}
use so_distribuido.FileSystem.Read.{bytes_of_file, rest_fits}

-- No block stands twice in the list.
abbrev pub IsDistinct : List ℕ → Type 0
IsDistinct list =
    (a b : ℕ) → a < length list → b < length list → list_get list a ≡ list_get list b → a ≡ b

update_here : (f : ℕ → Buffer) (b : ℕ) (v : Buffer) → update f b v b ≡ v
update_here f b v = let e : (b == b) ≡ true = ground arith in rw e refl

update_there : (f : ℕ → Buffer) (b : ℕ) (v : Buffer) (c : ℕ) → b ≢ c → update f b v c ≡ f c
update_there f b v c h = let e : (b == c) ≡ false = ground (arith, h) in rw e refl

-- memcpy at a place of the block is memcpy at the place in the file.
memcpy_moved :
    (f g : Buffer) (base offset : ℕ) (buffer : Buffer) (k i j : ℕ)
    → i ≡ base + j
    → f i ≡ g j
    → memcpy g offset buffer k j ≡ memcpy f (base + offset) buffer k i
unfolding memcpy
memcpy_moved f g base offset buffer k i j e same =
    let a : leb (base + offset) (base + j) ≡ leb offset j = ground arith in
    let b : ltb (base + j) (base + offset + k) ≡ ltb j (offset + k) = ground arith in
    let c : base + j - (base + offset) ≡ j - offset = omega arith in
    let s : f (base + j) ≡ g j = rw e at same in rw (e, a, b, c, s) refl

memcpy_outside :
    (f : Buffer) (at : ℕ) (buffer : Buffer) (k i : ℕ)
    → (i < at) ⊎ (at + k ≤ i)
    → memcpy f at buffer k i ≡ f i
memcpy_outside f at buffer k i (inl h) = memcpy_before f buffer at k i h
memcpy_outside f at buffer k i (inr h) = memcpy_after f buffer at k i h

other_block :
    (n offset k i : ℕ)
    → offset + k ≤ block_size
    → i / block_size ≢ n
    → (i < n * block_size + offset) ⊎ (n * block_size + offset + k ≤ i)
other_block n offset k i fit ne = elim (dec_lt (i / block_size) n) [
  | yes lt ↦ inl (omega (arith, lt))
  | no ge ↦ inr (omega (arith, ge, ne, fit))
]

nowhere : (at i : ℕ) → (i < at) ⊎ (at + 0 ≤ i)
nowhere at i = elim (dec_lt i at) [ yes lt ↦ inl lt | no ge ↦ inr (omega (arith, ge)) ]

twice_after :
    (f g : Buffer) (at next : ℕ) (buffer : Buffer) (k bytes i : ℕ)
    → k ≤ bytes
    → next ≡ at + k
    → g i ≡ memcpy f at buffer k i
    → memcpy g next (shift buffer k) (bytes - k) i ≡ memcpy f at buffer bytes i
unfolding memcpy
twice_after f g at next buffer k bytes i le e one = elim (dec_lt i at) [
  | yes lt ↦ rw (e, one) (ground (arith, lt, le))
  | no ge ↦ elim (dec_lt i (at + k)) [
    | yes lt ↦ rw (e, one) (ground (arith, lt, ge, le))
    | no ge' ↦
        let c : k + (i - (at + k)) ≡ i - at = omega (arith, ge') in
        rw (e, one, c) (ground (arith, ge', ge, le))
  ]
]

-- Two memcpy, one after the other, are one.
memcpy_twice :
    (f g : Buffer) (at next : ℕ) (buffer : Buffer) (k bytes i : ℕ)
    → k ≤ bytes
    → (k < bytes → next ≡ at + k)
    → g i ≡ memcpy f at buffer k i
    → memcpy g next (shift buffer k) (bytes - k) i ≡ memcpy f at buffer bytes i
memcpy_twice f g at next buffer k bytes i le after one = elim (dec_lt k bytes) [
  | yes lt ↦ twice_after f g at next buffer k bytes i le (after lt) one
  | no ge ↦
      let z : bytes - k ≡ 0 = omega (arith, ge) in
      let same : k ≡ bytes = omega (arith, ge, le) in
      rw z (memcpy_outside g next (shift buffer k) 0 i (nowhere next i) ∙ rw same at one)
]

-- Writing a block.
one_block :
    (list : List ℕ) (contents : ℕ → Buffer) (n offset k : ℕ) (buffer : Buffer) (i : ℕ)
    → IsDistinct list
    → n < length list
    → offset + k ≤ block_size
    → i < length list * block_size
    → bytes_of_file list
        (update contents (list_get list n) (memcpy (contents (list_get list n)) offset buffer k))
        i
      ≡ memcpy (bytes_of_file list contents) (n * block_size + offset) buffer k i
unfolding bytes_of_file
one_block list contents n offset k buffer i distinct lt fit inside =
    let b = list_get list n in
    let v = memcpy (contents b) offset buffer k in
    let split : i ≡ i / block_size * block_size + i % block_size = omega arith in
    elim (ℕ_discrete (i / block_size) n) [
      | yes e ↦
          let at : i ≡ n * block_size + i % block_size = omega (arith, e) in
          let same : bytes_of_file list contents i ≡ contents b (i % block_size) = rw e refl in
          rw e (
            ap (λ w. w (i % block_size)) (update_here contents b v)
            ∙ memcpy_moved (bytes_of_file list contents) (contents b) (n * block_size) offset buffer
                k i (i % block_size) at same)
      | no ne ↦
          let differ : b ≢ list_get list (i / block_size) =
            λ h. ne (sym (distinct n (i / block_size) lt (omega (arith, inside)) h)) in
          ap (λ w. w (i % block_size)) (update_there contents b v _ differ)
          ∙ sym (
              memcpy_outside (bytes_of_file list contents) (n * block_size + offset) buffer k i
                (other_block n offset k i fit ne))
    ]

writing_lem :
    (offset bytes k : ℕ)
    → k ≡ (if leb (block_size - offset) bytes then block_size - offset else bytes)
    → offset < block_size
    → 0 < bytes
    → (0 < k) × (k ≤ bytes) × (offset + k ≤ block_size)
writing_lem offset bytes k e h pos = ground (arith, e, h, pos)

writing_rest :
    (offset bytes k : ℕ)
    → k ≡ (if leb (block_size - offset) bytes then block_size - offset else bytes)
    → offset < block_size
    → k < bytes
    → offset + k ≡ block_size
writing_rest offset bytes k e h lt = ground (arith, e, h, lt)

-- Writing bytes that the blocks have room for, which are distinct, changes the bytes of the file as
-- one memcpy at the place of the write does.
pub write_blocks-memcpy :
    (left bytes n offset : ℕ) (buffer : Buffer) (list : List ℕ) (contents : ℕ → Buffer) (i : ℕ)
    → bytes ≤ left
    → offset < block_size
    → n * block_size + offset + bytes ≤ length list * block_size
    → IsDistinct list
    → i < length list * block_size
    → bytes_of_file list (write_blocks left bytes n offset buffer list contents) i
      ≡ memcpy (bytes_of_file list contents) (n * block_size + offset) buffer bytes i
unfolding write_blocks
write_blocks-memcpy zero bytes n offset buffer list contents i enough small fits distinct inside =
    let z : bytes ≡ 0 = omega (arith, enough) in
    rw z (
      sym (
        memcpy_outside (bytes_of_file list contents) (n * block_size + offset) buffer 0 i
          (nowhere (n * block_size + offset) i)))
write_blocks-memcpy (suc left) bytes n offset buffer list contents i enough small fits distinct
      inside =
    elim (Bool-cases (bytes == 0)) [
      | inl z ↦
          let e : bytes ≡ 0 = ground (arith, z) in
          rw e (
            sym (
              memcpy_outside (bytes_of_file list contents) (n * block_size + offset) buffer 0 i
                (nowhere (n * block_size + offset) i)))
      | inr more ↦
          let pos : 0 < bytes = ground (arith, more) in
          let k = if leb (block_size - offset) bytes then block_size - offset else bytes in
          let (kpos, kle, kin) = writing_lem offset bytes k refl small pos in
          let b = list_get list n in
          let contents' = update contents b (memcpy (contents b) offset buffer k) in
          let ih =
            write_blocks-memcpy left (bytes - k) (n + 1) 0 (shift buffer k) list contents' i
              (omega (arith, enough, kpos, pos)) (omega arith)
              (rest_fits n offset bytes k (length list) kle (writing_rest offset bytes k refl small)
                fits pos)
              distinct inside in
          let one =
            one_block list contents n offset k buffer i distinct (omega (arith, fits, pos)) kin
              inside in
          rw more (
            ih
            ∙ memcpy_twice (bytes_of_file list contents) (bytes_of_file list contents')
                (n * block_size + offset) ((n + 1) * block_size + 0) buffer k bytes i kle
                (λ lt. let w = writing_rest offset bytes k refl small lt in omega (arith, w)) one)
    ]
