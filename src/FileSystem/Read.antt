-- ===== src/FileSystem/Read.antt =====
-- read_file answers the bytes of the file as one sequence.
use so_distribuido.Base.{
  ℕ, zero, suc, ◌+◌, ◌-◌, ◌*◌, ◌/◌, ◌%◌, ◌^◌, ◌≤◌, ◌<◌, ◌≡◌, refl, ◌∙◌, sym, List, Option, some,
  true, false, ◌||◌, ◌==◌, ltb, leb, if◌then◌else◌, length, arith, Buffer, shift, memcpy,
  memcpy_inside, memcpy_before, lt→ltb, Bool-cases, inl, inr, min,
}
use native.Mathlib.Decide.{dec_lt}
use so_distribuido.FileSystem.{
  File, Disk, success, block_size, find, list_get, read_blocks, bytes_read, send_read, read_file,
}

-- The bytes of a file: those of its blocks, in the order of BLOQUES.
unfoldable pub bytes_of_file : List ℕ → (ℕ → Buffer) → Buffer
bytes_of_file list contents i = contents (list_get list (i / block_size)) (i % block_size)

-- What read_blocks leaves in its buffer, of which the first `at` bytes are read already.
pub record Filled (answer : Option Buffer) (list : List ℕ) (contents : ℕ → Buffer) (buff : Buffer)
    (at from bytes : ℕ) : Type 0 where
  pub result : Buffer
  pub answers : answer ≡ some result
  pub kept : (i : ℕ) → i < at → result i ≡ buff i
  pub read : (i : ℕ) → i < bytes → result (at + i) ≡ bytes_of_file list contents (from + i)

-- The bytes that a round reads.
abbrev reading : ℕ → ℕ → ℕ
reading offset bytes = if leb bytes (block_size - offset) then bytes else block_size - offset

reading_lem :
    (offset bytes : ℕ)
    → offset < block_size
    → 0 < bytes
    → (0 < reading offset bytes)
      × (reading offset bytes ≤ bytes)
      × (offset + reading offset bytes ≤ block_size)
reading_lem offset bytes h pos = ground (arith, h, pos)

reading_rest :
    (offset bytes : ℕ)
    → offset < block_size
    → reading offset bytes < bytes
    → offset + reading offset bytes ≡ block_size
reading_rest offset bytes h lt = ground (arith, h, lt)

block_byte :
    (list : List ℕ) (contents : ℕ → Buffer) (n offset i : ℕ)
    → offset + i < block_size
    → bytes_of_file list contents (n * block_size + offset + i)
      ≡ contents (list_get list n) (offset + i)
unfolding bytes_of_file
block_byte list contents n offset i h =
    let q : (n * block_size + offset + i) / block_size ≡ n = omega (arith, h) in
    let r : (n * block_size + offset + i) % block_size ≡ offset + i = omega (arith, h) in
    rw (q, r) refl

pub rest_fits :
    (n offset bytes k blocks : ℕ)
    → k ≤ bytes
    → (k < bytes → offset + k ≡ block_size)
    → n * block_size + offset + bytes ≤ blocks * block_size
    → 0 < bytes
    → (n + 1) * block_size + 0 + (bytes - k) ≤ blocks * block_size
rest_fits n offset bytes k blocks le whole fits pos = elim (dec_lt k bytes) [
  | yes lt ↦ let w = whole lt in omega (arith, le, w, fits)
  | no ge ↦ omega (arith, ge, le, fits, pos)
]

read_blocks-Filled :
    (left bytes n offset : ℕ) (list : List ℕ) (contents : ℕ → Buffer) (buff : Buffer) (at : ℕ)
    → bytes < left
    → offset < block_size
    → n * block_size + offset + bytes ≤ length list * block_size
    → Filled
        (read_blocks left bytes n offset list contents buff at)
        list
        contents
        buff
        at
        (n * block_size + offset)
        bytes
unfolding read_blocks
read_blocks-Filled zero bytes n offset list contents buff at enough small fits = ground arith
read_blocks-Filled (suc left) bytes n offset list contents buff at enough small fits =
    elim (Bool-cases (bytes == 0)) [
      | inl z ↦ record {
        result = buff;
        answers = rw z refl;
        kept = λ i h. refl;
        read = λ i h. ground (arith, z, h);
      }
      | inr more ↦
          let pos : 0 < bytes = ground (arith, more) in
          let k = reading offset bytes in
          let (kpos, kle, kin) = reading_lem offset bytes small pos in
          let b = list_get list n in
          let buff' = memcpy buff at (shift (contents b) offset) k in
          let inside : ltb n (length list) ≡ true =
            lt→ltb n (length list) (omega (arith, fits, pos)) in
          let ih =
            read_blocks-Filled left (bytes - k) (n + 1) 0 list contents buff' (at + k)
              (omega (arith, enough, kpos, pos)) (omega arith)
              (rest_fits n offset bytes k (length list) (omega (arith, kle))
                (reading_rest offset bytes small) fits pos) in
          record {
            result = ih.result;
            answers = rw (more, inside) ih.answers;
            kept = λ i h.
                ih.kept i (omega (arith, h))
                ∙ memcpy_before buff (shift (contents b) offset) at k i h;
            read = λ i h. elim (dec_lt i k) [
              | yes lt ↦
                  ih.kept (at + i) (omega (arith, lt))
                  ∙ memcpy_inside buff (shift (contents b) offset) at k i lt
                  ∙ sym (block_byte list contents n offset i (omega (arith, lt, kin)))
              | no ge ↦
                  let lt : k < bytes = omega (arith, ge, h) in
                  let whole = reading_rest offset bytes small lt in
                  let a : at + k + (i - k) ≡ at + i = omega (arith, ge) in
                  let c : (n + 1) * block_size + 0 + (i - k) ≡ n * block_size + offset + i =
                    omega (arith, ge, whole) in
                  rw (a, c) at (ih.read (i - k) (omega (arith, ge, h)))
            ];
          }
    ]

read_file-some :
    (path : List ℕ) (offset size : ℕ) (memory : Buffer) (d : Disk) (f : File) (buff : Buffer)
    → find path d.files ≡ some f
    → offset + 1 < f.tamanio
    → f.tamanio < 2 ^ 31
    → offset + size < 2 ^ 31
    → read_blocks
        (suc (min size (f.tamanio - offset)))
        (min size (f.tamanio - offset))
        (offset / block_size)
        (offset % block_size)
        f.bloques
        d.contents
        memory
        0
      ≡ some buff
    → read_file path offset size memory d
      ≡ some (bytes_read success (min size (f.tamanio - offset)) buff)
unfolding send_read read_file
read_file-some path offset size memory d f buff found inside small sum read =
    let clip : (if ltb f.tamanio (offset + size) then f.tamanio - offset else size)
        ≡ min size (f.tamanio - offset) =
      ground (arith, inside) in
    let can = lt→ltb (offset + 1) f.tamanio inside in
    let ints : (leb (2 ^ 31) offset || leb (2 ^ 31) f.tamanio) ≡ false =
      ground (arith, small, sum) in
    let int_sum : leb (2 ^ 31) (offset + size) ≡ false = ground (arith, sum) in
    rw (found, clip, can, ints, int_sum, read, read_file) refl

-- Reading a regular file of less than 2^31 bytes, which its blocks cover, from a place
-- before its last byte, where the sum of offset and size is an int, is answered SUCCESS with
-- the bytes from that place on of the contents of its blocks as one sequence, as many as
-- were asked for and the file has.
pub read_file-bytes :
    (path : List ℕ) (offset size : ℕ) (memory : Buffer) (d : Disk) (f : File)
    → find path d.files ≡ some f
    → f.tamanio ≤ length f.bloques * block_size
    → offset + 1 < f.tamanio
    → f.tamanio < 2 ^ 31
    → offset + size < 2 ^ 31
    → (buff : Buffer) × (read_file path offset size memory d
        ≡ some (bytes_read success (min size (f.tamanio - offset)) buff))
      × ((i : ℕ)
          → i < min size (f.tamanio - offset)
          → buff i ≡ bytes_of_file f.bloques d.contents (offset + i))
read_file-bytes path offset size memory d f found covered inside small sum =
    let n = min size (f.tamanio - offset) in
    let start : offset / block_size * block_size + offset % block_size ≡ offset = omega arith in
    let r =
      read_blocks-Filled (suc n) n (offset / block_size) (offset % block_size) f.bloques d.contents
        memory 0 (omega arith) (omega arith) (omega (arith, covered, inside)) in
    (
      r.result,
      read_file-some path offset size memory d f r.result found inside small sum r.answers,
      λ i h. let z : 0 + i ≡ i = omega arith in rw (start, z) at (r.read i h),
    )
