-- ===== src/FileSystem/Sound.antt =====
-- No block belongs to two files, and the blocks of the files are set in the bitmap.
use so_distribuido.Base.{
  ℕ, ◌+◌, ◌≤◌, ◌<◌, ◌≡◌, refl, List, [], ◌∷◌, Option, none, some, Bool, true, false, ◌==◌,
  if◌then◌else◌, inl, inr, arith, count, Option-cases,
}
use native.Mathlib.Decide.{ℕ_discrete, dec_lt}
use so_distribuido.FileSystem.{
  File, Disk, FileCode, find, put, clean_bits, available_from, get_available_block, with_block,
  create_block, create_file, delete_file, block_size,
}
use so_distribuido.FileSystem.Owned.{
  owned, blocks_of, owned-put, owned-remove, bit, clean_bits-bit, available-some, available-none,
}

-- A block stands in the BLOQUES of one file at most, and then its bit is set and it is a block of
-- the disk.
pub record IsSound (d : Disk) : Type 0 where
  pub once : (b : ℕ) → owned b d.files ≤ bit (d.bitmap b)
  pub within : (b : ℕ) → d.blocks ≤ b → owned b d.files ≡ 0

-- The disk before a file gets its new blocks: those that it had are taken out of the bitmap.
pub record IsCleaned (path : List ℕ) (d : Disk) : Type 0 where
  pub less : (b : ℕ) → owned b d.files ≤ count b (blocks_of (find path d.files)) + bit (d.bitmap b)
  pub once : (b : ℕ) → owned b d.files ≤ 1
  pub within : (b : ℕ) → d.blocks ≤ b → owned b d.files ≡ 0

bit_le : (x : Bool) → bit x ≤ 1
bit_le true = omega arith
bit_le false = omega arith

cleaned_le : (o c : ℕ) (x : Bool) → o ≤ bit x → o ≤ c + bit (if c == 0 then x else false)
cleaned_le o c x h = let le = bit_le x in ground (arith, h, le)

clean_bits-IsCleaned :
    (path : List ℕ) (d : Disk) (f : File)
    → IsSound d
    → find path d.files ≡ some f
    → IsCleaned path (record d { bitmap = clean_bits f.bloques d.bitmap })
clean_bits-IsCleaned path d f s found = record {
  less = λ b.
      rw (clean_bits-bit f.bloques d.bitmap b, found)
        (cleaned_le (owned b d.files) (count b f.bloques) (d.bitmap b) (s.once b));
  once = λ b. let a = s.once b in let le = bit_le (d.bitmap b) in omega (arith, a, le);
  within = s.within;
}

missing-IsCleaned : (path : List ℕ) (d : Disk) → IsSound d → IsCleaned path d
missing-IsCleaned path d s = record {
  less = λ b. let a = s.once b in omega (arith, a);
  once = λ b. let a = s.once b in let le = bit_le (d.bitmap b) in omega (arith, a, le);
  within = s.within;
}

full-IsSound :
    (path : List ℕ) (d : Disk)
    → IsCleaned path d
    → available_from d.blocks 0 d.bitmap ≡ none
    → IsSound d
full-IsSound path d c full = record {
  once = λ b. elim (dec_lt b d.blocks) [
    | yes lt ↦
        let busy = available-none d.blocks 0 d.bitmap full b (omega arith) (omega (arith, lt)) in
        rw busy (c.once b)
    | no n ↦ let z = c.within b (omega (arith, n)) in omega (arith, z)
  ];
  within = c.within;
}

new_le :
    (o o' c : ℕ) (b nb : ℕ) (bitmap : ℕ → Bool)
    → bitmap nb ≡ false
    → o ≤ c + bit (bitmap b)
    → o' + c ≡ o + ((if b == nb then 1 else 0) + 0)
    → o' ≤ bit (if nb == b then true else bitmap b)
new_le o o' c b nb bitmap free le same = elim (ℕ_discrete b nb) [
  | yes e ↦
      let x : o ≤ c + bit (bitmap nb) = rw e at le in
      let x' : o ≤ c + 0 = rw free at x in
      let y : o' + c ≡ o + ((if nb == nb then 1 else 0) + 0) = rw e at same in
      rw e (ground (arith, x', y))
  | no n ↦ ground (arith, le, same, n)
]

-- The count of a new block among the blocks of the disk.
new_within :
    (o o' c : ℕ) (b nb blocks : ℕ)
    → nb < blocks
    → blocks ≤ b
    → o ≡ 0
    → o' + c ≡ o + ((if b == nb then 1 else 0) + 0)
    → o' ≡ 0
new_within o o' c b nb blocks lt le z same = ground (arith, lt, le, z, same)

create_block-IsSound :
    (path : List ℕ) (d : Disk) (o : Option (ℕ × (ℕ → Bool)))
    → IsCleaned path d
    → available_from d.blocks 0 d.bitmap ≡ o
    → IsSound (create_block path d o).1
unfolding create_block with_block count
create_block-IsSound path d none c full = full-IsSound path d c full
create_block-IsSound path d (some (nb, bitmap)) c found =
    let (lt, free, same) = available-some d.blocks 0 d.bitmap nb bitmap found in
    let g : File = record { path = path; tamanio = block_size; bloques = nb ∷ [] } in
    let old = blocks_of (find path d.files) in
    record {
      once = λ b. rw same (
          new_le (owned b d.files) (owned b (put g d.files)) (count b old) b nb d.bitmap free
            (c.less b) (owned-put b g d.files));
      within = λ b le.
          new_within (owned b d.files) (owned b (put g d.files)) (count b old) b nb d.blocks
            (omega (arith, lt)) le (c.within b le) (owned-put b g d.files);
    }

if_IsSound :
    (b : Bool) (x y : FileCode × Disk) → IsSound x.1 → IsSound y.1 → IsSound (if b then x else y).1
if_IsSound true x y a c = a
if_IsSound false x y a c = c

create-IsSound : (path : List ℕ) (d : Disk) → IsSound d → IsSound (create_file path d).1
unfolding create_file get_available_block
create-IsSound path d s = elim (Option-cases (find path d.files)) [
  | inl e ↦
      let made =
        create_block-IsSound path d (available_from d.blocks 0 d.bitmap)
          (missing-IsCleaned path d s) refl in
      rw (e, create_file) (if_IsSound (d.is_dir path) _ _ s made)
  | inr (f, e) ↦
      rw (e, create_file)
        (create_block-IsSound path (record d { bitmap = clean_bits f.bloques d.bitmap }) _
          (clean_bits-IsCleaned path d f s e) refl)
]

delete-IsSound : (path : List ℕ) (d : Disk) → IsSound d → IsSound (delete_file path d).1
unfolding delete_file
delete-IsSound path d s = elim (Option-cases (find path d.files)) [
  | inl e ↦ rw (e, delete_file) s
  | inr (f, e) ↦
      let c = clean_bits-IsCleaned path d f s e in
      rw (e, delete_file)
        (record {
          once =
              λ b. let k = c.less b in let r = owned-remove b path d.files in omega (arith, k, r);
          within = λ b le.
              let z = c.within b le in let r = owned-remove b path d.files in omega (arith, z, r);
        })
]

-- From a disk where no block belongs to two files or twice to one, and the blocks of the
-- files are blocks of the disk whose bits are set, create_file, whether it makes the file,
-- replaces it or finds no block, and delete_file leave such a disk.
pub files-IsSound :
    (path : List ℕ) (d : Disk)
    → IsSound d
    → IsSound (create_file path d).1 × IsSound (delete_file path d).1
files-IsSound path d s = (create-IsSound path d s, delete-IsSound path d s)
