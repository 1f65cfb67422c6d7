-- ===== src/Stepper/Missile/AmmoFile.antt =====
-- AmmoFileReader of stepper/missile.py: the missiles of a file of chunks, each after a line with
-- its size and its marker.
pub mod Chunks
pub mod Loops
use yandex_tank.Prelude.{ℕ, zero, suc, ◌-◌, some, [], ◌∷◌, length, if◌then◌else◌}
use yandex_tank.Prelude.Int.{ℤ, pos, ltb_ℤ}
use yandex_tank.Prelude.Result.{
  Result, ok, err, ◌>>=◌, require, index_error, value_error, runtime_error,
}
use yandex_tank.Prelude.Text.{is_space}
use yandex_tank.Prelude.Bytes.{Bytes, read, words, int_of}
use yandex_tank.Numbers.{Numbers}
use yandex_tank.Stepper.Status.{Status, set_af_position}
use yandex_tank.Stepper.Stpd.{chunk_header}
use yandex_tank.Stepper.Missile.Uris.{nth_word}
use yandex_tank.Stepper.Missile.{Missile, Run, after, loops_done, raised, not_yet, next_loop}

-- what was read, where nothing is raised
abbrev pub returned : Result (Bytes × Bytes) → Bytes × Bytes
returned (ok found) = found
returned (err e) = ([], [])

-- `read_chunk_header`, without a decoding
unfoldable pub next_header : Bytes → Bytes × Bytes
next_header s = returned (chunk_header ok (suc (length s)) s)

-- What a header stands before: the end of the loop, or a missile and what follows it.
pub data Chunk : Type 0 where
  zero_sized : Chunk
  chunk : Missile → Bytes → Chunk

-- the size in a header
unfoldable pub size_of : (chunk_header : Bytes) → Result ℤ
size_of header = require index_error (nth_word (words is_space header) 0) >>= int_of

-- A short read raises AmmoFileError itself; the other errors are turned into it.
unfoldable pub read_sized : ℤ → (chunk_header : Bytes) → Bytes → Result Chunk
read_sized (pos zero) header s = ok zero_sized
read_sized size header s =
    let marker = nth_word (words is_space header) 1 in
    read size s >>= λ (missile, rest).
    if ltb_ℤ (pos (length missile)) size
    then err value_error
    else ok (chunk (record { missile = missile; marker = marker }) rest)

unfoldable pub read_chunk : (chunk_header : Bytes) → Bytes → Result Chunk
read_chunk header s = size_of header >>= λ size. read_sized size header s

module _ {F : Type 0} ⦃n : Numbers F⦄ (clock : Status F → F) (file : Bytes) where
  -- `info.status.af_position = ammo_file.tell()`
  abbrev pub told : (rest : Bytes) → Status F → Status F
  told rest s = set_af_position (clock s) (length file - length rest) s

module _ {F : Type 0} ⦃n : Numbers F⦄ (clock : Status F → F)
    (consume : Missile → Status F → Status F) (file : Bytes) where
  -- `while chunk_header`, with the file after the header
  unfoldable pub read_chunks : (rounds : ℕ) (chunk_header : Bytes) → Bytes → Status F → Run F
  read_chunks rounds [] rest s = record { missiles = []; status = s; end = loops_done }
  read_chunks zero (c ∷ header) rest s = record { missiles = []; status = s; end = not_yet }
  read_chunks (suc k) (c ∷ header) rest s =
      let again = λ (s' : Status F). let (h, r) = next_header file in read_chunks k h r s' in
      let again_told = λ (s' : Status F).
        let (h, r) = next_header file in read_chunks k h r (told clock file r s') in
      elim (read_chunk (c ∷ header) rest) [
        | err e ↦ record { missiles = []; status = s; end = raised runtime_error }
        | ok zero_sized ↦ next_loop s again
        | ok (chunk m rest') ↦ after (m ∷ []) (
            let (h, r) = next_header rest' in
            elim h [
              | [] ↦ next_loop (consume m s) again_told
              | b ∷ bs ↦ read_chunks k (b ∷ bs) r (told clock file r (consume m s))
            ])
      ]

  unfoldable pub ammo_file_reader : (rounds data_length : ℕ) → Status F → Run F
  ammo_file_reader rounds size s =
      let (h, r) = next_header file in read_chunks rounds h r (record s { af_size = some size })
