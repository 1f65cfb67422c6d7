-- ===== src/Stepper/Missile/AmmoFile/Loops.antt =====
-- The reader of chunks up to the limit of loops.
use mathlib.Core.Path.{subst}
use yandex_tank.Prelude.{
  ℕ, zero, suc, ◌+◌, ◌≤◌, some, List, [], ◌∷◌, ◌++◌, All, length, length-append, ◌≡◌, ◌≢◌, refl,
  sym, ap, ◌∙◌, arith,
}
use yandex_tank.Prelude.Result.{ok}
use yandex_tank.Prelude.Bytes.{Bytes, readline}
use yandex_tank.Numbers.{Numbers}
use yandex_tank.Stepper.Status.{Status}
use yandex_tank.Stepper.Missile.Loops.{
  repeated, SameLoops, KeepsLoops, set_af_position-SameLoops, Looped, next_loop-Looped,
}
use yandex_tank.Stepper.Missile.AmmoFile.{
  next_header, chunk, read_chunk, told, read_chunks, ammo_file_reader,
}
use yandex_tank.Stepper.Missile.{Missile, Run, after, loops_done, next_loop}
use yandex_tank.Stepper.Missile.AmmoFile.Chunks.{
  IsAmmo, header_of, ammo_file, read_chunk-header_of, header_of-ne, next_header_newline,
  next_header-chunk_text,
}

module _ {F : Type 0} ⦃n : Numbers F⦄ (clock : Status F → F)
    (consume : Missile → Status F → Status F) (keeps : KeepsLoops consume) (first : Missile)
    (others : List Missile) where
  abbrev all : List Missile
  all = first ∷ others

  abbrev runs : ℕ → Bytes × Bytes → Status F → Run F
  runs k (header, rest) s = read_chunks clock consume (ammo_file all) k header rest s

  -- the reader before the missiles of a part of the file
  abbrev from : ℕ → List Missile → Status F → Run F
  from k ms s = runs k (next_header (ammo_file ms)) s

  -- back at the start of the file
  abbrev again : ℕ → Status F → Run F
  again k s =
      let (h, r) = next_header (ammo_file all) in runs k (h, r) (told clock (ammo_file all) r s)

  -- what follows a missile
  abbrev follows : ℕ → Bytes × Bytes → Status F → Run F
  follows k (header, rest) s = elim header [
    | [] ↦ next_loop s (again k)
    | c ∷ h ↦ runs k (c ∷ h, rest) (told clock (ammo_file all) rest s)
  ]

  runs-read_chunk :
      (k : ℕ) (w s rest : Bytes) (m : Missile) (st : Status F)
      → w ≢ []
      → read_chunk w s ≡ ok (chunk m rest)
      → runs (suc k) (w, s) st ≡ after (m ∷ []) (follows k (next_header rest) (consume m st))
  unfolding read_chunks
  runs-read_chunk k [] s rest m st some_byte e = absurd (some_byte refl)
  runs-read_chunk k (c ∷ w) s rest m st some_byte e = rw (read_chunks, e) refl

  follows_more :
      (k : ℕ) (w rest : Bytes) (s : Status F)
      → w ≢ []
      → follows k (w, rest) s ≡ runs k (w, rest) (told clock (ammo_file all) rest s)
  follows_more k [] rest s some_byte = absurd (some_byte refl)
  follows_more k (c ∷ w) rest s some_byte = refl

  -- One missile of the file.
  from-cons :
      (k : ℕ) (m : Missile) (ms : List Missile) (s : Status F)
      → IsAmmo m
      → from (suc k) (m ∷ ms) s
        ≡ after (m ∷ []) (follows k (next_header (ammo_file ms)) (consume m s))
  from-cons k m ms s ammo =
      ap (λ found. runs (suc k) found s) (next_header-chunk_text m (ammo_file ms) ammo)
      ∙ runs-read_chunk k (header_of m) _ _ m s (header_of-ne m)
          (read_chunk-header_of m (b'\n' ∷ ammo_file ms) ammo)
      ∙ ap (λ found. after (m ∷ []) (follows k found (consume m s)))
          (next_header_newline (ammo_file ms))

  -- What the reader yields before it has made `l` loops.
  record Going (ms : List Missile) (j l : ℕ) (r : Run F) : Type 0 where
    missiles_are : r.missiles ≡ ms ++ repeated j all
    loops_are : r.status.loop_count ≡ l
    ends : r.end ≡ loops_done

  Going-after :
      (m : Missile) (ms : List Missile) (j l : ℕ) (r : Run F)
      → Going ms j l r
      → Going (m ∷ ms) j l (after (m ∷ []) r)
  Going-after m ms j l r g = record {
    missiles_are = ap (◌∷◌ m) g.missiles_are;
    loops_are = g.loops_are;
    ends = g.ends;
  }

  Going-Looped : (j l : ℕ) (r : Run F) → Going all j l r → Looped all (suc j) l r
  Going-Looped j l r g = record {
    all_missiles = g.missiles_are;
    all_loops = g.loops_are;
    at_limit = g.ends;
  }

  Looped-Going : (j l : ℕ) (r : Run F) → Looped all j l r → Going [] j l r
  Looped-Going j l r g = record {
    missiles_are = g.all_missiles;
    loops_are = g.all_loops;
    ends = g.at_limit;
  }

  -- `enough` missiles may still be read.
  abbrev Goes : ℕ → Type 0
  Goes k =
      (m : Missile) (ms : List Missile) (j l : ℕ) (s : Status F)
      → All IsAmmo (m ∷ ms)
      → length (m ∷ ms) + length (repeated j all) ≤ k
      → s.loop_limit ≡ some (suc l)
      → s.loop_count + j ≡ l
      → Going (m ∷ ms) j (suc l) (from k (m ∷ ms) s)

  told-SameLoops : (r : Bytes) (s : Status F) → SameLoops s (told clock (ammo_file all) r s)
  told-SameLoops r s = set_af_position-SameLoops (clock s) _ s

  next_header_end : next_header (ammo_file []) ≡ ([], [])
  unfolding next_header readline
  next_header_end = refl

  follows-Going :
      (k : ℕ) (ms : List Missile) (j l : ℕ) (s : Status F)
      → Goes k
      → All IsAmmo all
      → All IsAmmo ms
      → length ms + length (repeated j all) ≤ k
      → s.loop_limit ≡ some (suc l)
      → s.loop_count + j ≡ l
      → Going ms j (suc l) (follows k (next_header (ammo_file ms)) s)
  follows-Going k [] j l s goes ammo part enough limit left =
      subst (λ found. Going [] j (suc l) (follows k found s)) (sym next_header_end)
        (Looped-Going j (suc l) _ (
          next_loop-Looped j l all s (again k) limit left (λ s' j' e limit' left'.
            let (_, r) = next_header (ammo_file all) in
            let same = told-SameLoops r s' in
            subst (λ x. Looped all x (suc l) (again k s')) (sym e)
              (Going-Looped j' (suc l) (again k s') (
                goes first others j' l (told clock (ammo_file all) r s') ammo
                  (omega (
                    arith,
                    enough,
                    ap (λ x. length (repeated x all)) e,
                    length-append all (repeated j' all),
                  ))
                  (same.1 ∙ limit') (omega (arith, same.0, left')))))))
  follows-Going k (m ∷ ms) j l s goes ammo part enough limit left =
      let (w, r) = next_header (ammo_file (m ∷ ms)) in
      let same = told-SameLoops r s in
      let found : next_header (ammo_file (m ∷ ms))
          ≡ (header_of m, m.missile ++ (b'\n' ∷ ammo_file ms)) =
        next_header-chunk_text m (ammo_file ms) part.0 in
      let some_byte : w ≢ [] = λ e. header_of-ne m (sym (ap (λ p. p.0) found) ∙ e) in
      subst (Going (m ∷ ms) j (suc l)) (sym (follows_more k w r s some_byte)) (
        goes m ms j l (told clock (ammo_file all) r s) part enough (same.1 ∙ limit)
          (omega (arith, same.0, left)))

  from-Going : (k : ℕ) → All IsAmmo all → Goes k
  from-Going zero ammo m ms j l s part enough limit left = absurd (omega (arith, enough))
  from-Going (suc k) ammo m ms j l s part enough limit left =
      let same = keeps m s in
      subst (Going (m ∷ ms) j (suc l)) (sym (from-cons k m ms s part.0)) (
        Going-after m ms j (suc l) _ (
          follows-Going k ms j l (consume m s) (from-Going k ammo) ammo part.1
            (omega (arith, enough)) (same.1 ∙ limit) (omega (arith, same.0, left))))

  -- With a limit of `suc l` loops, AmmoFileReader yields `suc l` times the missiles of a file, with
  -- their markers, and then stops with so many loops counted, if each missile has a byte and each
  -- marker is a word, the consumer counts no loops, and there are as many rounds as missiles.
  pub ammo_file_reader-Looped :
      (rounds size l : ℕ) (s : Status F)
      → All IsAmmo all
      → length (repeated (suc l) all) ≤ rounds
      → s.loop_limit ≡ some (suc l)
      → s.loop_count ≡ 0
      → Looped all (suc l) (suc l) (ammo_file_reader clock consume (ammo_file all) rounds size s)
  unfolding ammo_file_reader
  ammo_file_reader-Looped rounds size l s ammo enough limit start = Going-Looped l (suc l) _ (
      from-Going rounds ammo first others l l (record s { af_size = some size }) ammo
        (omega (arith, enough, length-append all (repeated l all))) limit (omega (arith, start)))
