-- ===== src/Stepper/Writing/AmmoLimit.antt =====
-- How many missiles `write` writes under a limit of missiles.
use mathlib.Core.List.{append_assoc}
use yandex_tank.Prelude.{
  ℕ, suc, ◌+◌, ◌<◌, true, false, none, some, List, [], ◌∷◌, ◌++◌, length, ltb, ◌≡◌, ◌≢◌, refl, sym,
  ap, ◌∙◌, arith,
}
use yandex_tank.Prelude.Bytes.{Bytes}
use yandex_tank.Numbers.{Numbers, is_zero}
use yandex_tank.Stepper.Status.{Status, stop_iteration, inc_ammo_count}
use yandex_tank.Stepper.Status.Laws.{inc_ammo_count_lem}
use yandex_tank.Stepper.Writing.{
  Writer, goes_on, at_limit, Coming, after_count, write_missile, write,
}

-- The texts of missiles, one behind the other.
abbrev pub texts_of : List Coming → Bytes
texts_of [] = []
texts_of ((loops, text) ∷ cs) = text ++ texts_of cs

module _ {F : Type 0} ⦃n : Numbers F⦄ (clock : Status F → F) (free : Bytes → ℕ)
    (positive : (m : ℕ) → is_zero (n.of_ℕ (suc m)) ≡ false) where
  -- After the first loop, under a limit of l + 1 missiles.
  record IsLimited (l : ℕ) (w : Writer F) : Type 0 where
    after_first : w.first_loop_done ≡ true
    limited : w.status.ammo_limit ≡ some (suc l)
    planned : w.status.lp_len ≢ some 0

  -- A missile within the limit.
  write_missile_within :
      (l : ℕ) (c : Coming) (w : Writer F)
      → IsLimited l w
      → w.status.ammo_count < suc l
      → (w' : Writer F) × (write_missile clock free c w ≡ (w', goes_on))
        × (w'.file ≡ w.file ++ c.1)
        × (w'.status.ammo_count ≡ w.status.ammo_count + 1)
        × IsLimited l w'
  unfolding write_missile after_count
  write_missile_within l (loops, text) w h within =
      let now = record w.status { loop_count = loops } in
      let (count, limit, len, stop) =
        inc_ammo_count_lem (clock now) now l positive h.limited h.planned in
      let s = (inc_ammo_count (clock now) now).0 in
      let inside : ltb (suc l) (w.status.ammo_count + 1) ≡ false = ground (arith, within) in
      let went_on : (inc_ammo_count (clock now) now).1 ≡ none = stop ∙ rw inside refl in
      (
        record w { file = w.file ++ text; status = s },
        rw (write_missile, after_count, went_on, h.after_first) refl,
        refl,
        count,
        record {
          after_first = h.after_first;
          limited = limit;
          planned = λ e. h.planned (sym len ∙ e);
        },
      )

  -- The missile that passes the limit.
  write_missile_past :
      (l : ℕ) (c : Coming) (w : Writer F)
      → IsLimited l w
      → w.status.ammo_count ≡ suc l
      → (w' : Writer F) × (write_missile clock free c w ≡ (w', at_limit))
        × (w'.file ≡ w.file ++ c.1)
  unfolding write_missile after_count
  write_missile_past l (loops, text) w h full =
      let now = record w.status { loop_count = loops } in
      let (count, limit, len, stop) =
        inc_ammo_count_lem (clock now) now l positive h.limited h.planned in
      let s = (inc_ammo_count (clock now) now).0 in
      let over : ltb (suc l) (w.status.ammo_count + 1) ≡ true = ground (arith, full) in
      let raised : (inc_ammo_count (clock now) now).1 ≡ some stop_iteration = stop ∙ rw over refl in
      (
        record w { file = w.file ++ text; status = s },
        rw (write_missile, after_count, raised) refl,
        refl,
      )

  write_up_to :
      (l : ℕ) (within : List Coming) (c : Coming) (later : List Coming) (w : Writer F)
      → IsLimited l w
      → w.status.ammo_count + length within ≡ suc l
      → ((write clock free (within ++ (c ∷ later)) w).0.file ≡ w.file ++ (texts_of within ++ c.1))
        × ((write clock free (within ++ (c ∷ later)) w).1 ≡ goes_on)
  unfolding write
  write_up_to l [] c later w h room =
      let (w', e, file) = write_missile_past l c w h (omega (arith, room)) in
      rw (write, e) (ap (λ r. r.0.file) e ∙ file, refl)
  write_up_to l (b ∷ within) c later w h room =
      let (w', e, file, count, h') = write_missile_within l b w h (omega (arith, room)) in
      let (rest, end) = write_up_to l within c later w' h' (omega (arith, room, count)) in
      rw (write, e)
        (
          ap (λ r. (write clock free (within ++ (c ∷ later)) r.0).0.file) e
              ∙ rest
              ∙ ap (λ f. f ++ (texts_of within ++ c.1)) file
              ∙ append_assoc w.file b.1 (texts_of within ++ c.1)
              ∙ ap (λ t. w.file ++ t) (sym (append_assoc b.1 (texts_of within) c.1)),
          ap (λ r. (write clock free (within ++ (c ∷ later)) r.0).1) e ∙ end,
        )

-- Let no float of a positive integer be 0, let the first loop be over, let `ammo_limit` be L > 0, and
-- let the length of the load plan be unknown or not 0. If as many missiles come as there is room
-- for up to the limit, and then more, `write` writes those that there is room for and one more, in
-- order, whatever the disk's free space, and ends without an exception: L + 1 missiles where none
-- was counted before.
pub write-ammo_limit :
    {F : Type 0} ⦃n : Numbers F⦄ (clock : Status F → F) (free : Bytes → ℕ) (l : ℕ)
    (within : List Coming) (c : Coming) (later : List Coming) (w : Writer F)
    → ((m : ℕ) → is_zero (n.of_ℕ (suc m)) ≡ false)
    → w.first_loop_done ≡ true
    → w.status.ammo_limit ≡ some (suc l)
    → w.status.lp_len ≢ some 0
    → w.status.ammo_count + length within ≡ suc l
    → ((write clock free (within ++ (c ∷ later)) w).0.file ≡ w.file ++ (texts_of within ++ c.1))
      × ((write clock free (within ++ (c ∷ later)) w).1 ≡ goes_on)
write-ammo_limit clock free l within c later w positive done limited planned room =
    write_up_to clock free positive l within c later w
      (record { after_first = done; limited = limited; planned = planned }) room
