-- ===== src/Stepper/Writing/Limit.antt =====
-- The limit that `write` sets after the first loop.
use yandex_tank.Prelude.{
  ℕ, ◌+◌, ◌*◌, Bool, true, false, not, Option, none, some, List, [], ◌∷◌, ◌++◌, map, length, ltb,
  ◌==◌, if◌then◌else◌, ◌≡◌, refl, ap, ◌∙◌, inl, inr, Bool-cases, arith,
}
use yandex_tank.Prelude.Result.{ok}
use yandex_tank.Prelude.Bytes.{Bytes}
use yandex_tank.Numbers.{Numbers}
use yandex_tank.Stepper.Status.{
  Status, Stop, stop_iteration, limits, smaller, max_ammo, update_view, calculate_lp_progress,
  update_lp_progress, set_ammo_count, inc_ammo_count,
}
use yandex_tank.Stepper.Writing.{
  Writer, Verdict, goes_on, at_limit, disk_limit_error, raises, set_limit, first_loop, Coming,
  after_count, write_missile, write,
}

-- No limit but that of loops: neither a limit of missiles nor a plan of a known length.
record Unlimited {F : Type 0} (l count : ℕ) (s : Status F) : Type 0 where
  no_ammo_limit : s.ammo_limit ≡ none
  no_plan : s.lp_len ≡ none
  loops : s.loop_limit ≡ some l
  counted : s.ammo_count ≡ count

module _ {F : Type 0} ⦃n : Numbers F⦄ where
  max_ammo-Unlimited : (l count : ℕ) (s : Status F) → Unlimited l count s → max_ammo s ≡ none
  unfolding max_ammo
  max_ammo-Unlimited l count s u = λ i. smaller (u.no_ammo_limit i) (u.no_plan i)

  -- the progress and the view, which touch no limit
  shown :
      (now : F) (l count : ℕ) (s : Status F)
      → Unlimited l count s
      → (s' : Status F) × (update_lp_progress now s ≡ ok s')
        × Unlimited l count s'
        × (s'.loop_count ≡ s.loop_count)
  unfolding update_lp_progress update_view calculate_lp_progress
  shown now l count s u =
      let share : calculate_lp_progress s ≡ ok (n.of_ℕ 1) =
        rw (calculate_lp_progress, max_ammo-Unlimited l count s u) refl in
      let percent = n.trunc (n.mul (n.of_ℕ 1) (n.of_ℕ 100)) in
      elim (Bool-cases (s.lp_progress == percent)) [
        | inl same ↦ (s, rw (share, same) refl, u, refl)
        | inr other ↦ (
          update_view now (record s { lp_progress = percent }),
          rw (share, other) refl,
          record {
            no_ammo_limit = u.no_ammo_limit;
            no_plan = u.no_plan;
            loops = u.loops;
            counted = u.counted;
          },
          refl,
        )
      ]

  inc_ammo_count-Unlimited :
      (now : F) (l count : ℕ) (s : Status F)
      → Unlimited l count s
      → (s' : Status F) × (inc_ammo_count now s ≡ (s', none))
        × Unlimited l (count + 1) s'
        × (s'.loop_count ≡ s.loop_count)
  unfolding inc_ammo_count set_ammo_count
  inc_ammo_count-Unlimited now l count s u =
      let counted = record s { ammo_count = s.ammo_count + 1 } in
      let (s', e, u', same) = shown now l (count + 1) counted (record {
        no_ammo_limit = u.no_ammo_limit;
        no_plan = u.no_plan;
        loops = u.loops;
        counted = ap (λ c. c + 1) u.counted;
      }) in
      let stop : Option ℕ → Option Stop =
        λ o. if limits o (λ m. ltb m (s.ammo_count + 1)) then some stop_iteration else none in
      (s', rw (set_ammo_count, e) (ap (λ o. (s', stop o)) u'.no_ammo_limit), u', same)

-- Missiles that come before the end of the first loop.
abbrev pub in_first_loop : List Bytes → List Coming
in_first_loop texts = map (λ text. (0, text)) texts

stays :
    {A : Type 0} (done : Bool) (c : ℕ) (x y : A)
    → c ≡ 0
    → (if not done then (if c == 1 then x else y) else y) ≡ y
stays true c x y e = refl
stays false c x y e = rw e refl

enters :
    {A : Type 0} (done : Bool) (c : ℕ) (x y : A)
    → done ≡ false
    → c ≡ 1
    → (if not done then (if c == 1 then x else y) else y) ≡ x
enters done c x y d e = rw (d, e) refl

module _ {F : Type 0} ⦃n : Numbers F⦄ (clock : Status F → F) (free : Bytes → ℕ) where
  -- A writer in its first loop, after so many missiles.
  record Begun (l count : ℕ) (w : Writer F) : Type 0 where
    not_done : w.first_loop_done ≡ false
    unlimited : Unlimited l count w.status

  set_limit-Unlimited :
      (l count : ℕ) (s : Status F)
      → Unlimited l count s
      → set_limit clock free s ≡ ok (record s { ammo_limit = some (l * s.ammo_count) })
  unfolding set_limit
  set_limit-Unlimited l count s u = simp (set_limit, max_ammo-Unlimited l count s u, u.loops)

  first_loop-Unlimited :
      (l count : ℕ) (w : Writer F)
      → Unlimited l count w.status
      → (first_loop clock free w).0.status.ammo_limit ≡ some (l * count)
  unfolding first_loop
  first_loop-Unlimited l count w u =
      rw (first_loop, set_limit-Unlimited l count w.status u) (ap (λ c. some (l * c)) u.counted)

  abbrev counting : ℕ → Writer F → Status F
  counting loops w = record w.status { loop_count = loops }

  -- A missile that comes after so many loops is counted.
  count_missile :
      (l count loops : ℕ) (w : Writer F)
      → Begun l count w
      → (s' : Status F) × (inc_ammo_count (clock (counting loops w)) (counting loops w)
          ≡ (s', none))
        × Unlimited l (count + 1) s'
        × (s'.loop_count ≡ loops)
  count_missile l count loops w b =
      inc_ammo_count-Unlimited (clock (counting loops w)) l count (counting loops w) (record {
        no_ammo_limit = b.unlimited.no_ammo_limit;
        no_plan = b.unlimited.no_plan;
        loops = b.unlimited.loops;
        counted = b.unlimited.counted;
      })

  -- A missile of the first loop.
  write_missile-Begun :
      (l count : ℕ) (text : Bytes) (w : Writer F)
      → Begun l count w
      → (w' : Writer F) × (write_missile clock free (0, text) w ≡ (w', goes_on))
        × Begun l (count + 1) w'
  unfolding write_missile after_count
  write_missile-Begun l count text w b =
      let (s', e, u', same) = count_missile l count 0 w b in
      let w' = record w { file = w.file ++ text; status = s' } in
      (
        w',
        ap (after_count clock free text w) e
            ∙ stays w.first_loop_done s'.loop_count (first_loop clock free w') (w', goes_on) same,
        record { not_done = b.not_done; unlimited = u' },
      )

  -- The missile after the first loop.
  write_missile-first_loop :
      (l count : ℕ) (text : Bytes) (w : Writer F)
      → Begun l count w
      → (write_missile clock free (1, text) w).0.status.ammo_limit ≡ some (l * (count + 1))
  unfolding write_missile after_count first_loop set_limit
  write_missile-first_loop l count text w b =
      let (s', e, u', same) = count_missile l count 1 w b in
      let w' = record w { file = w.file ++ text; status = s' } in
      ap (λ r. r.0.status.ammo_limit)
        (ap (after_count clock free text w) e
          ∙ enters w.first_loop_done s'.loop_count (first_loop clock free w') (w', goes_on)
              b.not_done same)
      ∙ first_loop-Unlimited l (count + 1) w' u'

  -- what `write` does after a missile
  abbrev next : List Coming → Writer F × Verdict → Writer F × Verdict
  next cs (w, verdict) = elim verdict [
    | goes_on ↦ write clock free cs w
    | at_limit ↦ (w, goes_on)
    | disk_limit_error ↦ (w, disk_limit_error)
    | raises e ↦ (w, raises e)
  ]

  next_last : (r : Writer F × Verdict) → (next [] r).0 ≡ r.0
  unfolding write
  next_last (w, goes_on) = refl
  next_last (w, at_limit) = refl
  next_last (w, disk_limit_error) = refl
  next_last (w, raises e) = refl

  write-Begun :
      (l count : ℕ) (texts : List Bytes) (text : Bytes) (w : Writer F)
      → Begun l count w
      → (write clock free (in_first_loop texts ++ (1, text) ∷ []) w).0.status.ammo_limit
        ≡ some (l * (count + length texts + 1))
  unfolding write
  write-Begun l count [] text w b =
      ap (λ w. w.status.ammo_limit) (next_last (write_missile clock free (1, text) w))
      ∙ write_missile-first_loop l count text w b
      ∙ ap (λ c. some (l * c)) (omega arith)
  write-Begun l count (t ∷ texts) text w b =
      let (w', e, b') = write_missile-Begun l count t w b in
      let cs = in_first_loop texts ++ (1, text) ∷ [] in
      ap (λ r. (next cs r).0.status.ammo_limit) e
      ∙ write-Begun l (count + 1) texts text w' b'
      ∙ ap (λ c. some (l * c)) (omega arith)

  -- When a limit of `l` loops is the only one, and the reader has made its first loop after the
  -- missiles `texts`, the limit of missiles that `write` sets is `l` times one missile more than
  -- the loop has: the first missile of the second loop is counted too.
  pub write_first_loop :
      (l : ℕ) (texts : List Bytes) (text : Bytes) (w : Writer F)
      → w.first_loop_done ≡ false
      → w.status.ammo_limit ≡ none
      → w.status.lp_len ≡ none
      → w.status.loop_limit ≡ some l
      → w.status.ammo_count ≡ 0
      → (write clock free (in_first_loop texts ++ (1, text) ∷ []) w).0.status.ammo_limit
        ≡ some (l * (length texts + 1))
  write_first_loop l texts text w not_done no_limit no_plan loops none_yet =
      write-Begun l 0 texts text w (record {
        not_done = not_done;
        unlimited = record {
          no_ammo_limit = no_limit;
          no_plan = no_plan;
          loops = loops;
          counted = none_yet;
        };
      })
      ∙ ap (λ c. some (l * c)) (omega arith)
