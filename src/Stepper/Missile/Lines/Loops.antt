-- ===== src/Stepper/Missile/Lines/Loops.antt =====
-- The readers of lines up to the limit of loops.
use mathlib.Core.Path.{subst}
use yandex_tank.Prelude.{
  ℕ, zero, suc, ◌+◌, ◌<◌, Option, none, some, List, [], ◌∷◌, length, ◌≡◌, refl, sym, ap, ◌∙◌, arith,
}
use yandex_tank.Prelude.Result.{Result, ok}
use yandex_tank.Prelude.Bytes.{Bytes, lines}
use yandex_tank.Numbers.{Numbers}
use yandex_tank.Stepper.Status.{Status, set_af_position}
use yandex_tank.Stepper.Missile.{
  Missile, raised, Run, after, Pass, yielding, next_loop, read_lines, read_loops, read_file,
}
use yandex_tank.Prelude.{map}
use yandex_tank.Prelude.Bytes.{rstrip_newlines}
use yandex_tank.Stepper.Missile.Loops.{
  SameLoops, SameLoops-trans, KeepsLoops, set_af_position-SameLoops, Looped, Looped-after,
  next_loop-Looped,
}
use yandex_tank.Stepper.Missile.Lines.{
  on_line, on_case_line, case_of_line, line_reader, case_line_reader,
}

-- The missiles of the lines, if `missile_of` tells what a line yields.
abbrev pub missiles_of : (Bytes → Option Missile) → List Bytes → List Missile
missiles_of missile_of [] = []
missiles_of missile_of (l ∷ ls) = elim (missile_of l) [
  | none ↦ missiles_of missile_of ls
  | some m ↦ m ∷ missiles_of missile_of ls
]

-- A reader that keeps nothing new and raises nothing.
abbrev pub Reads :
    {C : Type 0} → (C → Bytes → Result (Option Missile × C)) → C → (Bytes → Option Missile) → Type 0
Reads on_line c missile_of = (l : Bytes) → on_line c l ≡ ok (missile_of l, c)

module _ {F : Type 0} ⦃n : Numbers F⦄ (clock : Status F → F)
    (consume : Missile → Status F → Status F) (keeps : KeepsLoops consume) {C : Type 0}
    (on_line : C → Bytes → Result (Option Missile × C)) (c : C)
    (missile_of : Bytes → Option Missile) (reads : Reads on_line c missile_of) where
  abbrev pass : ℕ → List Bytes → Status F → Pass F C
  pass position ls s = read_lines clock consume on_line (λ s. none) position ls c s

  -- One reading of the file.
  record Whole (ms : List Missile) (s : Status F) (p : Pass F C) : Type 0 where
    missiles_are : p.missiles ≡ ms
    keeps_on : p.kept ≡ c
    no_failure : p.failure ≡ none
    same_loops : SameLoops s p.status

  Whole-trans :
      (ms : List Missile) (s s' : Status F) (p : Pass F C)
      → SameLoops s s'
      → Whole ms s' p
      → Whole ms s p
  Whole-trans ms s s' p same w = record {
    missiles_are = w.missiles_are;
    keeps_on = w.keeps_on;
    no_failure = w.no_failure;
    same_loops = SameLoops-trans s s' p.status same w.same_loops;
  }

  Whole-yielding :
      (m : Missile) (ms : List Missile) (s : Status F) (p : Pass F C)
      → Whole ms s p
      → Whole (m ∷ ms) s (yielding m p)
  Whole-yielding m ms s p w = record {
    missiles_are = ap (◌∷◌ m) w.missiles_are;
    keeps_on = w.keeps_on;
    no_failure = w.no_failure;
    same_loops = w.same_loops;
  }

  abbrev moved : ℕ → Bytes → Status F → Status F
  moved position l s = set_af_position (clock s) (position + length l) s

  -- what a line yields
  abbrev found_in : Option Missile → ℕ → List Bytes → Status F → Pass F C
  found_in none told ls s = pass told ls s
  found_in (some m) told ls s = yielding m (pass told ls (consume m s))

  pass-found :
      (position : ℕ) (l : Bytes) (ls : List Bytes) (s : Status F) (o : Option Missile)
      → on_line c l ≡ ok (o, c)
      → pass position (l ∷ ls) s ≡ found_in o (position + length l) ls (moved position l s)
  unfolding read_lines
  pass-found position l ls s none e = rw (read_lines, e) refl
  pass-found position l ls s (some m) e = rw (read_lines, e) refl

  pass-cons :
      (position : ℕ) (l : Bytes) (ls : List Bytes) (s : Status F)
      → pass position (l ∷ ls) s
        ≡ found_in (missile_of l) (position + length l) ls (moved position l s)
  pass-cons position l ls s = pass-found position l ls s (missile_of l) (reads l)

  found_in-Whole :
      (o : Option Missile) (told : ℕ) (ls : List Bytes) (s : Status F)
      → ((s' : Status F) → Whole (missiles_of missile_of ls) s' (pass told ls s'))
      → Whole
          (elim o [ none ↦ missiles_of missile_of ls | some m ↦ m ∷ missiles_of missile_of ls ])
          s
          (found_in o told ls s)
  found_in-Whole none told ls s later = later s
  found_in-Whole (some m) told ls s later =
      let after = pass told ls (consume m s) in
      Whole-yielding m (missiles_of missile_of ls) s after
        (Whole-trans _ s (consume m s) after (keeps m s) (later (consume m s)))

  pass-Whole :
      (position : ℕ) (ls : List Bytes) (s : Status F)
      → Whole (missiles_of missile_of ls) s (pass position ls s)
  unfolding read_lines
  pass-Whole position [] s = record {
    missiles_are = refl;
    keeps_on = refl;
    no_failure = refl;
    same_loops = (refl, refl);
  }
  pass-Whole position (l ∷ ls) s =
      let s₁ = moved position l s in
      let told = position + length l in
      subst (Whole (missiles_of missile_of (l ∷ ls)) s) (sym (pass-cons position l ls s)) (
        Whole-trans _ s s₁ _ (set_af_position-SameLoops (clock s) told s)
          (found_in-Whole (missile_of l) told ls s₁ (pass-Whole told ls)))

  abbrev loops : ℕ → List Bytes → Status F → Run F
  loops rounds ls s = read_loops clock consume on_line (λ s. none) rounds ls c s

  abbrev ended : ℕ → List Bytes → Pass F C → Run F
  ended k ls p = elim p.failure [
    | some e ↦ record { missiles = p.missiles; status = p.status; end = raised e }
    | none ↦ after p.missiles (
        next_loop (set_af_position (clock p.status) 0 p.status)
          (read_loops clock consume on_line (λ s. none) k ls p.kept))
  ]

  ended-next_loop :
      (k : ℕ) (ls : List Bytes) (p : Pass F C)
      → p.failure ≡ none
      → p.kept ≡ c
      → ended k ls p
        ≡ after p.missiles (next_loop (set_af_position (clock p.status) 0 p.status) (loops k ls))
  ended-next_loop k ls p no_failure keeps_on = rw (no_failure, keeps_on) refl

  loops-suc :
      (k : ℕ) (ls : List Bytes) (s : Status F) → loops (suc k) ls s ≡ ended k ls (pass 0 ls s)
  unfolding read_loops
  loops-suc k ls s = refl

  loops-Looped :
      (m k l : ℕ) (ls : List Bytes) (s : Status F)
      → m < k
      → s.loop_limit ≡ some (suc l)
      → s.loop_count + m ≡ l
      → Looped (missiles_of missile_of ls) (suc m) (suc l) (loops k ls s)
  unfolding read_loops
  loops-Looped m zero l ls s enough limit left = absurd (omega (arith, enough))
  loops-Looped m (suc k) l ls s enough limit left =
      let p = pass 0 ls s in
      let w = pass-Whole 0 ls s in
      let ms = missiles_of missile_of ls in
      let s₁ = set_af_position (clock p.status) 0 p.status in
      let same =
        SameLoops-trans s p.status s₁ w.same_loops
          (set_af_position-SameLoops (clock p.status) 0 p.status) in
      subst (Looped ms (suc m) (suc l)) (sym (ended-next_loop k ls p w.no_failure w.keeps_on)) (
        Looped-after ms p.missiles m (suc l) _ w.missiles_are (
          next_loop-Looped m l ms s₁ (loops k ls) (same.1 ∙ limit) (omega (arith, same.0, left))
            (λ s' m' e limit' left'.
              subst (λ x. Looped ms x (suc l) (loops k ls s')) (sym e)
                (loops-Looped m' k l ls s' (omega (arith, e, enough)) limit' left'))))

missiles_of-map :
    (f : Bytes → Missile) (ls : List Bytes) → missiles_of (λ l. some (f l)) ls ≡ map f ls
missiles_of-map f [] = refl
missiles_of-map f (l ∷ ls) = ap (◌∷◌ (f l)) (missiles_of-map f ls)

abbrev pub whole_line : Bytes → Missile
whole_line line = record { missile = rstrip_newlines line; marker = none }

module _ {F : Type 0} ⦃n : Numbers F⦄ (clock : Status F → F)
    (consume : Missile → Status F → Status F) where
  -- With a limit of `suc l` loops, LineReader yields `suc l` times the lines of the file without
  -- their ends, and CaseLineReader the lines with the case before the first tab apart, if the
  -- consumer counts no loops; then each stops with so many loops counted.
  pub line_reader-Looped :
      (rounds size l : ℕ) (file : Bytes) (s : Status F)
      → KeepsLoops consume
      → s.loop_limit ≡ some (suc l)
      → s.loop_count ≡ 0
      → l < rounds
      → Looped
          (map whole_line (lines file))
          (suc l)
          (suc l)
          (line_reader clock consume rounds size file s)
        × Looped
            (map (λ line. case_of_line (rstrip_newlines line)) (lines file))
            (suc l)
            (suc l)
            (case_line_reader clock consume rounds size file s)
  unfolding line_reader case_line_reader read_file on_line on_case_line
  line_reader-Looped rounds size l file s keeps limit start enough =
      let sized = record s { af_size = some size } in
      let left : s.loop_count + l ≡ l = omega (arith, start) in
      (
        subst
            (λ ms.
              Looped ms (suc l) (suc l)
                (read_loops clock consume on_line (λ s. none) rounds (lines file) tt sized))
            (missiles_of-map whole_line (lines file))
            (loops-Looped clock consume keeps on_line tt (λ line. some (whole_line line))
              (λ line. refl) l rounds l (lines file) sized enough limit left),
        subst
            (λ ms.
              Looped ms (suc l) (suc l)
                (read_loops clock consume on_case_line (λ s. none) rounds (lines file) tt sized))
            (missiles_of-map (λ line. case_of_line (rstrip_newlines line)) (lines file))
            (loops-Looped clock consume keeps on_case_line tt
              (λ line. some (case_of_line (rstrip_newlines line))) (λ line. refl) l rounds l
              (lines file) sized enough limit left),
      )
