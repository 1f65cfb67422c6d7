-- ===== src/Stepper/Missile.antt =====
-- stepper/missile.py: the missiles and the loop that reads a file of them by lines. The clock is
-- what `time.time()` returns in a state, and `consume` what the consumer of a generator does with a
-- missile before it asks for the next one. netort opens the file: its bytes and the `data_length`
-- of its opener are arguments.
pub mod Loops
pub mod Http
pub mod Lines
pub mod Uris
pub mod AmmoFile
use yandex_tank.Prelude.{ℕ, zero, suc, ◌+◌, Option, none, some, List, [], ◌∷◌, ◌++◌, length}
use yandex_tank.Prelude.Result.{Error, Result, ok, err}
use yandex_tank.Prelude.Bytes.{Bytes, lines}
use yandex_tank.Numbers.{Numbers}
use yandex_tank.Stepper.Status.{Status, set_af_position, inc_loop_count}

pub record Missile : Type 0 where
  pub missile : Bytes
  pub marker : Option Bytes

-- How a generator ends: at the limit of loops, by an exception, or not in so many rounds.
pub data End : Type 0 where
  loops_done not_yet : End
  raised : Error → End

-- What a generator yields, the status after it, and how it ends.
pub record Run (F : Type 0) : Type 0 where
  pub missiles : List Missile
  pub status : Status F
  pub end : End

abbrev pub after : {F : Type 0} → List Missile → Run F → Run F
after ms r = record r { missiles = ms ++ r.missiles }

-- One reading of the file: what it yields, and what the reader keeps.
pub record Pass (F C : Type 0) : Type 0 where
  pub missiles : List Missile
  pub kept : C
  pub status : Status F
  pub failure : Option Error

abbrev pub yielding : {F C : Type 0} → Missile → Pass F C → Pass F C
yielding m p = record p { missiles = m ∷ p.missiles }

module _ {F : Type 0} ⦃n : Numbers F⦄ where
  -- `except LoopCountLimit: break` at the end of a loop
  abbrev pub next_loop : Status F → (Status F → Run F) → Run F
  next_loop s again =
      let (s', stop) = inc_loop_count s in
      elim stop [
        | some _ ↦ record { missiles = []; status = s'; end = loops_done }
        | none ↦ again s'
      ]

module _ {F : Type 0} ⦃n : Numbers F⦄ (clock : Status F → F)
    (consume : Missile → Status F → Status F) where
  module _ {C : Type 0} (on_line : C → Bytes → Result (Option Missile × C))
      (at_end : Status F → Option Error) where
    -- `for line in ammo_file`
    unfoldable pub read_lines : (position : ℕ) → List Bytes → C → Status F → Pass F C
    read_lines position [] c s = record { missiles = []; kept = c; status = s; failure = none }
    read_lines position (l ∷ ls) c s =
        let told = position + length l in
        let s₁ = set_af_position (clock s) told s in
        elim (on_line c l) [
          | err e ↦ record { missiles = []; kept = c; status = s₁; failure = some e }
          | ok (found, c') ↦ elim found [
            | none ↦ read_lines told ls c' s₁
            | some m ↦ yielding m (read_lines told ls c' (consume m s₁))
          ]
        ]

    -- `while True`
    unfoldable pub read_loops : (rounds : ℕ) → List Bytes → C → Status F → Run F
    read_loops zero ls c s = record { missiles = []; status = s; end = not_yet }
    read_loops (suc k) ls c s =
        let p = read_lines 0 ls c s in
        elim p.failure [
          | some e ↦ record { missiles = p.missiles; status = p.status; end = raised e }
          | none ↦ elim (at_end p.status) [
            | some e ↦ record { missiles = p.missiles; status = p.status; end = raised e }
            | none ↦
                after p.missiles
                  (next_loop (set_af_position (clock p.status) 0 p.status) (read_loops k ls p.kept))
          ]
        ]

    unfoldable pub read_file : (rounds data_length : ℕ) → Bytes → C → Status F → Run F
    read_file rounds data_length file c s =
        read_loops rounds (lines file) c (record s { af_size = some data_length })
