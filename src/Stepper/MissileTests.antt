-- ===== src/Stepper/MissileTests.antt =====
-- Small files of ammo.
use yandex_tank.Prelude.{◌≡◌, refl, none, some, List, [], ◌∷◌, ◌++◌, ◌≢◌, map, arith}
use yandex_tank.Prelude.Result.{err, index_error}
use yandex_tank.Prelude.Text.{codes, is_space, is_digit}
use yandex_tank.Prelude.Bytes.{
  Bytes, readline, read, lines, lstrip_newlines, rstrip_newlines, strip_newlines, is_str_space,
  words, int_digits, int_of, decode,
}
use yandex_tank.Numbers.Rational.{Fraction, whole, fractions}
use yandex_tank.Stepper.Status.{
  Status, new_status, set_af_position, af_percent, update_view, set_loop_count, inc_loop_count,
}
use yandex_tank.Stepper.Stpd.{
  Shot, stpd_file, finished, not_yet, stpd_file_error, read_chunk_header, read_missile,
  read_missiles, read_stpd,
}
use yandex_tank.Stepper.Stpd.RoundTrip.{loaded, read_stpd-stpd_file}
use yandex_tank.Stepper.Stpd.Ends.{read_stpd_ends}
use yandex_tank.Stepper.Missile.{Missile, read_lines, read_loops, read_file}
use yandex_tank.Stepper.Missile.Lines.{
  case_of_line, on_slow_line, slow_log_reader, line_reader, case_line_reader,
}
use yandex_tank.Stepper.Missile.Loops.{Looped}
use yandex_tank.Stepper.Missile.Lines.Loops.{whole_line, line_reader-Looped}
use yandex_tank.Stepper.Missile.AmmoFile.{ammo_file_reader}
use yandex_tank.Stepper.Missile.AmmoFile.Chunks.{ammo_file}
use yandex_tank.Stepper.Missile.AmmoFile.Loops.{ammo_file_reader-Looped}
use yandex_tank.Stepper.Missile.Uris.{on_uri_line, uri_of_line}

abbrev shots : List Shot
shots =
    record { timestamp = 0; marker = codes "case_1"; missile = codes "GET / HTTP/1.0" }
    ∷ record { timestamp = 1250; marker = []; missile = b'\n' ∷ b' ' ∷ 200 ∷ [] }
    ∷ record { timestamp = 1300; marker = codes "#7"; missile = [] }
    ∷ []

read_stpd-stpd_file_example : read_stpd (stpd_file shots) ≡ (map loaded shots, finished)
read_stpd-stpd_file_example =
    read_stpd-stpd_file shots (unfold is_str_space is_space in ground arith)

-- a size that the file does not have
abbrev cut_off : Bytes
cut_off = codes "9 0 a" ++ (b'\n' ∷ codes "GET")

cut_off_fails : read_stpd cut_off ≡ ([], stpd_file_error)
unfolding read_stpd read_chunk_header read_missile read_missiles readline decode strip_newlines
    lstrip_newlines rstrip_newlines words is_str_space is_space int_of int_digits is_digit read
cut_off_fails = refl

read_stpd_ends_example : (read_stpd cut_off).1 ≢ not_yet
read_stpd_ends_example = read_stpd_ends cut_off

abbrev twice : Status Fraction
twice = record (new_status (whole 0)) { loop_limit = some 2 }

abbrev clock : Status Fraction → Fraction
clock s = whole 1

abbrev idle : Missile → Status Fraction → Status Fraction
idle m s = s

abbrev two_lines : Bytes
two_lines = codes "a" ++ (b'\t' ∷ codes "b") ++ (b'\n' ∷ codes "c")

line_reader-Looped_example :
    Looped (map whole_line (lines two_lines)) 2 2 (line_reader clock idle 3 5 two_lines twice)
    × Looped
        (map (λ line. case_of_line (rstrip_newlines line)) (lines two_lines))
        2
        2
        (case_line_reader clock idle 3 5 two_lines twice)
line_reader-Looped_example =
    line_reader-Looped clock idle 3 5 1 two_lines twice (λ m s. (refl, refl)) refl refl
      (omega arith)

abbrev bullet : Missile
bullet = record { missile = codes "GET /"; marker = some (codes "good") }

abbrev bare : Missile
bare = record { missile = b'\n' ∷ []; marker = none }

ammo_file_reader-Looped_example :
    Looped
      (bullet ∷ bare ∷ [])
      2
      2
      (ammo_file_reader clock idle (ammo_file (bullet ∷ bare ∷ [])) 4 20 twice)
ammo_file_reader-Looped_example =
    ammo_file_reader-Looped clock idle (λ m s. (refl, refl)) bullet (bare ∷ []) 4 20 1 twice
      (unfold is_space in ground arith) (omega arith) refl refl

-- the last request of the log is not yielded: no comment ends it
abbrev slow_log : Bytes
slow_log = codes "# Time" ++ (b'\n' ∷ codes "select 1") ++ (b'\n' ∷ [])

abbrev once : Status Fraction
once = record (new_status (whole 0)) { loop_limit = some 1 }

request_lost : (slow_log_reader clock idle 2 9 slow_log once).missiles ≡ []
unfolding slow_log_reader read_file read_loops read_lines lines on_slow_line decode inc_loop_count
    set_loop_count set_af_position af_percent update_view fractions
request_lost = refl

-- a line of blanks ends UriReader
blanks_raise : on_uri_line (codes "1.1") [] (b' ' ∷ b'\n' ∷ []) ≡ err index_error
unfolding on_uri_line uri_of_line rstrip_newlines lstrip_newlines words is_space
blanks_raise = refl
