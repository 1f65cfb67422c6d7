-- ===== src/Core/ReturnCodes.antt =====
-- The plugin RCAssert (plugins/RCAssert/plugin.py): it turns the return codes of a list into 0 and
-- all others into a code of failure.
mod Tests
use yandex_tank.Prelude.{
  Bool, true, false, List, [], ◌∷◌, ◌++◌, Option, none, some, filterb, ◌==◌, if◌then◌else◌, ltb,
}
use yandex_tank.Prelude.Int.{ℤ, pos, negsuc}
use yandex_tank.Prelude.Result.{Result, ok, ◌>>=◌, map_ok}
use yandex_tank.Prelude.Text.{Text, split, truthy}
use yandex_tank.Prelude.Bytes.{int_of}

pub record RcAssert : Type 0 where
  pub ok_codes : List ℤ
  pub fail_code : ℤ
  -- `errors`: the return codes that were changed into the code of failure
  pub errors : List ℤ

abbrev pub new_rc_assert : RcAssert
new_rc_assert = record { ok_codes = []; fail_code = pos 10; errors = [] }

abbrev pub same_code : ℤ → ℤ → Bool
same_code (pos a) (pos b) = a == b
same_code (negsuc a) (negsuc b) = a == b
same_code (pos a) (negsuc b) = false
same_code (negsuc a) (pos b) = false

-- The options `pass` and `fail_code`, none for an option that is not set.
unfoldable pub configure : (pass : Text) (fail_code : Option ℤ) → RcAssert → Result RcAssert
unfolding split int_of
configure pass fail_code plugin = map_ok int_of (filterb truthy (split 32 pass)) >>= λ codes.
    ok (record plugin {
      ok_codes = plugin.ok_codes ++ codes;
      fail_code = elim fail_code [ none ↦ plugin.fail_code | some code ↦ code ];
    })

abbrev pub has_code : ℤ → List ℤ → Bool
has_code retcode [] = false
has_code retcode (code ∷ codes) = if same_code code retcode then true else has_code retcode codes

abbrev is_above_zero : ℤ → Bool
is_above_zero (pos c) = ltb 0 c
is_above_zero (negsuc c) = false

-- The plugin, with its errors, and the new return code.
unfoldable pub post_process : ℤ → RcAssert → RcAssert × ℤ
post_process retcode plugin = elim plugin.ok_codes [
  | [] ↦ (plugin, retcode)
  | code ∷ codes ↦
      if has_code retcode (code ∷ codes)
      then (plugin, pos 0)
      else if is_above_zero plugin.fail_code
      then (record plugin { errors = plugin.errors ++ retcode ∷ [] }, plugin.fail_code)
      else (plugin, plugin.fail_code)
]
