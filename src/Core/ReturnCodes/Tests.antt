-- ===== src/Core/ReturnCodes/Tests.antt =====
-- The return codes 0 and 7 pass.
use yandex_tank.Prelude.{[], ◌∷◌, none, some, ◌≡◌, refl}
use yandex_tank.Prelude.Int.{pos, negsuc}
use yandex_tank.Prelude.Result.{ok, err, value_error}
use yandex_tank.Prelude.Text.{codes, split}
use yandex_tank.Prelude.Bytes.{int_of}
use yandex_tank.Core.ReturnCodes.{RcAssert, new_rc_assert, configure, post_process}

abbrev asserting : RcAssert
asserting = record { ok_codes = pos 0 ∷ pos 7 ∷ []; fail_code = pos 10; errors = [] }

configured : configure (codes "0  7") none new_rc_assert ≡ ok asserting
unfolding configure split int_of
configured = refl

not_a_code : configure (codes "0 x") (some (pos 3)) new_rc_assert ≡ err value_error
unfolding configure split int_of
not_a_code = refl

passes : post_process (pos 7) asserting ≡ (asserting, pos 0)
unfolding post_process
passes = refl

fails : post_process (pos 1) asserting ≡ (record asserting { errors = pos 1 ∷ [] }, pos 10)
unfolding post_process
fails = refl

nothing_asserted : post_process (negsuc 0) new_rc_assert ≡ (new_rc_assert, negsuc 0)
unfolding post_process
nothing_asserted = refl
