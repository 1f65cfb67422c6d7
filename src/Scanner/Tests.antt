-- ===== src/Scanner/Tests.antt =====
-- Two lines and the beginning of a third, read by three chunks.
use yandex_tank.Prelude.{List, [], ◌∷◌, ◌++◌, ◌≡◌, refl}
use yandex_tank.Prelude.Text.{Text, codes, split}
use yandex_tank.Scanner.{read_lines, scan}
use yandex_tank.Scanner.Chunks.{concat, scan-split}

abbrev chunks : List Text
chunks = codes "one|t" ∷ codes "wo|" ∷ codes "thr" ∷ []

three_chunks : scan b'|' [] chunks ≡ (codes "one" ∷ codes "two" ∷ [], codes "thr")
unfolding scan read_lines split
three_chunks = refl

scan-split_example :
    (scan b'|' [] chunks).0 ++ ((scan b'|' [] chunks).1 ∷ []) ≡ split b'|' (concat chunks)
scan-split_example = scan-split b'|' chunks
