-- ===== src/Autostop/Sample.antt =====
-- What the criteria are told each second: the aggregate `data` and the gun's `stat`, with the keys
-- that aggregator/config/phout.json asks for, and what all criteria share: `count_matched_codes` of
-- common/interfaces.py, the choice between the tag and the overall part, and the parameter string.
use yandex_tank.Prelude.{
  ℕ, ◌+◌, Bool, true, false, List, [], ◌∷◌, ◌++◌, Option, none, some, ◌==◌, if◌then◌else◌,
  get_elem?, length, last?,
}
use yandex_tank.Prelude.Result.{Result, ok, index_error, value_error, require, ◌>>=◌}
use yandex_tank.Prelude.Text.{Text, codes, lookup, strip}
use yandex_tank.Numbers.{Numbers, divide}

abbrev pub Counts : Type 0
Counts = List (Text × ℕ)

-- `interval_real`: response times in microseconds. `hist_bins` are the upper edges of the bins.
pub record Interval (F : Type 0) : Type 0 where
  pub len : ℕ
  pub total : ℕ
  pub q : List F
  pub value : List F
  pub hist_data : List ℕ
  pub hist_bins : List ℕ

pub record Section (F : Type 0) : Type 0 where
  pub interval_real : Interval F
  pub proto_code : Counts
  pub net_code : Counts

pub record Data (F : Type 0) : Type 0 where
  pub ts : ℕ
  pub overall : Section F
  pub tagged : List (Text × Section F)

pub record Stat : Type 0 where
  pub instances : ℕ
  pub reqps : ℕ

abbrev pub Second : Type 0 → Type 0
Second F = Data F × Stat

-- A compiled mask, as the test `regex.fullmatch(s)`; `re.compile` may refuse the mask.
abbrev pub Regex : Type 0
Regex = Text → Bool

abbrev pub Compiler : Type 0
Compiler = Text → Option Regex

unfoldable pub count_matched_codes : Regex → Counts → ℕ
count_matched_codes regex [] = 0
count_matched_codes regex ((code, count) ∷ rest) =
    (if regex code then count else 0) + count_matched_codes regex rest

-- What `if self.tag: if data["tagged"].get(self.tag): … else: … else: …` chooses.
pub data View (F : Type 0) : Type 0 where
  overall : View F
  tagged : Section F → View F
  absent : View F

unfoldable pub view : {F : Type 0} → Option Text → Data F → View F
view none d = View.overall
view (some []) d = View.overall
view (some (c ∷ t)) d = elim (lookup (c ∷ t) d.tagged) [ none ↦ absent | some s ↦ View.tagged s ]

-- `params[k]`
abbrev pub param : List Text → ℕ → Result Text
param params k = require index_error (get_elem? params k)

-- `params[k].strip() if len(params) == k + 1 else None`
unfoldable pub tag_param : List Text → ℕ → Option Text
unfolding strip
tag_param params k =
    if length params == k + 1
    then elim (get_elem? params k) [ none ↦ none | some t ↦ some (strip t) ]
    else none

-- ` for tag …`, which an explanation ends in
unfoldable pub tag_suffix : Option Text → Text
tag_suffix none = []
tag_suffix (some []) = []
tag_suffix (some (c ∷ t)) = codes " for tag " ++ c ∷ t

-- The level of a criterion, a share if it was given with a `%`.
pub record Level (F : Type 0) : Type 0 where
  pub level : F
  pub is_relative : Bool

abbrev init_of : Text → Text
init_of [] = []
init_of (c ∷ []) = []
init_of (c ∷ d ∷ s) = c ∷ init_of (d ∷ s)

abbrev pub is_percent : Text → Bool
is_percent s = elim (last? s) [ none ↦ false | some c ↦ c == b'%' ]

abbrev pub drop_last : Text → Text
drop_last s = init_of s

module _ {F : Type 0} ⦃n : Numbers F⦄ where
  -- The level of the criteria that count over whole seconds: a share of one.
  unfoldable pub parse_share : Text → Result (Level F)
  unfolding strip
  parse_share param_str =
      let level_str = strip param_str in
      if is_percent level_str
      then require value_error (n.float_of (drop_last level_str)) >>= (λ x.
        divide x (n.of_ℕ 100) >>= λ level. ok (record { level = level; is_relative = true }))
      else require value_error (n.int_of level_str) >>= λ level.
          ok (record { level = level; is_relative = false })

  -- The level of the cumulative criteria: it stays in percent.
  unfoldable pub parse_percent : Text → Result (Level F)
  unfolding strip
  parse_percent param_str =
      let level_str = strip param_str in
      if is_percent level_str
      then require value_error (n.float_of (drop_last level_str))
        >>= (λ level. ok (record { level = level; is_relative = true }))
      else require value_error (n.int_of level_str) >>= λ level.
          ok (record { level = level; is_relative = false })

  -- `get_level_str` for the two
  unfoldable pub share_str : Level F → Text
  share_str l =
      if l.is_relative then n.str (n.mul (n.of_ℕ 100) l.level) ++ codes "%" else n.str l.level

  unfoldable pub percent_str : Level F → Text
  percent_str l = if l.is_relative then n.str l.level ++ codes "%" else n.str l.level
