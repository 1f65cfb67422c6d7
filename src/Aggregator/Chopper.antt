-- ===== src/Aggregator/Chopper.antt =====
-- `TimeChopper` of aggregator/chopper.py: it cuts the frames of its sources by seconds, joins the
-- parts of a second, and passes a second on when no source can add to it. A source is the list of
-- what `next` returns before it is exhausted. Pandas has the frames: `groupby` by the index, the
-- last entry of the index, `concat` and `len` are arguments.
pub mod Cached
pub mod Rows
pub mod Emitted
pub mod Recent
pub mod Passes
pub mod Order
use yandex_tank.Prelude.{
  ℕ, zero, suc, Bool, true, false, Option, none, some, List, [], ◌∷◌, ◌++◌, length, filterb, ltb,
  leb, if◌then◌else◌,
}
use yandex_tank.Prelude.Dict.{lookup, insert, remove}

-- Data frames, as far as the code calls them.
pub record Frames : Type 1 where
  pub Frame : Type 0
  pub groupby : Frame → List (ℕ × Frame)
  pub index_last : Frame → ℕ
  pub concat : Frame → Frame → Frame
  pub len : Frame → ℕ

-- `min` of a list that has an element
abbrev pub least : ℕ → List ℕ → ℕ
least m [] = m
least m (k ∷ ks) = least (if ltb k m then k else m) ks

abbrev pub put_key : ℕ → List ℕ → List ℕ
put_key k [] = k ∷ []
put_key k (j ∷ js) = let rest = put_key k js in if leb k j then k ∷ j ∷ js else j ∷ rest

-- `sorted` of keys
abbrev pub sort_keys : List ℕ → List ℕ
sort_keys [] = []
sort_keys (k ∷ ks) = put_key k (sort_keys ks)

abbrev pub keys {ℓ} : {V : Type ℓ} → List (ℕ × V) → List ℕ
keys [] = []
keys ((k, _) ∷ d) = k ∷ keys d

-- the values of `recent_ts`
abbrev pub values : List (ℕ × ℕ) → List ℕ
values [] = []
values ((_, v) ∷ d) = v ∷ values d

abbrev pub minimum : List ℕ → ℕ
minimum [] = 0
minimum (v ∷ vs) = least v vs

module _ (P : Frames) where
  abbrev pub Cache : Type 0
  Cache = List (ℕ × P.Frame)

  -- a source with its number
  abbrev pub Source : Type 0
  Source = ℕ × List (Option P.Frame)

  -- timestamp, data, cardinality
  abbrev pub Yield : Type 0
  Yield = ℕ × P.Frame × ℕ

  pub record Chopper : Type 0 where
    pub sources : List Source
    pub recent_ts : List (ℕ × ℕ)
    pub cache : Cache

  abbrev pub numbered : ℕ → List (List (Option P.Frame)) → List Source
  numbered i [] = []
  numbered i (s ∷ ss) = (i, s) ∷ numbered (suc i) ss

  abbrev pub at_zero : List Source → List (ℕ × ℕ)
  at_zero [] = []
  at_zero ((n, _) ∷ ss) = (n, 0) ∷ at_zero ss

  -- `TimeChopper.__init__`
  unfoldable pub new_chopper : List (List (Option P.Frame)) → Chopper
  new_chopper sources =
      let ss = numbered 0 sources in record { sources = ss; recent_ts = at_zero ss; cache = [] }

  -- a group of a chunk
  unfoldable pub take_group : ℕ × P.Frame → Cache → Cache
  take_group (ts, group) cache = elim (lookup ts cache) [
    | some before ↦ insert ts (P.concat before group) cache
    | none ↦ insert ts group cache
  ]

  abbrev pub take_groups : List (ℕ × P.Frame) → Cache → Cache
  take_groups [] cache = cache
  take_groups (g ∷ gs) cache = take_groups gs (take_group g cache)

  -- a chunk of the source `n`, if there is one
  unfoldable pub take_chunk : ℕ → Option P.Frame → List (ℕ × ℕ) × Cache → List (ℕ × ℕ) × Cache
  take_chunk n none (recent, cache) = (recent, cache)
  take_chunk n (some chunk) (recent, cache) =
      (insert n (P.index_last chunk) recent, take_groups (P.groupby chunk) cache)

  -- One pass over the sources, or a part of it up to the source that is exhausted. That one is left
  -- out of the sources; `ended` is its number.
  pub record Reading : Type 0 where
    pub left : List Source
    pub recent : List (ℕ × ℕ)
    pub cached : Cache
    pub ended : Option ℕ

  abbrev pub also : Source → Reading → Reading
  also s r = record r { left = s ∷ r.left }

  unfoldable pub read_sources : List Source → List (ℕ × ℕ) × Cache → Reading
  read_sources [] (recent, cache) = record {
    left = [];
    recent = recent;
    cached = cache;
    ended = none;
  }
  read_sources ((n, []) ∷ ss) (recent, cache) = record {
    left = ss;
    recent = recent;
    cached = cache;
    ended = some n;
  }
  read_sources ((n, chunk ∷ chunks) ∷ ss) known =
      also (n, chunks) (read_sources ss (take_chunk n chunk known))

  -- `cache.pop` of each key; the keys are those of the cache
  abbrev pub pop_keys : List ℕ → Cache → List Yield × Cache
  pop_keys [] cache = ([], cache)
  pop_keys (ts ∷ later) cache = elim (lookup ts cache) [
    | none ↦ pop_keys later cache
    | some frame ↦
        let (out, rest) = pop_keys later (remove ts cache) in ((ts, frame, P.len frame) ∷ out, rest)
  ]

  -- the seconds that are ready: `ts <= min(recent_ts.values()) - 1`
  unfoldable pub emit : List (ℕ × ℕ) → Cache → List Yield × Cache
  emit recent cache =
      let m = minimum (values recent) in
      pop_keys (sort_keys (filterb (λ ts. ltb ts m) (keys cache))) cache

  -- `while self.cache`, with `__get_result`; each round takes an entry at least
  unfoldable pub drain : (rounds : ℕ) → Cache → List Yield
  drain zero cache = []
  drain (suc k) [] = []
  drain (suc k) ((ts, frame) ∷ cache) =
      let first = least ts (keys cache) in
      let (out, rest) = pop_keys (first ∷ []) ((ts, frame) ∷ cache) in out ++ drain k rest

  abbrev pub before : List Yield → List Yield × Bool → List Yield × Bool
  before out (later, done) = (out ++ later, done)

  -- A round is a pass over the sources; the loop over `range(len(self.sources))` ends with the last
  -- source.
  unfoldable pub chop_from : (rounds : ℕ) → List Source → List (ℕ × ℕ) → Cache → List Yield × Bool
  chop_from rounds [] recent cache = (drain (length cache) cache, true)
  chop_from zero (s ∷ ss) recent cache = ([], false)
  chop_from (suc k) (s ∷ ss) recent cache =
      let r = read_sources (s ∷ ss) (recent, cache) in
      elim r.ended [
        | some n ↦ chop_from k r.left (remove n r.recent) r.cached
        | none ↦
            let (out, rest) = emit r.recent r.cached in
            before out (chop_from k r.left r.recent rest)
      ]

  -- `__iter__`, and whether it came to its end in so many rounds
  unfoldable pub chop : (rounds : ℕ) → Chopper → List Yield × Bool
  chop rounds c = chop_from rounds c.sources c.recent_ts c.cache
