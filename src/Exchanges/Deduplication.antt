-- ===== src/Exchanges/Deduplication.antt =====
-- exchanges/deduplication.py: `BoundedTTLDeduplicator`. The `OrderedDict` is an association list in
-- its order, oldest entry first. The monotonic clock is read as a number of ticks (a `float` of
-- seconds in the source, whose rounding is not modelled); a method takes the reading as an argument.
pub mod Entries
pub mod Keys
pub mod Memory
pub mod Retention
mod Runs
use mathlib.Core.Logic.{ite}
use cvf.Prelude.{
  ℕ, zero, suc, ◌+◌, ◌≡◌, Bool, true, false, Option, none, some, List, [], ◌∷◌, ◌++◌, ℤ, pos,
  negsuc, ltb, leb, length, if◌then◌else◌,
}
use cvf.Outcome.{Result, ok, raise, value_error, ◌>>=◌}
use cvf.Time.{positive}

abbrev pub Entries : Type 0 → Type 0
Entries K = List (K × ℕ)

pub record Deduplicator (K : Type 0) : Type 0 where
  pub capacity : ℕ
  pub ttl_seconds : ℕ
  pub entries : Entries K
  pub last_now : Option ℕ

unfoldable pub init : {K : Type 0} → ℤ → ℤ → Result (Deduplicator K)
init capacity ttl_seconds = do
  c ← positive capacity
  ttl ← positive ttl_seconds
  ok (record { capacity = c; ttl_seconds = ttl; entries = []; last_now = none })

-- The time that a call goes by: its argument, or what `self._monotonic()` reads.
unfoldable pub current_time : ℕ → Option ℕ → ℕ
current_time reading none = reading
current_time reading (some now) = now

-- The test of `_validated_now`.
unfoldable pub moves_backwards : Option ℕ → ℕ → Bool
moves_backwards none current = false
moves_backwards (some last) current = ltb current last

module _ {K : Type 0} where
  unfoldable pub size : Deduplicator K → ℕ
  size d = length d.entries

  unfoldable pub clear : Deduplicator K → Deduplicator K
  clear d = record d { entries = []; last_now = none }

  unfoldable pub validated_now : Deduplicator K → ℕ → Option ℕ → Result (ℕ × Deduplicator K)
  unfolding current_time moves_backwards
  validated_now d reading now =
      let current = current_time reading now in
      if moves_backwards d.last_now current
      then raise value_error
      else ok (current, record d { last_now = some current })

  -- `now - last_seen < ttl` ends the loop; it is written without the subtraction.
  unfoldable pub expire : ℕ → ℕ → Entries K → Entries K
  expire ttl now [] = []
  expire ttl now ((identity, last_seen) ∷ rest) = elim (ltb now (last_seen + ttl)) [
    | true ↦ (identity, last_seen) ∷ rest
    | false ↦ expire ttl now rest
  ]

  -- `popitem(last=False)`.
  unfoldable pub pop_first : Entries K → Entries K
  pop_first [] = []
  pop_first (_ ∷ rest) = rest

module _ {K : Type 0} (dec : Discrete K) where
  -- `key in entries`.
  unfoldable pub contains : K → Entries K → Bool
  contains k [] = false
  contains k ((j, _) ∷ m) = ite (dec j k) true (contains k m)

  -- `entries[key] = value`: a key that is there keeps its place.
  unfoldable pub assign : K → ℕ → Entries K → Entries K
  assign k t [] = (k, t) ∷ []
  assign k t ((j, u) ∷ m) = ite (dec j k) ((j, t) ∷ m) ((j, u) ∷ assign k t m)

  -- `move_to_end(key)`.
  unfoldable pub move_to_end : K → Entries K → Entries K
  move_to_end k [] = []
  move_to_end k ((j, u) ∷ m) = ite (dec j k) (m ++ (j, u) ∷ []) ((j, u) ∷ move_to_end k m)

  unfoldable pub seen_or_add : Deduplicator K → ℕ → K → Option ℕ → Result (Deduplicator K × Bool)
  unfolding validated_now expire pop_first contains assign move_to_end
  seen_or_add d reading identity now = do
    (current, d') ← validated_now d reading now
    let live = expire d'.ttl_seconds current d'.entries
    let added = assign identity current live
    if contains identity live
        then ok (record d' { entries = move_to_end identity added }, true)
        else ok (
          record d' { entries = if ltb d'.capacity (length added) then pop_first added else added },
          false,
        )
