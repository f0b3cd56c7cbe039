-- ===== src/Exchanges/Deduplication/Runs.antt =====
-- Tests of the deduplicator, and its theorems at concrete inputs.
use native.Mathlib.Decide.{ℕ_discrete as dec}
use cvf.Prelude.{ℕ, ◌≡◌, refl, true, false, none, some, [], ◌∷◌, pos, arith}
use cvf.Outcome.{ok}
use cvf.Exchanges.Deduplication.{Deduplicator, init, contains, seen_or_add, current_time}
use cvf.Exchanges.Deduplication.Entries.{live}
use cvf.Exchanges.Deduplication.Memory.{IsValid, after, seen_or_add-after}
use cvf.Exchanges.Deduplication.Retention.{run, run-recognises}

abbrev two_seen : Deduplicator ℕ
two_seen = record {
  capacity = 2;
  ttl_seconds = 10;
  entries = (1, 3) ∷ (2, 5) ∷ [];
  last_now = some 5;
}

fresh : init {K = ℕ} (pos 2) (pos 10) ≡ ok (record two_seen { entries = []; last_now = none })
unfolding init
fresh = refl

third_evicts :
    seen_or_add dec two_seen 0 3 (some 6)
    ≡ ok (record two_seen { entries = (2, 5) ∷ (3, 6) ∷ []; last_now = some 6 }, false)
unfolding seen_or_add dec
third_evicts = refl

duplicate_moves :
    seen_or_add dec two_seen 7 1 none
    ≡ ok (record two_seen { entries = (2, 5) ∷ (1, 7) ∷ []; last_now = some 7 }, true)
unfolding seen_or_add dec
duplicate_moves = refl

two_seen-IsValid : IsValid dec two_seen
unfolding contains dec
two_seen-IsValid = record {
  capacity_positive = omega arith;
  ttl_positive = omega arith;
  bounded = omega arith;
  ascending = omega arith;
  distinct = (refl, (refl, tt));
}

seen_or_add-after_example :
    (seen_or_add dec two_seen 0 1 (some 6)
      ≡ ok (after dec two_seen 1 6, contains dec 1 (live 10 6 two_seen.entries)))
    × IsValid dec (after dec two_seen 1 6)
unfolding current_time
seen_or_add-after_example =
    seen_or_add-after dec two_seen 0 1 (some 6) two_seen-IsValid (omega arith)

run-recognises_example :
    (d : Deduplicator ℕ) × (run dec two_seen ((1, 6) ∷ (7, 8) ∷ []) ≡ ok d)
    × ((e : Deduplicator ℕ) × (seen_or_add dec d 9 1 (some 9) ≡ ok (e, true)))
run-recognises_example =
    run-recognises dec two_seen 1 6 ((7, 8) ∷ []) 9 two_seen-IsValid (omega arith) (omega arith)
      (omega arith) (omega arith)
