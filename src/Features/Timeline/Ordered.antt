-- ===== src/Features/Timeline/Ordered.antt =====
-- The heap of features/runtime.py: its items come out by the time of their receipt.

use cvf.Prelude.{
  ℕ, suc, ◌≤◌, ◌<◌, ◌≡◌, refl, ap, true, false, List, [], ◌∷◌, ◌++◌, All, length, Bool-cases, inl,
  inr, arith,
}
use cvf.Features.Timeline.{QueuedEvent, order, before, push_event}

module _ {P : Type 0} where
  abbrev pub Until : ℕ → QueuedEvent P → Type 0
  Until w x = x.receive_timestamp ≤ w

  abbrev pub After : ℕ → QueuedEvent P → Type 0
  After w x = w < x.receive_timestamp

  abbrev pub From : ℕ → QueuedEvent P → Type 0
  From t x = t ≤ x.receive_timestamp

  abbrev pub IsSorted : List (QueuedEvent P) → Type 0
  IsSorted [] = Unit
  IsSorted (x ∷ xs) = All (From x.receive_timestamp) xs × IsSorted xs

  pub before-From :
      (x y : QueuedEvent P) → before x y ≡ true → x.receive_timestamp ≤ y.receive_timestamp
  unfolding before order
  before-From x y h = ground arith

  pub before-Until :
      (x y : QueuedEvent P) → before x y ≡ false → y.receive_timestamp ≤ x.receive_timestamp
  unfolding before order
  before-Until x y h = ground arith

  pub All-push_event :
      (Q : QueuedEvent P → Type 0) (x : QueuedEvent P) (xs : List (QueuedEvent P))
      → Q x
      → All Q xs
      → All Q (push_event x xs)
  unfolding push_event
  All-push_event Q x [] h k = (h, tt)
  All-push_event Q x (y ∷ ys) h k = elim (Bool-cases (before x y)) [
    | inl first ↦ rw first (h, (k.0, k.1))
    | inr last ↦ rw last (k.0, All-push_event Q x ys h k.1)
  ]

  all_earlier : (a b : ℕ) (xs : List (QueuedEvent P)) → a ≤ b → All (From b) xs → All (From a) xs
  all_earlier a b [] h k = tt
  all_earlier a b (x ∷ xs) h k = let le = k.0 in (omega arith, all_earlier a b xs h k.1)

  pub push_event-IsSorted :
      (x : QueuedEvent P) (xs : List (QueuedEvent P)) → IsSorted xs → IsSorted (push_event x xs)
  unfolding push_event
  push_event-IsSorted x [] h = (tt, tt)
  push_event-IsSorted x (y ∷ ys) h = elim (Bool-cases (before x y)) [
    | inl first ↦ let le = before-From x y first in rw first ((le, all_earlier _ _ ys le h.0), h)
    | inr last ↦ rw last (
      All-push_event (From y.receive_timestamp) x ys (before-Until x y last) h.0,
      push_event-IsSorted x ys h.1,
    )
  ]

  -- An event later than some others is put behind them.
  pub push_event-append :
      (w : ℕ) (x : QueuedEvent P) (out xs : List (QueuedEvent P))
      → w < x.receive_timestamp
      → All (Until w) out
      → push_event x (out ++ xs) ≡ out ++ push_event x xs
  unfolding push_event
  push_event-append w x [] xs lt h = refl
  push_event-append w x (y ∷ out) xs lt h = elim (Bool-cases (before x y)) [
    | inl first ↦ let le = before-From x y first in let until = h.0 in absurd (omega arith)
    | inr last ↦ rw last (ap (λ l. y ∷ l) (push_event-append w x out xs lt h.1))
  ]

  pub length-push_event :
      (x : QueuedEvent P) (xs : List (QueuedEvent P)) → length (push_event x xs) ≡ suc (length xs)
  unfolding push_event
  length-push_event x [] = refl
  length-push_event x (y ∷ ys) = elim (Bool-cases (before x y)) [
    | inl first ↦ rw first refl
    | inr last ↦ rw last (ap suc (length-push_event x ys))
  ]

  pub all_after :
      (t : ℕ) (x : QueuedEvent P) (xs : List (QueuedEvent P))
      → t < x.receive_timestamp
      → All (From x.receive_timestamp) xs
      → All (After t) xs
  all_after t x [] lt h = tt
  all_after t x (y ∷ ys) lt h = let le = h.0 in (omega arith, all_after t x ys lt h.1)
