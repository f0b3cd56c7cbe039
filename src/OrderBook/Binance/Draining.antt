-- ===== src/OrderBook/Binance/Draining.antt =====
-- The loop of `_try_activate_snapshot` over the buffered updates, one step at a time.
use cvf.Prelude.{
  ◌≤◌, ◌≡◌, refl, ◌∙◌, ◌⊎◌, true, Option, none, some, List, [], ◌∷◌, length, inl, inr, arith,
}
use cvf.Outcome.{Result, ok, raise, normalization_error}
use cvf.Decimals.{Decimals}
use cvf.OrderBook.Base.{resync_required, sequence_gap, BookApplyResult}
use cvf.OrderBook.Binance.{
  DepthUpdate, old, broken, follows, link, Book, result, invalidate, apply_update,
}
use cvf.OrderBook.Binance.Activation.{drain}
use cvf.OrderBook.Binance.Invariant.{
  IsParseError, IsKnown, is_old, is_broken, is_next, link_case, apply_update-Frame,
  apply_update_sequence,
}

module _ {d : Decimals} where
  abbrev pub popped : List DepthUpdate → Book d → Book d
  popped rest b = record b { buffer = rest }

  pub drain_old :
      (u : DepthUpdate) (rest : List DepthUpdate) (b : Book d)
      → link b.sequence_id u ≡ old
      → drain (u ∷ rest) b ≡ drain rest (popped rest b)
  unfolding drain
  drain_old u rest b e = rw (e, drain) refl

  pub drain_broken :
      (u : DepthUpdate) (rest : List DepthUpdate) (b : Book d)
      → link b.sequence_id u ≡ broken
      → drain (u ∷ rest) b
        ≡ (ok (some (result sequence_gap true (invalidate (u ∷ rest) b))), invalidate (u ∷ rest) b)
  unfolding drain
  drain_broken u rest b e = rw (e, drain) refl

  pub drain_follows :
      (u : DepthUpdate) (rest : List DepthUpdate) (b : Book d)
      → link b.sequence_id u ≡ follows
      → (apply_update u (popped rest b)).0 ≡ ok tt
      → drain (u ∷ rest) b ≡ drain rest (apply_update u (popped rest b)).1
  unfolding drain
  drain_follows u rest b e f = rw (e, drain) (rw f refl)

  pub drain_stops :
      (u : DepthUpdate) (rest : List DepthUpdate) (b : Book d)
      → link b.sequence_id u ≡ follows
      → (apply_update u (popped rest b)).0 ≡ raise normalization_error
      → drain (u ∷ rest) b ≡ (raise normalization_error, (apply_update u (popped rest b)).1)
  unfolding drain
  drain_stops u rest b e f = rw (e, drain) (rw f refl)

  -- What the loop leaves.
  pub record Drained (us : List DepthUpdate) (b : Book d)
      (p : Result (Option BookApplyResult) × Book d) : Type 0 where
    pub maximum : p.1.max_buffer_events ≡ b.max_buffer_events
    pub bounded : length p.1.buffer ≤ length us
    pub waiting : (p.1.status ≡ b.status) ⊎ (p.1.status ≡ resync_required)
    pub at_end : p.0 ≡ ok none → (p.1.buffer ≡ []) × IsKnown p.1.sequence_id
    pub parse_error : IsParseError p.0

  Drained-cons :
      (u : DepthUpdate) (us : List DepthUpdate) (b c : Book d)
      (p : Result (Option BookApplyResult) × Book d)
      → c.max_buffer_events ≡ b.max_buffer_events
      → c.status ≡ b.status
      → Drained us c p
      → Drained (u ∷ us) b p
  Drained-cons u us b c p m s h = record {
    maximum = h.maximum ∙ m;
    bounded = omega (arith, h.bounded);
    waiting = rw s at h.waiting;
    at_end = h.at_end;
    parse_error = h.parse_error;
  }

  pub drain-Drained :
      (us : List DepthUpdate) (b : Book d)
      → b.buffer ≡ us
      → IsKnown b.sequence_id
      → Drained us b (drain us b)
  drain-Drained [] b e k =
      unfold drain in
      record {
        maximum = refl;
        bounded = rw e (omega arith);
        waiting = inl refl;
        at_end = λ _. (e, k);
        parse_error = tt;
      }
  drain-Drained (u ∷ rest) b e k = elim (link_case b.sequence_id u k) [
    | is_old l ↦ rw (drain_old u rest b l) (
        Drained-cons u rest b (popped rest b) _ refl refl
          (drain-Drained rest (popped rest b) refl k))
    | is_broken l ↦ rw (drain_broken u rest b l) (
        unfold invalidate in
        record {
          maximum = refl;
          bounded = omega arith;
          waiting = inr refl;
          at_end = λ h. absurd (cc);
          parse_error = tt;
        })
    | is_next l ↦
        let c = (apply_update u (popped rest b)).1 in
        let frame = apply_update-Frame u (popped rest b) in
        elim (apply_update_sequence u (popped rest b)) [
          | inl (done, s) ↦ rw (drain_follows u rest b l done) (
              Drained-cons u rest b c _ frame.maximum frame.status
                (drain-Drained rest c frame.buffer (rw s tt)))
          | inr (failed, s) ↦ rw (drain_stops u rest b l failed) (record {
            maximum = frame.maximum;
            bounded = rw (frame.buffer) (omega arith);
            waiting = inl frame.status;
            at_end = λ h. absurd (cc);
            parse_error = refl;
          })
        ]
  ]
