-- ===== src/OrderBook/Binance/Stream.antt =====
-- A Binance book over a whole stream of calls: every call keeps the mirror, and every call keeps the
-- book consistent.
use Prim.Native.String.{String}
use text.Mathlib.Text.{◌==◌ as str_eq}
use cvf.Prelude.{
  ◌≡◌, ◌≢◌, refl, sym, ◌∙◌, true, Option, none, some, [], ◌∷◌, ◌++◌, ℤ, leb, length, All-append,
  inl, inr, Bool-cases,
}
use cvf.Outcome.{Result}
use cvf.Exec.{continue}
use cvf.Decimals.{Decimals}
use cvf.OrderBook.Base.{live, buffering, BookApplyResult}
use cvf.OrderBook.Binance.{DepthUpdate, DepthSnapshot, Book, begin_resync, overflow, apply_update}
use cvf.OrderBook.Binance.Activation.{try_activate_snapshot}
use cvf.OrderBook.Binance.Operations.{
  or_buffered, buffer_update, ingest_live, ingest, replace_bids, replace_asks, or_waiting,
  install_snapshot,
}
use cvf.OrderBook.Binance.Invariant.{
  IsKnown, is_old, is_broken, is_next, link_case, apply_update-Frame,
}
use cvf.OrderBook.Binance.Calls.{IsConsistent, status_cases}
use cvf.OrderBook.Binance.Mirror.{Venue, IsFaithful, IsTrue, apply_update-At, follows-Covers}
use cvf.OrderBook.Binance.Mirroring.{
  moved_id, Mirrors, Mirrored, invalidate-Mirrors, try_activate_snapshot-Mirrored,
}

same_snapshot :
    (s t : DepthSnapshot) → some s ≡ some t → some s.last_update_id ≡ some t.last_update_id
same_snapshot s t h = cc

pub known_value : (o : Option ℤ) → IsKnown o → (s : ℤ) × (o ≡ some s)
known_value none k = absurd k
known_value (some s) k = (s, refl)

module _ {d : Decimals} (v : Venue d) where
  Mirrored-or_buffered :
      (p : Result (Option BookApplyResult) × Book d)
      → Mirrored v p
      → Mirrored v (continue p.0 or_buffered p.1)
  unfolding or_buffered
  Mirrored-or_buffered (r, c) h = rw (h.returns) (by_value h.value)
    where
      by_value : (o : Option BookApplyResult) → Mirrored v (or_buffered o c)
      by_value none = record { value = _; returns = refl; mirrors = h.mirrors }
      by_value (some x) = record { value = _; returns = refl; mirrors = h.mirrors }

  Mirrored-or_waiting :
      (p : Result (Option BookApplyResult) × Book d)
      → Mirrored v p
      → Mirrored v (continue p.0 or_waiting p.1)
  unfolding or_waiting
  Mirrored-or_waiting (r, c) h = rw (h.returns) (by_value h.value)
    where
      by_value : (o : Option BookApplyResult) → Mirrored v (or_waiting o c)
      by_value none = record { value = _; returns = refl; mirrors = h.mirrors }
      by_value (some x) = record { value = _; returns = refl; mirrors = h.mirrors }

  buffer_update-Mirrored :
      (u : DepthUpdate) (b : Book d)
      → IsFaithful d v u
      → b.status ≢ live
      → Mirrors v b
      → Mirrored v (buffer_update u b)
  unfolding buffer_update overflow
  buffer_update-Mirrored u b f w h = elim (Bool-cases (leb b.max_buffer_events (length b.buffer))) [
    | inl full ↦
        rw full
          (record { value = _; returns = refl; mirrors = invalidate-Mirrors v (u ∷ []) b (f, tt) })
    | inr room ↦
        let b' : Book d = record b { buffer = b.buffer ++ u ∷ [] } in
        rw room (
          Mirrored-or_buffered (try_activate_snapshot b') (
            try_activate_snapshot-Mirrored v b' w (record {
              sides = h.sides;
              waiting = h.waiting;
              settled = h.settled;
              faithful = All-append (IsFaithful d v) b.buffer (u ∷ []) h.faithful (f, tt);
            })))
  ]

  ingest_live-Mirrored :
      (u : DepthUpdate) (b : Book d) (s : ℤ)
      → IsFaithful d v u
      → b.status ≡ live
      → b.sequence_id ≡ some s
      → Mirrors v b
      → Mirrored v (ingest_live u b)
  unfolding ingest_live
  ingest_live-Mirrored u b s f e k h = elim (link_case b.sequence_id u (rw k tt)) [
    | is_old l ↦ rw (l, ingest_live) (record { value = _; returns = refl; mirrors = h })
    | is_broken l ↦
        rw (l, ingest_live)
          (record { value = _; returns = refl; mirrors = invalidate-Mirrors v (u ∷ []) b (f, tt) })
    | is_next l ↦
        let c = (apply_update u b).1 in
        let frame = apply_update-Frame u b in
        let (done, at, now) =
          apply_update-At d v u s b f (follows-Covers d s u (rw k at l)) (h.sides s k) in
        let gone : c.pending_snapshot ≡ none = frame.pending ∙ h.settled e in
        rw (l, ingest_live)
          (rw done (record {
            value = _;
            returns = refl;
            mirrors = record {
              sides = λ t q. moved_id v u.final_update_id t c (sym now ∙ q) at;
              waiting = λ snap q. absurd (cc);
              settled = λ _. gone;
              faithful = rw (frame.buffer) h.faithful;
            };
          }))
  ]

  pub ingest-Mirrored :
      (upper : String → String) (u : DepthUpdate) (b : Book d)
      → str_eq (upper u.venue_symbol) b.venue_symbol ≡ true
      → IsFaithful d v u
      → IsConsistent b
      → Mirrors v b
      → Mirrored v (ingest upper u b)
  unfolding ingest
  ingest-Mirrored upper u b same f c h = rw same (elim (status_cases b.status) [
    | inr (w, n) ↦ rw n (buffer_update-Mirrored u b f w h)
    | inl (e, l) ↦
        let (s, k) = known_value b.sequence_id (c.settled.sequenced e) in
        rw l (ingest_live-Mirrored u b s f e k h)
  ])

  pub install_snapshot-Mirrored :
      (snapshot : DepthSnapshot) (b : Book d)
      → IsTrue d v snapshot
      → Mirrors v b
      → Mirrored v (install_snapshot snapshot b)
  unfolding install_snapshot replace_bids replace_asks
  install_snapshot-Mirrored snapshot b t h =
      let b' : Book d = record b {
        pending_snapshot = some snapshot;
        sequence_id = some snapshot.last_update_id;
        bids = t.bid_side;
        asks = t.ask_side;
        status = buffering;
      } in
      rw (t.read_bids, replace_bids)
        (rw (t.read_asks, replace_asks)
          (Mirrored-or_waiting (try_activate_snapshot b') (
            try_activate_snapshot-Mirrored v b' (λ e. absurd (cc))
              (record {
                sides = λ s q. moved_id v snapshot.last_update_id s b' q (t.bids, t.asks);
                waiting = λ snap q. same_snapshot snapshot snap q;
                settled = λ e. absurd (cc);
                faithful = h.faithful;
              }))))

  pub begin_resync-Mirrored : (b : Book d) → Mirrored v (begin_resync b)
  unfolding begin_resync
  begin_resync-Mirrored b = record {
    value = _;
    returns = refl;
    mirrors = invalidate-Mirrors v [] b tt;
  }
