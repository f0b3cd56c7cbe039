-- ===== src/OrderBook/Binance/Calls.antt =====
-- Every call of a Binance book keeps its invariant, and none raises a `RuntimeError`.
use Prim.Native.String.{String}
use text.Mathlib.Text.{◌==◌ as str_eq}
use cvf.Prelude.{
  ◌≤◌, ◌<◌, ◌≡◌, ◌≢◌, refl, ◌∙◌, ◌⊎◌, true, false, Option, none, some, List, [], ◌∷◌, ◌++◌, length,
  length-append, leb, leb→lt, inl, inr, Bool-cases, arith,
}
use cvf.Outcome.{Result, ok, raise}
use cvf.Exec.{continue, ◌>>=◌}
use cvf.Decimals.{Decimals}
use cvf.OrderBook.Base.{BookStatus, live, buffering, resync_required, BookApplyResult}
use cvf.OrderBook.Sides.{Side}
use cvf.OrderBook.Binance.{
  DepthUpdate, DepthSnapshot, Book, invalidate, begin_resync, overflow, apply_update,
}
use cvf.OrderBook.Binance.Activation.{try_activate_snapshot}
use cvf.OrderBook.Binance.Operations.{
  is_live, or_buffered, buffer_update, ingest_live, ingest, replace_bids, replace_asks, or_waiting,
  install_snapshot,
}
use cvf.OrderBook.Binance.Invariant.{
  IsParseError, IsKnown, is_old, is_broken, is_next, link_case, snapshot_side_cases,
  apply_update-Frame, apply_update_sequence,
}
use cvf.OrderBook.Binance.Activating.{IsSettled, try_activate_snapshot-Activated}

pub status_cases :
    (s : BookStatus) → (s ≡ live) × (is_live s ≡ true) ⊎ (s ≢ live) × (is_live s ≡ false)
unfolding is_live
status_cases live = inl (refl, refl)
status_cases buffering = inr ((λ e. absurd (cc)), refl)
status_cases resync_required = inr ((λ e. absurd (cc)), refl)

module _ {d : Decimals} where
  -- The invariant: the buffer is within its limit, and a live book has an empty buffer and a sequence id.
  pub record IsConsistent (b : Book d) : Type 0 where
    pub room : 0 < b.max_buffer_events
    pub bounded : length b.buffer ≤ b.max_buffer_events
    pub settled : IsSettled b

  -- A call leaves a consistent book; it may raise only for a level that does not parse.
  pub record Sound {A : Type 0} (p : Result A × Book d) : Type 0 where
    pub consistent : IsConsistent p.1
    pub parse_error : IsParseError p.0

  invalidate-IsConsistent :
      (kept : List DepthUpdate) (b : Book d)
      → IsConsistent b
      → length kept ≤ b.max_buffer_events
      → IsConsistent (invalidate kept b)
  unfolding invalidate
  invalidate-IsConsistent kept b h l = record {
    room = h.room;
    bounded = l;
    settled = record { drained = λ e. absurd (cc); sequenced = λ e. absurd (cc) };
  }

  Sound-or_buffered :
      (p : Result (Option BookApplyResult) × Book d)
      → Sound p
      → Sound (continue p.0 or_buffered p.1)
  unfolding or_buffered
  Sound-or_buffered (ok none, c) h = record { consistent = h.consistent; parse_error = tt }
  Sound-or_buffered (ok (some r), c) h = record { consistent = h.consistent; parse_error = tt }
  Sound-or_buffered (raise e, c) h = record {
    consistent = h.consistent;
    parse_error = h.parse_error;
  }

  Sound-or_waiting :
      (p : Result (Option BookApplyResult) × Book d) → Sound p → Sound (continue p.0 or_waiting p.1)
  unfolding or_waiting
  Sound-or_waiting (ok none, c) h = record { consistent = h.consistent; parse_error = tt }
  Sound-or_waiting (ok (some r), c) h = record { consistent = h.consistent; parse_error = tt }
  Sound-or_waiting (raise e, c) h = record {
    consistent = h.consistent;
    parse_error = h.parse_error;
  }

  activate-Sound :
      (b : Book d)
      → 0 < b.max_buffer_events
      → length b.buffer ≤ b.max_buffer_events
      → b.status ≢ live
      → Sound (try_activate_snapshot b)
  activate-Sound b r l w =
      let h = try_activate_snapshot-Activated b w in
      record {
        consistent = record {
          room = omega (arith, h.maximum);
          bounded = omega (arith, h.maximum, h.bounded);
          settled = h.settled;
        };
        parse_error = h.parse_error;
      }

  buffer_update-Sound :
      (u : DepthUpdate) (b : Book d) → IsConsistent b → b.status ≢ live → Sound (buffer_update u b)
  unfolding buffer_update overflow
  buffer_update-Sound u b h w = elim (Bool-cases (leb b.max_buffer_events (length b.buffer))) [
    | inl full ↦ rw full (record {
      consistent = invalidate-IsConsistent (u ∷ []) b h (omega (arith, h.room));
      parse_error = tt;
    })
    | inr open_ ↦ rw open_ (
        Sound-or_buffered (try_activate_snapshot (record b { buffer = b.buffer ++ u ∷ [] })) (
          activate-Sound _ h.room
            (omega (arith, length-append {0} b.buffer (u ∷ []), leb→lt _ _ open_)) w))
  ]

  ingest_live-Sound :
      (u : DepthUpdate) (b : Book d) → IsConsistent b → b.status ≡ live → Sound (ingest_live u b)
  unfolding ingest_live
  ingest_live-Sound u b h e = elim (link_case b.sequence_id u (h.settled.sequenced e)) [
    | is_old l ↦ rw (l, ingest_live) (record { consistent = h; parse_error = tt })
    | is_broken l ↦
        rw (l, ingest_live)
          (record {
            consistent = invalidate-IsConsistent (u ∷ []) b h (omega (arith, h.room));
            parse_error = tt;
          })
    | is_next l ↦
        rw (l, ingest_live)
          (let frame = apply_update-Frame u b in
            let c = (apply_update u b).1 in
            let keeps : IsKnown c.sequence_id → IsConsistent c = λ k. record {
              room = omega (arith, frame.maximum, h.room);
              bounded = rw (frame.buffer) (omega (arith, frame.maximum, h.bounded));
              settled = record {
                drained = λ _. frame.buffer ∙ h.settled.drained e;
                sequenced = λ _. k;
              };
            } in
            elim (apply_update_sequence u b) [
              | inl (done, s) ↦ rw done (record { consistent = keeps (rw s tt); parse_error = tt })
              | inr (failed, s) ↦
                  rw failed (record {
                    consistent = keeps (rw s (h.settled.sequenced e));
                    parse_error = refl;
                  })
            ])
  ]

  -- `ingest` of an update for the book's symbol keeps a consistent book consistent, whatever the update
  -- says; it raises only for a level that does not parse, and so never the `RuntimeError` of a live book
  -- without a sequence id.
  pub ingest-Sound :
      (upper : String → String) (u : DepthUpdate) (b : Book d)
      → IsConsistent b
      → str_eq (upper u.venue_symbol) b.venue_symbol ≡ true
      → Sound (ingest upper u b)
  unfolding ingest
  ingest-Sound upper u b h same = rw same (elim (status_cases b.status) [
    | inl (e, f) ↦ rw f (ingest_live-Sound u b h e)
    | inr (w, f) ↦ rw f (buffer_update-Sound u b h w)
  ])

  -- `begin_resync` keeps a consistent book consistent and never raises.
  pub begin_resync-Sound : (b : Book d) → IsConsistent b → Sound (begin_resync b)
  unfolding begin_resync
  begin_resync-Sound b h = record {
    consistent = invalidate-IsConsistent [] b h (omega arith);
    parse_error = tt;
  }

  waiting-Sound :
      (b : Book d)
      → IsConsistent b
      → Sound ((try_activate_snapshot >>= or_waiting) (record b { status = buffering }))
  waiting-Sound b h =
      Sound-or_waiting (try_activate_snapshot (record b { status = buffering }))
        (activate-Sound (record b { status = buffering }) h.room h.bounded (λ e. absurd (cc)))

  with_sides :
      (snapshot : DepthSnapshot) (bids asks : Side d) (b : Book d)
      → IsConsistent b
      → IsConsistent (record b {
        pending_snapshot = some snapshot;
        sequence_id = some snapshot.last_update_id;
        bids = bids;
        asks = asks;
      })
  with_sides snapshot bids asks b h = record {
    room = h.room;
    bounded = h.bounded;
    settled = record { drained = h.settled.drained; sequenced = λ _. tt };
  }

  -- `install_snapshot` keeps a consistent book consistent, whatever the snapshot says, also where it
  -- raises; it raises only for a level that does not parse.
  pub install_snapshot-Sound :
      (snapshot : DepthSnapshot) (b : Book d) → IsConsistent b → Sound (install_snapshot snapshot b)
  unfolding install_snapshot replace_bids replace_asks
  install_snapshot-Sound snapshot b h = elim (snapshot_side_cases d snapshot.bids) [
    | inr e ↦
        rw (e, replace_bids)
          (record { consistent = with_sides snapshot b.bids b.asks b h; parse_error = refl })
    | inl (bids, e) ↦ elim (snapshot_side_cases d snapshot.asks) [
      | inr f ↦
          rw (e, replace_bids)
            (rw (f, replace_asks)
              (record { consistent = with_sides snapshot bids b.asks b h; parse_error = refl }))
      | inl (asks, f) ↦
          rw (e, replace_bids)
            (rw (f, replace_asks) (waiting-Sound _ (with_sides snapshot bids asks b h)))
    ]
  ]
