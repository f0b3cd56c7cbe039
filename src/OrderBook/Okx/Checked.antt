-- ===== src/OrderBook/Okx/Checked.antt =====
-- What a live OKX book has been checked for.
use Prim.Native.String.{String}
use cvf.Prelude.{
  ℕ, ◌≡◌, ◌≢◌, refl, true, Option, none, some, ℤ, pos, eqb_ℤ, eqb_ℤ→eq, inl, inr, Bool-cases,
}
use cvf.Outcome.{Result, ok, raise_not_ok, Result-cases}
use cvf.Decimals.{Decimals}
use cvf.OrderBook.Base.{
  BookStatus, BookTransition, snapshot_applied, update_applied, live, buffering, resync_required,
  BookApplyResult,
}
use cvf.OrderBook.Okx.{
  OkxBookData, Action, snapshot, update, raw_side, apply_raw_side, checksum_from_sides, OkxBook,
  invalidate, checksum_valid, checksum_failure, accept_if_valid, replace_bids, replace_asks,
  apply_bids, apply_asks, ingest_snapshot, apply_update, ingest_update, ingest,
}

module _ {d : Decimals} (crc32 : String → ℕ) where
  -- A book that a message left live has that message's sequence id and passes its checksum.
  abbrev pub IsChecked : OkxBookData → OkxBook d → Type 0
  IsChecked message b =
      (b.sequence_id ≡ some message.sequence_id) × (checksum_valid crc32 message.checksum b ≡ true)

  -- A continuation that leaves a live book only if it is checked.
  abbrev LeavesChecked : OkxBookData → Result BookApplyResult × OkxBook d → Type 0
  LeavesChecked message p =
      (r : BookApplyResult) → p.0 ≡ ok r → p.1.status ≡ live → IsChecked message p.1

  failure-LeavesChecked :
      (message : OkxBookData) (b : OkxBook d) → LeavesChecked message (checksum_failure crc32 b)
  unfolding checksum_failure invalidate
  failure-LeavesChecked message b r e l = absurd (cc)

  snapshot-LeavesChecked :
      (message : OkxBookData) (t : BookTransition) (b : OkxBook d)
      → b.sequence_id ≡ some message.sequence_id
      → LeavesChecked message
          (accept_if_valid crc32 message.checksum t (λ b'. record b' { status = live }) b)
  unfolding accept_if_valid checksum_valid
  snapshot-LeavesChecked message t b k =
      elim (Bool-cases (checksum_valid crc32 message.checksum b)) [
        | inl e ↦ rw e (λ r q l. (k, e))
        | inr e ↦ rw e (failure-LeavesChecked message b)
      ]

  update-LeavesChecked :
      (message : OkxBookData) (t : BookTransition) (b : OkxBook d)
      → b.sequence_id ≡ some message.sequence_id
      → LeavesChecked message (accept_if_valid crc32 message.checksum t (λ b'. b') b)
  unfolding accept_if_valid
  update-LeavesChecked message t b k = elim (Bool-cases (checksum_valid crc32 message.checksum b)) [
    | inl e ↦ rw e (λ r q l. (k, e))
    | inr e ↦ rw e (failure-LeavesChecked message b)
  ]

  ingest_snapshot-LeavesChecked :
      (message : OkxBookData) (b : OkxBook d)
      → LeavesChecked message (ingest_snapshot crc32 message b)
  unfolding ingest_snapshot replace_bids replace_asks
  ingest_snapshot-LeavesChecked message b = elim (Result-cases (raw_side d message.bids)) [
    | inr (x, e) ↦ rw (e, replace_bids) (λ r q l. absurd (raise_not_ok q))
    | inl (bids, e) ↦ elim (Result-cases (raw_side d message.asks)) [
      | inr (x, f) ↦ rw (e, replace_bids) (rw (f, replace_asks) (λ r q l. absurd (raise_not_ok q)))
      | inl (asks, f) ↦
          rw (e, replace_bids)
            (rw (f, replace_asks) (snapshot-LeavesChecked message snapshot_applied _ refl))
    ]
  ]

  apply_update-LeavesChecked :
      (message : OkxBookData) (b : OkxBook d) → LeavesChecked message (apply_update crc32 message b)
  unfolding apply_update apply_bids apply_asks
  apply_update-LeavesChecked message b =
      elim (Result-cases (apply_raw_side d b.bids message.bids).0) [
        | inr (x, e) ↦ rw e (λ r q l. absurd (raise_not_ok q))
        | inl (_, e) ↦ rw e (elim (Result-cases (apply_raw_side d b.asks message.asks).0) [
          | inr (x, f) ↦ rw f (λ r q l. absurd (raise_not_ok q))
          | inl (_, f) ↦ rw f (update-LeavesChecked message update_applied _ refl)
        ])
      ]

  ingest_update-LeavesChecked :
      (s : BookStatus) (o : Option ℤ) (message : OkxBookData) (b : OkxBook d)
      → LeavesChecked message (ingest_update crc32 s o message b)
  unfolding ingest_update
  ingest_update-LeavesChecked live (some k) message b =
      elim (Bool-cases (eqb_ℤ message.previous_sequence_id k)) [
        | inl e ↦ rw e (apply_update-LeavesChecked message b)
        | inr e ↦ rw e (unfold invalidate in λ r q l. absurd (cc))
      ]
  ingest_update-LeavesChecked live none message b = λ r q l. absurd (cc)
  ingest_update-LeavesChecked buffering o message b = λ r q l. absurd (cc)
  ingest_update-LeavesChecked resync_required o message b = λ r q l. absurd (cc)

  checksum_valid-eq :
      (checksum : ℤ) (b : OkxBook d)
      → checksum_valid crc32 checksum b ≡ true
      → b.validate_nonzero_checksum ≡ true
      → checksum ≢ pos 0
      → checksum_from_sides d crc32 b.bids b.asks ≡ checksum
  unfolding checksum_valid
  checksum_valid-eq checksum b h v n = elim (Bool-cases (eqb_ℤ checksum (pos 0))) [
    | inl e ↦ absurd (n (eqb_ℤ→eq checksum (pos 0) e))
    | inr e ↦ eqb_ℤ→eq _ _ (rw (e, v) at h)
  ]

  -- A message of either kind, taken in any state of the book, that returns and leaves the book live:
  -- the book has the message's sequence id, and, if it validates checksums and the message's is not 0,
  -- the checksum of the sides that it then holds is the message's.
  pub ingest-checksum :
      (action : Action) (message : OkxBookData) (b : OkxBook d) (r : BookApplyResult)
      → (ingest crc32 action message b).0 ≡ ok r
      → (ingest crc32 action message b).1.status ≡ live
      → ((ingest crc32 action message b).1.sequence_id ≡ some message.sequence_id)
        × ((ingest crc32 action message b).1.validate_nonzero_checksum ≡ true
            → message.checksum ≢ pos 0
            → checksum_from_sides d crc32
                (ingest crc32 action message b).1.bids
                (ingest crc32 action message b).1.asks
              ≡ message.checksum)
  unfolding ingest
  ingest-checksum snapshot message b r e l =
      let (k, h) = ingest_snapshot-LeavesChecked message b r e l in
      (k, checksum_valid-eq message.checksum _ h)
  ingest-checksum update message b r e l =
      let (k, h) = ingest_update-LeavesChecked b.status b.sequence_id message b r e l in
      (k, checksum_valid-eq message.checksum _ h)
