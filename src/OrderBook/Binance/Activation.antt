-- ===== src/OrderBook/Binance/Activation.antt =====
-- orderbook/binance.py, `_try_activate_snapshot`: bridging a REST snapshot to the buffered diffs.

use cvf.Prelude.{
  Bool, true, false, ◌&&◌, Option, none, some, List, [], ◌∷◌, ℤ, leb_ℤ, ltb_ℤ, if◌then◌else◌,
}
use cvf.Outcome.{ok, raise, runtime_error}
use cvf.Exec.{Exec, pure, gets, modify, ◌>>=◌, ◌>>◌}
use cvf.Decimals.{Decimals}
use cvf.OrderBook.Base.{
  live, resync_required, snapshot_applied, retry_snapshot, sequence_gap, BookApplyResult,
}
use cvf.OrderBook.Binance.{
  DepthUpdate, DepthSnapshot, lost, old, broken, follows, link, Book, result, invalidate,
  apply_update,
}

-- The first `while` of `_try_activate_snapshot`.
unfoldable pub drop_before : ℤ → List DepthUpdate → List DepthUpdate
drop_before last [] = []
drop_before last (u ∷ us) = elim (ltb_ℤ u.final_update_id last) [
  | true ↦ drop_before last us
  | false ↦ u ∷ us
]

unfoldable pub overlaps : ℤ → DepthUpdate → Bool
overlaps last u = leb_ℤ u.first_update_id last && leb_ℤ last u.final_update_id

-- The `for` that finds `first_index`, with the `popleft`s up to that update: it and what follows it.
unfoldable pub from_overlap : ℤ → List DepthUpdate → Option (DepthUpdate × List DepthUpdate)
unfolding overlaps
from_overlap last [] = none
from_overlap last (u ∷ us) = if overlaps last u then some (u, us) else from_overlap last us

module _ {d : Decimals} where
  -- The second `while` of `_try_activate_snapshot`, over what the buffer still holds; each update is
  -- popped before it is looked at. `none` means that the loop ran to its end.
  unfoldable pub drain : List DepthUpdate → Exec (Book d) (Option BookApplyResult)
  unfolding invalidate result
  drain [] b = (ok none, b)
  drain (update ∷ rest) b = elim (link b.sequence_id update) [
    | lost ↦ (raise runtime_error, record b { buffer = rest })
    | old ↦ drain rest (record b { buffer = rest })
    | broken ↦ (
      ok (some (result sequence_gap true (invalidate (update ∷ rest) b))),
      invalidate (update ∷ rest) b,
    )
    | follows ↦ (apply_update update >>= λ _. drain rest) (record b { buffer = rest })
  ]

  unfoldable pub activated : Option BookApplyResult → Exec (Book d) (Option BookApplyResult)
  activated (some r) = pure (some r)
  activated none = do
    modify (λ b. record b { pending_snapshot = none; status = live })
    gets (λ b. some (result snapshot_applied false b))

  -- No buffered update overlaps the snapshot: `retry_snapshot` if the first one starts after it.
  unfoldable pub no_overlap :
      DepthSnapshot → List DepthUpdate → Exec (Book d) (Option BookApplyResult)
  no_overlap snapshot [] = pure none
  no_overlap snapshot (first ∷ _) =
      if ltb_ℤ snapshot.last_update_id first.first_update_id
      then (do
        modify (λ b. record b { status = resync_required })
        gets (λ b. some (result retry_snapshot true b)))
      else pure none

  unfoldable pub bridge :
      DepthSnapshot
      → Option (DepthUpdate × List DepthUpdate)
      → Exec (Book d) (Option BookApplyResult)
  bridge snapshot none b = no_overlap snapshot b.buffer b
  bridge snapshot (some (first, rest)) b =
      (apply_update first >>= λ _. drain rest >>= activated) (record b { buffer = rest })

  unfoldable pub try_activate : Option DepthSnapshot → Exec (Book d) (Option BookApplyResult)
  try_activate none b = (ok none, b)
  try_activate (some snapshot) b =
      let kept = drop_before snapshot.last_update_id b.buffer in
      bridge snapshot (from_overlap snapshot.last_update_id kept) (record b { buffer = kept })

  unfoldable pub try_activate_snapshot : Exec (Book d) (Option BookApplyResult)
  try_activate_snapshot b = try_activate b.pending_snapshot b
