-- ===== src/OrderBook/Binance/Invariant.antt =====
-- What holds of a Binance book between two calls, whatever the venue sends.
use Prim.Native.String.{String}
use cvf.Prelude.{
  ◌≡◌, refl, ap, ◌⊎◌, Option, none, some, List, [], ◌∷◌, ℤ, leb_ℤ, eqb_ℤ, if◌then◌else◌, inl, inr,
  Bool-cases, arith,
}
use cvf.Outcome.{Result, ok, raise, normalization_error}
use cvf.Dict.{assign}
use cvf.Decimals.{Decimals, Parsed, invalid, not_finite, finite, checked, decimal_from_text}
use cvf.OrderBook.Sides.{BookLevelText, Side, fill_side, snapshot_side, apply_level, apply_side}
use cvf.OrderBook.Binance.{DepthUpdate, old, broken, follows, link, Book, apply_update}

-- Only a level that does not parse makes a call raise, and never with `runtime_error`.
abbrev pub IsParseError : {A : Type 0} → Result A → Type 0
IsParseError (ok a) = Unit
IsParseError (raise e) = e ≡ normalization_error

abbrev pub IsKnown : Option ℤ → Type 0
IsKnown none = ⊥
IsKnown (some s) = Unit

-- The four cases of a link, the first only without a sequence id.
pub data LinkCase (s : Option ℤ) (u : DepthUpdate) : Type 0 where
  is_old : link s u ≡ old → LinkCase s u
  is_broken : link s u ≡ broken → LinkCase s u
  is_next : link s u ≡ follows → LinkCase s u

pub link_case : (s : Option ℤ) (u : DepthUpdate) → IsKnown s → LinkCase s u
unfolding link
link_case none u k = absurd k
link_case (some s) u k = elim (Bool-cases (leb_ℤ u.final_update_id s)) [
  | inl e ↦ is_old (rw e refl)
  | inr e ↦ elim (Bool-cases (eqb_ℤ u.previous_final_update_id s)) [
    | inl f ↦ is_next (rw e (rw f refl))
    | inr f ↦ is_broken (rw e (rw f refl))
  ]
]

module _ (d : Decimals) where
  checked-IsParseError : (p : Parsed d.Value) → IsParseError (checked p)
  checked-IsParseError invalid = refl
  checked-IsParseError not_finite = refl
  checked-IsParseError (finite v) = tt

  decimal_from_text-IsParseError : (text : String) → IsParseError (decimal_from_text d text)
  decimal_from_text-IsParseError text = checked-IsParseError (d.of_text text)

  Result-cases :
      {A : Type 0} (r : Result A)
      → IsParseError r
      → ((a : A) × (r ≡ ok a)) ⊎ (r ≡ raise normalization_error)
  Result-cases (ok a) h = inl (a, refl)
  Result-cases (raise e) h = inr (ap raise h)

  pub apply_side-IsParseError :
      (side : Side d) (levels : List BookLevelText) → IsParseError (apply_side d side levels).0
  unfolding apply_side
  apply_side-IsParseError side [] = tt
  apply_side-IsParseError side ((p, q) ∷ levels) =
      elim (Result-cases (decimal_from_text d p) (decimal_from_text-IsParseError p)) [
        | inr e ↦ rw (e, apply_side) refl
        | inl (price, e) ↦
            elim (Result-cases (decimal_from_text d q) (decimal_from_text-IsParseError q)) [
              | inr f ↦ rw (e, apply_side) (rw (f, apply_side) refl)
              | inl (quantity, f) ↦
                  rw (e, apply_side)
                    (rw (f, apply_side)
                      (apply_side-IsParseError (apply_level d side price quantity) levels))
            ]
      ]

  fill_side-IsParseError :
      (side : Side d) (levels : List BookLevelText) → IsParseError (fill_side d side levels)
  unfolding fill_side
  fill_side-IsParseError side [] = tt
  fill_side-IsParseError side ((p, q) ∷ levels) =
      elim (Result-cases (decimal_from_text d p) (decimal_from_text-IsParseError p)) [
        | inr e ↦ rw e refl
        | inl (price, e) ↦
            elim (Result-cases (decimal_from_text d q) (decimal_from_text-IsParseError q)) [
              | inr f ↦ rw e (rw f refl)
              | inl (quantity, f) ↦ rw e (
                  rw f (
                    fill_side-IsParseError
                      (if d.is_positive quantity
                        then assign d.discrete price quantity side
                        else side)
                      levels))
            ]
      ]

  pub snapshot_side_cases :
      (levels : List BookLevelText)
      → ((side : Side d) × (snapshot_side d levels ≡ ok side))
        ⊎ (snapshot_side d levels ≡ raise normalization_error)
  unfolding snapshot_side
  snapshot_side_cases levels =
      Result-cases (fill_side d [] levels) (fill_side-IsParseError [] levels)

module _ {d : Decimals} where
  -- What `apply_update` leaves alone.
  pub record Frame (b c : Book d) : Type 0 where
    pub venue : c.venue_symbol ≡ b.venue_symbol
    pub maximum : c.max_buffer_events ≡ b.max_buffer_events
    pub status : c.status ≡ b.status
    pub generation : c.generation ≡ b.generation
    pub buffer : c.buffer ≡ b.buffer
    pub pending : c.pending_snapshot ≡ b.pending_snapshot

  pub apply_update-Frame : (u : DepthUpdate) (b : Book d) → Frame b (apply_update u b).1
  unfolding apply_update
  apply_update-Frame u b = ground arith

  pub apply_update-IsParseError : (u : DepthUpdate) (b : Book d) → IsParseError (apply_update u b).0
  unfolding apply_update
  apply_update-IsParseError u b =
      elim (Result-cases d (apply_side d b.bids u.bids).0
        (apply_side-IsParseError d b.bids u.bids)) [
          | inr e ↦ rw e refl
          | inl (_, e) ↦
              rw e
                (elim (Result-cases d (apply_side d b.asks u.asks).0
                  (apply_side-IsParseError d b.asks u.asks)) [
                    | inr f ↦ rw f refl
                    | inl (_, f) ↦ rw f tt
                  ])
        ]

  -- The sequence id moves exactly if both sides are applied.
  pub apply_update_sequence :
      (u : DepthUpdate) (b : Book d)
      → ((apply_update u b).0 ≡ ok tt) × ((apply_update u b).1.sequence_id ≡ some u.final_update_id)
        ⊎ ((apply_update u b).0 ≡ raise normalization_error)
          × ((apply_update u b).1.sequence_id ≡ b.sequence_id)
  unfolding apply_update
  apply_update_sequence u b =
      elim (Result-cases d (apply_side d b.bids u.bids).0
        (apply_side-IsParseError d b.bids u.bids)) [
          | inr e ↦ rw e (inr (refl, refl))
          | inl (_, e) ↦
              rw e
                (elim (Result-cases d (apply_side d b.asks u.asks).0
                  (apply_side-IsParseError d b.asks u.asks)) [
                    | inr f ↦ rw f (inr (refl, refl))
                    | inl (_, f) ↦ rw f (inl (refl, refl))
                  ])
        ]
