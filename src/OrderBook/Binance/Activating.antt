-- ===== src/OrderBook/Binance/Activating.antt =====
-- `_try_activate_snapshot` as a whole: what it leaves of a book that is not live.
use cvf.Prelude.{
  ◌≤◌, ◌<◌, ◌≡◌, ◌≢◌, refl, sym, ◌∙◌, ◌⊎◌, Option, none, some, List, [], ◌∷◌, ℤ, ltb_ℤ, length, inl,
  inr, Bool-cases, arith,
}
use cvf.Outcome.{Result, ok, raise, normalization_error}
use cvf.Exec.{continue}
use cvf.Decimals.{Decimals}
use cvf.OrderBook.Base.{BookStatus, live, resync_required, BookApplyResult}
use cvf.OrderBook.Binance.{DepthUpdate, DepthSnapshot, Book, apply_update}
use cvf.OrderBook.Binance.Activation.{
  drop_before, from_overlap, drain, activated, no_overlap, bridge, try_activate,
  try_activate_snapshot,
}
use cvf.OrderBook.Binance.Invariant.{
  IsParseError, IsKnown, apply_update-Frame, apply_update_sequence,
}
use cvf.OrderBook.Binance.Draining.{Drained, popped, drain-Drained}

length-drop_before : (last : ℤ) (us : List DepthUpdate) → length (drop_before last us) ≤ length us
unfolding drop_before
length-drop_before last [] = omega arith
length-drop_before last (u ∷ us) = ground (arith, length-drop_before last us)

length-from_overlap :
    (last : ℤ) (us : List DepthUpdate) (f : DepthUpdate) (rest : List DepthUpdate)
    → from_overlap last us ≡ some (f, rest)
    → length rest < length us
unfolding from_overlap
length-from_overlap last [] f rest e = absurd (cc)
length-from_overlap last (u ∷ us) f rest e = ground (arith, length-from_overlap last us f rest)

stays_waiting : (s t : BookStatus) → s ≢ live → (t ≡ s) ⊎ (t ≡ resync_required) → t ≢ live
stays_waiting s t w (inl e) = λ h. w (sym e ∙ h)
stays_waiting s t w (inr e) = λ h. absurd (cc)

module _ {d : Decimals} where
  -- A live book has drained its buffer and knows its sequence id.
  pub record IsSettled (b : Book d) : Type 0 where
    pub drained : b.status ≡ live → b.buffer ≡ []
    pub sequenced : b.status ≡ live → IsKnown b.sequence_id

  pub record Activated {A : Type 0} (b : Book d) (p : Result A × Book d) : Type 0 where
    pub maximum : p.1.max_buffer_events ≡ b.max_buffer_events
    pub bounded : length p.1.buffer ≤ length b.buffer
    pub settled : IsSettled p.1
    pub parse_error : IsParseError p.0

  Activated-less :
      (b c : Book d) (p : Result (Option BookApplyResult) × Book d)
      → c.max_buffer_events ≡ b.max_buffer_events
      → length c.buffer ≤ length b.buffer
      → Activated c p
      → Activated b p
  Activated-less b c p m l h = record {
    maximum = h.maximum ∙ m;
    bounded = omega (arith, h.bounded);
    settled = h.settled;
    parse_error = h.parse_error;
  }

  no_overlap-Activated :
      (snapshot : DepthSnapshot) (us : List DepthUpdate) (b : Book d)
      → b.status ≢ live
      → Activated b (no_overlap snapshot us b)
  unfolding no_overlap
  no_overlap-Activated snapshot [] b w = record {
    maximum = refl;
    bounded = omega arith;
    settled = record { drained = λ e. absurd (w e); sequenced = λ e. absurd (w e) };
    parse_error = tt;
  }
  no_overlap-Activated snapshot (u ∷ us) b w =
      elim (Bool-cases (ltb_ℤ snapshot.last_update_id u.first_update_id)) [
        | inl e ↦ rw e (record {
          maximum = refl;
          bounded = omega arith;
          settled = record { drained = λ h. absurd (cc); sequenced = λ h. absurd (cc) };
          parse_error = tt;
        })
        | inr e ↦ rw e (record {
          maximum = refl;
          bounded = omega arith;
          settled = record { drained = λ h. absurd (w h); sequenced = λ h. absurd (w h) };
          parse_error = tt;
        })
      ]

  not_live-Activated :
      {A : Type 0} (b c : Book d) (r : Result A)
      → c.max_buffer_events ≡ b.max_buffer_events
      → length c.buffer ≤ length b.buffer
      → c.status ≢ live
      → IsParseError r
      → Activated b (r, c)
  not_live-Activated b c r m l w e = record {
    maximum = m;
    bounded = l;
    settled = record { drained = λ h. absurd (w h); sequenced = λ h. absurd (w h) };
    parse_error = e;
  }

  -- The end of the loop, by its result.
  finish-Activated :
      (us : List DepthUpdate) (b : Book d) (r : Result (Option BookApplyResult)) (c : Book d)
      → b.status ≢ live
      → length us ≤ length b.buffer
      → Drained us b (r, c)
      → Activated b (continue r activated c)
  unfolding activated
  finish-Activated us b (ok none) c w l h =
      let (empty, known) = h.at_end refl in
      record {
        maximum = h.maximum;
        bounded = omega (arith, h.bounded);
        settled = record { drained = λ _. empty; sequenced = λ _. known };
        parse_error = tt;
      }
  finish-Activated us b (ok (some x)) c w l h =
      not_live-Activated b c (ok (some x)) h.maximum (omega (arith, h.bounded))
        (stays_waiting b.status c.status w h.waiting) tt
  finish-Activated us b (raise e) c w l h =
      not_live-Activated b c (raise e) h.maximum (omega (arith, h.bounded))
        (stays_waiting b.status c.status w h.waiting) h.parse_error

  bridge-Activated :
      (snapshot : DepthSnapshot) (o : Option (DepthUpdate × List DepthUpdate)) (b : Book d)
      → b.status ≢ live
      → ((f : DepthUpdate) (rest : List DepthUpdate)
          → o ≡ some (f, rest)
          → length rest ≤ length b.buffer)
      → Activated b (bridge snapshot o b)
  unfolding bridge
  bridge-Activated snapshot none b w l = no_overlap-Activated snapshot b.buffer b w
  bridge-Activated snapshot (some (f, rest)) b w l =
      let b' = popped rest b in
      let c = (apply_update f b').1 in
      let frame = apply_update-Frame f b' in
      let w' : c.status ≢ live = λ h. w (sym frame.status ∙ h) in
      elim (apply_update_sequence f b') [
        | inl (done, s) ↦
            let h = drain-Drained rest c frame.buffer (rw s tt) in
            rw done (
              Activated-less b c _ frame.maximum (rw (frame.buffer) (l f rest refl)) (
                finish-Activated rest c (drain rest c).0 (drain rest c).1 w'
                  (rw (frame.buffer) (omega arith)) h))
        | inr (failed, s) ↦ rw failed (
            not_live-Activated b c (raise normalization_error) frame.maximum
              (rw (frame.buffer) (l f rest refl)) w' refl)
      ]

  pub try_activate_snapshot-Activated :
      (b : Book d) → b.status ≢ live → Activated b (try_activate_snapshot b)
  unfolding try_activate_snapshot try_activate
  try_activate_snapshot-Activated b w = try_with b.pending_snapshot
    where
      try_with : (o : Option DepthSnapshot) → Activated b (try_activate o b)
      try_with none = not_live-Activated b b (ok none) refl (omega arith) w tt
      try_with (some snapshot) =
          let kept = drop_before snapshot.last_update_id b.buffer in
          let b' = popped kept b in
          Activated-less b b' _ refl (length-drop_before snapshot.last_update_id b.buffer) (
            bridge-Activated snapshot (from_overlap snapshot.last_update_id kept) b' w (λ f rest e.
              omega (arith, length-from_overlap snapshot.last_update_id kept f rest e)))
