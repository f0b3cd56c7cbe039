-- ===== src/OrderBook/Binance/Reached.antt =====
-- The Binance books that a constructor and any sequence of calls lead to.
use Prim.Native.String.{String}
use text.Mathlib.Text.{◌==◌ as str_eq}
use cvf.Prelude.{
  ℕ, ◌≤◌, ltb, ltb→le, ◌≡◌, ◌≢◌, refl, sym, some, List, [], ◌∷◌, ℤ, All, inl, inr, Bool-cases,
  arith,
}
use cvf.Outcome.{ok_injective, raise_not_ok, bind_ok, Result, ok, raise, runtime_error}
use cvf.Exec.{Exec}
use cvf.Decimals.{Decimals}
use cvf.Exchanges.Symbols.{Texts, binance, default_symbol_map, to_canonical_symbol}
use cvf.OrderBook.Base.{live, BookApplyResult}
use cvf.OrderBook.Binance.{DepthUpdate, DepthSnapshot, Book, begin_resync}
use cvf.OrderBook.Binance.Operations.{new_book, init, ingest, install_snapshot}
use cvf.OrderBook.Binance.Invariant.{IsParseError}
use cvf.OrderBook.Binance.Calls.{
  IsConsistent, ingest-Sound, begin_resync-Sound, install_snapshot-Sound,
}
use cvf.OrderBook.Binance.Mirror.{Venue, IsFaithful, IsTrue, At}
use cvf.OrderBook.Binance.Mirroring.{Mirrors}
use cvf.OrderBook.Binance.Stream.{
  known_value, ingest-Mirrored, install_snapshot-Mirrored, begin_resync-Mirrored,
}

-- The calls that change a book.
pub data Call : Type 0 where
  an_update : DepthUpdate → Call
  a_snapshot : DepthSnapshot → Call
  a_resync : Call

not_runtime_error : {A : Type 0} (r : Result A) → IsParseError r → r ≢ raise runtime_error
not_runtime_error (ok a) h = λ e. absurd (cc)
not_runtime_error (raise e) h = λ q. absurd (cc)

module _ {d : Decimals} (texts : Texts) where
  unfoldable pub call : Call → Exec (Book d) BookApplyResult
  call (an_update u) = ingest texts.upper u
  call (a_snapshot s) = install_snapshot s
  call a_resync = begin_resync

  -- The book after some calls; one that raises does not stop the next.
  abbrev pub after : List Call → Book d → Book d
  after [] b = b
  after (c ∷ cs) b = after cs (call c b).1

  -- A call keeps a consistent book consistent and does not raise a `RuntimeError`.
  call-IsConsistent :
      (c : Call) (b : Book d)
      → IsConsistent b
      → IsConsistent (call c b).1 × ((call c b).0 ≢ raise runtime_error)
  unfolding call
  call-IsConsistent (an_update u) b h =
      elim (Bool-cases (str_eq (texts.upper u.venue_symbol) b.venue_symbol)) [
        | inl same ↦
            let s = ingest-Sound texts.upper u b h same in
            (s.consistent, not_runtime_error _ s.parse_error)
        | inr other ↦ unfold ingest in rw other (h, λ e. absurd (cc))
      ]
  call-IsConsistent (a_snapshot s) b h =
      let k = install_snapshot-Sound s b h in (k.consistent, not_runtime_error _ k.parse_error)
  call-IsConsistent a_resync b h =
      let k = begin_resync-Sound b h in (k.consistent, not_runtime_error _ k.parse_error)

  after-IsConsistent : (cs : List Call) (b : Book d) → IsConsistent b → IsConsistent (after cs b)
  after-IsConsistent [] b h = h
  after-IsConsistent (c ∷ cs) b h = after-IsConsistent cs (call c b).1 (call-IsConsistent c b h).0

  -- A book as the constructor leaves it, its limit positive.
  abbrev pub IsNew : Book d → Type 0
  IsNew b =
      (symbol canonical : String) × (limit : ℕ) × (1 ≤ limit)
      × (b ≡ new_book d symbol limit canonical)

  init-IsNew :
      (symbol : String) (limit : ℕ) (b : Book d) → init d texts symbol limit ≡ ok b → IsNew b
  unfolding init
  init-IsNew symbol limit b e = elim (Bool-cases (ltb limit 1)) [
    | inl small ↦ absurd (raise_not_ok (rw small at e))
    | inr large ↦
        let (canonical, _, q) =
          bind_ok (to_canonical_symbol texts default_symbol_map binance (texts.upper symbol))
            (λ canonical. ok (new_book d (texts.upper symbol) limit canonical)) b (rw large at e) in
        (texts.upper symbol, canonical, limit, ltb→le limit 1 large, sym (ok_injective q))
  ]

  new_book-IsConsistent : (b : Book d) → IsNew b → IsConsistent b
  new_book-IsConsistent b (symbol, canonical, limit, l, e) =
      unfold new_book in
      rw e (record {
        room = omega (arith, l);
        bounded = omega (arith, l);
        settled = record { drained = λ _. refl; sequenced = λ q. absurd (cc) };
      })

  -- Whatever calls a constructed book has taken, its buffer is within its limit and a live book has an
  -- empty buffer and a sequence id; the next call raises no `RuntimeError`, whatever it is.
  pub after-call :
      (symbol : String) (limit : ℕ) (b : Book d) (cs : List Call) (c : Call)
      → init d texts symbol limit ≡ ok b
      → IsConsistent (after cs b) × ((call c (after cs b)).0 ≢ raise runtime_error)
  after-call symbol limit b cs c e =
      let h = after-IsConsistent cs b (new_book-IsConsistent b (init-IsNew symbol limit b e)) in
      (h, (call-IsConsistent c (after cs b) h).1)

  module _ (v : Venue d) where
    -- Updates and snapshots that tell the venue's book.
    abbrev pub IsGood : Call → Type 0
    IsGood (an_update u) = IsFaithful d v u
    IsGood (a_snapshot s) = IsTrue d v s
    IsGood a_resync = Unit

    call-Mirrors :
        (c : Call) (b : Book d) → IsGood c → IsConsistent b → Mirrors v b → Mirrors v (call c b).1
    unfolding call
    call-Mirrors (an_update u) b g c h =
        elim (Bool-cases (str_eq (texts.upper u.venue_symbol) b.venue_symbol)) [
          | inl same ↦ (ingest-Mirrored v texts.upper u b same g c h).mirrors
          | inr other ↦ unfold ingest in rw other h
        ]
    call-Mirrors (a_snapshot s) b g c h = (install_snapshot-Mirrored v s b g h).mirrors
    call-Mirrors a_resync b g c h = (begin_resync-Mirrored v b).mirrors

    after-Mirrors :
        (cs : List Call) (b : Book d)
        → All IsGood cs
        → IsConsistent b
        → Mirrors v b
        → Mirrors v (after cs b)
    after-Mirrors [] b g c h = h
    after-Mirrors (x ∷ cs) b g c h =
        after-Mirrors cs (call x b).1 g.1 (call-IsConsistent x b c).0 (call-Mirrors x b g.0 c h)

    new_book-Mirrors : (b : Book d) → IsNew b → Mirrors v b
    new_book-Mirrors b (symbol, canonical, limit, l, e) =
        unfold new_book in
        rw e (record {
          sides = λ s q. absurd (cc);
          waiting = λ s q. absurd (cc);
          settled = λ q. refl;
          faithful = tt;
        })

    -- A constructed book that takes faithful updates, true snapshots and resyncs in any order, also
    -- with updates lost, repeated or of other symbols between them: whenever it is live, it has a
    -- sequence id, and at each price both of its sides hold what the venue's book holds at that id.
    pub after-At :
        (symbol : String) (limit : ℕ) (b : Book d) (cs : List Call)
        → init d texts symbol limit ≡ ok b
        → All IsGood cs
        → (after cs b).status ≡ live
        → (s : ℤ) × ((after cs b).sequence_id ≡ some s) × At d v s (after cs b)
    after-At symbol limit b cs e g l =
        let new = init-IsNew symbol limit b e in
        let consistent = new_book-IsConsistent b new in
        let (s, k) =
          known_value (after cs b).sequence_id
            ((after-IsConsistent cs b consistent).settled.sequenced l) in
        (s, k, (after-Mirrors cs b g consistent (new_book-Mirrors b new)).sides s k)
