-- ===== src/Features/Lineage/Combining.antt =====
-- features/lineage.py: `combine` is the merge of its arguments, whatever their order.
use mathlib.Core.Path.{subst}
use mathlib.Core.List.{Permᴰ}
use cvf.Prelude.{
  ℕ, zero, suc, ◌≤◌, ◌<◌, min, max, ◌≡◌, ◌≢◌, refl, sym, ap, ap₂, ◌∙◌, true, false, Option, none,
  some, List, [], ◌∷◌, ◌++◌, All, append-nil, arith, ◌⊎◌, inl, inr, lt→ltb, le→ltb, ◌==◌, pos,
}
use cvf.Outcome.{ok}
use cvf.Time.{aware}
use cvf.Features.Lineage.{
  digest_modulus, SourceLineage, empty, uint256, bounds_of, init_counted, init, listed, Total,
  total_of, add_other, add_others, least_from, greatest_from, closed, close_total, combine,
}
use cvf.Features.Lineage.Merging.{
  IsLineage, IsLineage.nothing, IsLineage.sources, earlier, latest, merge, merge_all,
  merge-IsLineage, merge_comm, merge_assoc,
}

low : List ℕ → Option ℕ
low [] = none
low (t ∷ ts) = some (least_from t ts)

high : List ℕ → Option ℕ
high [] = none
high (t ∷ ts) = some (greatest_from t ts)

least_from-append :
    (m : ℕ) (xs ys : List ℕ) → least_from m (xs ++ ys) ≡ least_from (least_from m xs) ys
unfolding least_from
least_from-append m [] ys = refl
least_from-append m (x ∷ xs) ys = least_from-append (min m x) xs ys

greatest_from-append :
    (m : ℕ) (xs ys : List ℕ) → greatest_from m (xs ++ ys) ≡ greatest_from (greatest_from m xs) ys
unfolding greatest_from
greatest_from-append m [] ys = refl
greatest_from-append m (x ∷ xs) ys = greatest_from-append (max m x) xs ys

-- What the loop's state stands for.
stands_for : Total → SourceLineage
stands_for t = record {
  count = t.count;
  digest_sum = t.digest_sum;
  digest_xor = t.digest_xor;
  oldest_timestamp = low t.timestamps;
  newest_timestamp = high t.timestamps;
}

total_of-stands_for : (l : SourceLineage) → IsLineage l → stands_for (total_of l) ≡ l
unfolding stands_for total_of listed low high least_from greatest_from
total_of-stands_for _ nothing = refl
total_of-stands_for _ (sources c s x o n z p q r) =
    let a : min o n ≡ o = omega arith in let b : max o n ≡ n = omega arith in rw (a, b) refl

low-pair : (ts : List ℕ) (o n : ℕ) → o ≤ n → low (ts ++ (o ∷ n ∷ [])) ≡ earlier (low ts) (some o)
unfolding low least_from
low-pair [] o n le = let a : min o n ≡ o = omega arith in ap some a
low-pair (t ∷ ts) o n le =
    let a : min (min (least_from t ts) o) n ≡ min (least_from t ts) o = omega arith in
    ap some (least_from-append t ts (o ∷ n ∷ []) ∙ a)

high-pair : (ts : List ℕ) (o n : ℕ) → o ≤ n → high (ts ++ (o ∷ n ∷ [])) ≡ latest (high ts) (some n)
unfolding high greatest_from
high-pair [] o n le = let a : max o n ≡ n = omega arith in ap some a
high-pair (t ∷ ts) o n le =
    let a : max (max (greatest_from t ts) o) n ≡ max (greatest_from t ts) n = omega arith in
    ap some (greatest_from-append t ts (o ∷ n ∷ []) ∙ a)

earlier-none : (o : Option ℕ) → earlier o none ≡ o
earlier-none none = refl
earlier-none (some t) = refl

latest-none : (o : Option ℕ) → latest o none ≡ o
latest-none none = refl
latest-none (some t) = refl

add_other-merge :
    (t : Total) (l : SourceLineage)
    → IsLineage l
    → stands_for (add_other t l) ≡ merge (stands_for t) l
unfolding stands_for add_other listed merge
add_other-merge t _ nothing =
    rw (append-nil t.timestamps, earlier-none (low t.timestamps), latest-none (high t.timestamps))
      refl
add_other-merge t _ (sources c s x o n z p q r) =
    rw (low-pair t.timestamps o n r, high-pair t.timestamps o n r) refl

add_others-merge_all :
    (t : Total) (ls : List SourceLineage)
    → All IsLineage ls
    → stands_for (add_others t ls) ≡ merge_all (stands_for t) ls
unfolding add_others merge_all
add_others-merge_all t [] h = refl
add_others-merge_all t (l ∷ ls) h =
    add_others-merge_all (add_other t l) ls h.1 ∙ ap (λ m. merge_all m ls) (add_other-merge t l h.0)

merge_all-IsLineage :
    (l : SourceLineage) (ls : List SourceLineage)
    → IsLineage l
    → All IsLineage ls
    → IsLineage (merge_all l ls)
unfolding merge_all
merge_all-IsLineage l [] h k = h
merge_all-IsLineage l (m ∷ ms) h k =
    merge_all-IsLineage (merge l m) ms (merge-IsLineage l m h k.0) k.1

-- A lineage is empty, or has what `__post_init__` asks of the others.
record Nonempty (l : SourceLineage) : Type 0 where
  positive : 0 < l.count
  sum : l.digest_sum < digest_modulus
  xor : l.digest_xor < digest_modulus
  oldest : ℕ
  newest : ℕ
  oldest_is : l.oldest_timestamp ≡ some oldest
  newest_is : l.newest_timestamp ≡ some newest
  ordered : oldest ≤ newest

IsLineage-cases : (l : SourceLineage) → IsLineage l → (l ≡ empty) ⊎ Nonempty l
IsLineage-cases _ nothing = inl refl
IsLineage-cases _ (sources c s x o n z p q r) = inr (record {
  positive = z;
  sum = p;
  xor = q;
  oldest = o;
  newest = n;
  oldest_is = refl;
  newest_is = refl;
  ordered = r;
})

init-ok :
    (c s x o n : ℕ)
    → 0 < c
    → s < digest_modulus
    → x < digest_modulus
    → o ≤ n
    → init (pos c) (pos s) (pos x) (some (aware o)) (some (aware n))
      ≡ ok (record {
        count = c;
        digest_sum = s;
        digest_xor = x;
        oldest_timestamp = some o;
        newest_timestamp = some n;
      })
unfolding init init_counted uint256 bounds_of
init-ok zero s x o n z p q r = absurd (omega arith)
init-ok (suc c) s x o n z p q r =
    rw (lt→ltb s digest_modulus p, lt→ltb x digest_modulus q, le→ltb o n r) refl

none_not_some : {a : ℕ} → none ≢ some a
none_not_some h = absurd (cc)

some_injective : {a b : ℕ} → some a ≡ some b → a ≡ b
some_injective h = cc

closed-ok :
    (t : Total) (ts : List ℕ)
    → t.timestamps ≡ ts
    → Nonempty (stands_for t)
    → closed t ts ≡ ok (stands_for t)
unfolding closed stands_for low high
closed-ok t [] e h = absurd (none_not_some (ap low (sym e) ∙ h.oldest_is))
closed-ok t (m ∷ ts) e h =
    let o : least_from m ts ≡ h.oldest = some_injective (ap low (sym e) ∙ h.oldest_is) in
    let n : greatest_from m ts ≡ h.newest = some_injective (ap high (sym e) ∙ h.newest_is) in
    rw e (
      init-ok t.count t.digest_sum t.digest_xor (least_from m ts) (greatest_from m ts) h.positive
        h.sum h.xor (let le = h.ordered in omega arith))

close_total-empty : (t : Total) → t.count ≡ 0 → close_total t ≡ ok empty
unfolding close_total
close_total-empty t e = let b : (t.count == 0) ≡ true = ground arith in rw b refl

close_total-closed : (t : Total) → 0 < t.count → close_total t ≡ closed t t.timestamps
unfolding close_total
close_total-closed t lt = let b : (t.count == 0) ≡ false = ground arith in rw b refl

-- `__post_init__` lets what it stands for through.
close_total-ok : (t : Total) → IsLineage (stands_for t) → close_total t ≡ ok (stands_for t)
unfolding stands_for
close_total-ok t h = elim (IsLineage-cases (stands_for t) h) [
  | inl e ↦ close_total-empty t (ap (λ l. l.count) e) ∙ ap ok (sym e)
  | inr ne ↦ close_total-closed t ne.positive ∙ closed-ok t t.timestamps refl ne
]

-- On lineages that were made, `combine` never raises: it is the merge of all, a lineage again.
pub combine-merge_all :
    (l : SourceLineage) (others : List SourceLineage)
    → IsLineage l
    → All IsLineage others
    → (combine l others ≡ ok (merge_all l others)) × IsLineage (merge_all l others)
unfolding combine
combine-merge_all l others h k =
    let e : stands_for (add_others (total_of l) others) ≡ merge_all l others =
      add_others-merge_all (total_of l) others k
      ∙ ap (λ m. merge_all m others) (total_of-stands_for l h) in
    let v = merge_all-IsLineage l others h k in
    (close_total-ok (add_others (total_of l) others) (subst IsLineage (sym e) v) ∙ ap ok e, v)

merge_swap : (l a b : SourceLineage) → merge (merge l a) b ≡ merge (merge l b) a
merge_swap l a b = merge_assoc l a b ∙ ap (merge l) (merge_comm a b) ∙ sym (merge_assoc l b a)

merge_all-perm :
    (l : SourceLineage) (xs ys : List SourceLineage) → Permᴰ xs ys → merge_all l xs ≡ merge_all l ys
unfolding merge_all
merge_all-perm l _ _ Permᴰ.nil = refl
merge_all-perm l _ _ (Permᴰ.cons {a = a} {l₁ = xs} {l₂ = ys} e p) =
    merge_all-perm (merge l a) xs ys p ∙ ap (λ m. merge_all (merge l m) ys) e
merge_all-perm l _ _ (Permᴰ.swap {a = a} {b = b} {l = xs} e f) =
    ap (λ m. merge_all m xs) (merge_swap l a b)
    ∙ ap₂ (λ x y. merge_all (merge (merge l x) y) xs) f e
merge_all-perm l _ _ (Permᴰ.trans {l₁ = xs} {l₂ = ys} {l₃ = zs} p q) =
    merge_all-perm l xs ys p ∙ merge_all-perm l ys zs q

-- The order in which lineages are combined does not matter: on lineages that were made, `combine`
-- gives the same for the arguments in any order.
pub combine-perm :
    (l : SourceLineage) (xs ys : List SourceLineage)
    → IsLineage l
    → All IsLineage xs
    → All IsLineage ys
    → Permᴰ xs ys
    → combine l xs ≡ combine l ys
combine-perm l xs ys h k m p =
    (combine-merge_all l xs h k).0
    ∙ ap ok (merge_all-perm l xs ys p)
    ∙ sym (combine-merge_all l ys h m).0
