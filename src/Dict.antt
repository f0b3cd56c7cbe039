-- ===== src/Dict.antt =====
-- Python's `dict` as an association list in insertion order, over keys with a decidable equality.
use Prim.Native.String.{String}
use text.Mathlib.Text.{◌==◌ as str_eq}
use text.Mathlib.TextEquality.{eq_iff}
use mathlib.Core.Logic.{ite}
use cvf.Prelude.{
  true_not_false, ◌≡◌, refl, Bool, true, false, Option, none, some, List, [], ◌∷◌, arith,
}

abbrev pub Dict : Type 0 → Type 0 → Type 0
Dict K V = List (K × V)

module _ {K V : Type 0} (dec : Discrete K) where
  unfoldable pub lookup : K → Dict K V → Option V
  lookup k [] = none
  lookup k ((j, v) ∷ m) = ite (dec j k) (some v) (lookup k m)

  -- `m[k] = v`: a key that is there keeps its place.
  unfoldable pub assign : K → V → Dict K V → Dict K V
  assign k v [] = (k, v) ∷ []
  assign k v ((j, w) ∷ m) = ite (dec j k) ((j, v) ∷ m) ((j, w) ∷ assign k v m)

  -- `m.pop(k, None)`.
  unfoldable pub pop : K → Dict K V → Dict K V
  pop k [] = []
  pop k ((j, v) ∷ m) = let rest = pop k m in ite (dec j k) rest ((j, v) ∷ rest)

  pub lookup-assign :
      (k j : K) (v : V) (m : Dict K V)
      → lookup j (assign k v m) ≡ ite (dec k j) (some v) (lookup j m)
  unfolding lookup assign
  lookup-assign k j v [] = refl
  lookup-assign k j v ((i, w) ∷ m) = ground (arith, lookup-assign k j v m)

  pub lookup-pop : (k j : K) (m : Dict K V) → lookup j (pop k m) ≡ ite (dec k j) none (lookup j m)
  unfolding lookup pop
  lookup-pop k j [] = ground arith
  lookup-pop k j ((i, w) ∷ m) = ground (arith, lookup-pop k j m)

pub ite_yes : {P A : Type 0} (o : Dec P) (p : P) (x y : A) → ite o x y ≡ x
ite_yes (yes q) p x y = refl
ite_yes (no n) p x y = absurd (n p)

pub ite_no : {P A : Type 0} (o : Dec P) → ¬ P → (x y : A) → ite o x y ≡ y
ite_no (yes q) n x y = absurd (n q)
ite_no (no m) n x y = refl

pub ite_same : {P A : Type 0} (o : Dec P) (x : A) → ite o x x ≡ x
ite_same (yes p) x = refl
ite_same (no n) x = refl

-- Texts are compared by `==`.
unfoldable decide_text : (s t : String) (b : Bool) → str_eq s t ≡ b → Dec (s ≡ t)
decide_text s t true e = yes ((eq_iff s t).0 e)
decide_text s t false e = no (λ q. true_not_false ((eq_iff s t).1 q) e)

unfoldable pub text_discrete : Discrete String
unfolding decide_text
text_discrete s t = decide_text s t (str_eq s t) refl
