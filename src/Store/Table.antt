-- ===== src/Store/Table.antt =====
-- Go's maps: association lists with the operations `m[k]`, `m[k] = v` and `delete(m, k)`, over keys
-- with a test for equality.
use mathlib.Core.Option
use cert_me.Prelude.{
  Bool, List, Option, [], arith, if◌then◌else◌, none, refl, some, true, ◌&&◌, ◌↔◌, ◌∷◌, ◌≡◌,
}
use cert_me.Prelude.Text.{Text, text_eq, text_eq_iff}

pub record Keyed (K : Type 0) : Type 0 where
  pub same : K → K → Bool
  pub same_iff : (a b : K) → (same a b ≡ true) ↔ (a ≡ b)

instance abbrev pub text_keyed : Keyed Text
text_keyed = record { same = text_eq; same_iff = text_eq_iff }

abbrev pair_same : {A B : Type 0} → Keyed A → Keyed B → A × B → A × B → Bool
pair_same k l (a, b) (c, d) = k.same a c && l.same b d

pub pair_same_iff :
    {A B : Type 0} (k : Keyed A) (l : Keyed B) (p q : A × B) → (pair_same k l p q ≡ true) ↔ (p ≡ q)
pair_same_iff k l (a, b) (c, d) = ground (arith, k.same_iff a c, l.same_iff b d)

instance abbrev pub pair_keyed : {A B : Type 0} ⦃k : Keyed A⦄ ⦃l : Keyed B⦄ → Keyed (A × B)
pair_keyed ⦃k⦄ ⦃l⦄ = record { same = pair_same k l; same_iff = pair_same_iff k l }

pub same_refl : {K : Type 0} ⦃k : Keyed K⦄ (a : K) → k.same a a ≡ true
same_refl ⦃k⦄ a = (k.same_iff a a).1 refl

module _ {K V : Type 0} ⦃k : Keyed K⦄ where
  -- `m[key]`
  unfoldable pub find : K → List (K × V) → Option V
  find key [] = none
  find key ((j, v) ∷ m) = if k.same j key then some v else find key m

  -- `m[key] = v`
  unfoldable pub put : K → V → List (K × V) → List (K × V)
  put key v [] = (key, v) ∷ []
  put key v ((j, w) ∷ m) = if k.same j key then (key, v) ∷ m else (j, w) ∷ put key v m

  -- `delete(m, key)`
  unfoldable pub remove : K → List (K × V) → List (K × V)
  remove key [] = []
  remove key ((j, v) ∷ m) = if k.same j key then remove key m else (j, v) ∷ remove key m

  -- A loop that replaces the value of every entry.
  unfoldable pub update_all : (V → V) → List (K × V) → List (K × V)
  update_all f [] = []
  update_all f ((j, v) ∷ m) = (j, f v) ∷ update_all f m

  pub find-put :
      (i j : K) (v : V) (m : List (K × V))
      → find j (put i v m) ≡ (if k.same i j then some v else find j m)
  unfolding find put
  find-put i j v [] = refl
  find-put i j v ((l, w) ∷ m) =
      ground (arith, k.same_iff i j, k.same_iff l i, k.same_iff l j, find-put i j v m)

  pub find-remove :
      (i j : K) (m : List (K × V)) → find j (remove i m) ≡ (if k.same i j then none else find j m)
  unfolding find remove
  find-remove i j [] = ground arith
  find-remove i j ((l, w) ∷ m) =
      ground (arith, k.same_iff i j, k.same_iff l i, k.same_iff l j, find-remove i j m)

  pub find-update_all :
      (f : V → V) (j : K) (m : List (K × V)) → find j (update_all f m) ≡ Option.map f (find j m)
  unfolding find update_all
  find-update_all f j [] = refl
  find-update_all f j ((l, w) ∷ m) = ground (arith, find-update_all f j m)
