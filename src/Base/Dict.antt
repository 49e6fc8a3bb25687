-- ===== src/Base/Dict.antt =====
-- JavaScript's `Map`: an association list in the order of insertion. `set` on a key that is there
-- keeps its place.
use mathlib.Core.Path.{◌≡◌, refl}
use mathlib.Core.Bool.{Bool, true, false}
use mathlib.Core.Logic.{◌↔◌}
use mathlib.Core.Option.{Option, none, some}
use mathlib.Core.List.{List, [], ◌∷◌}
use Prim.Native.Nat.{ℕ}
use native.Mathlib.Omega.{arith}
use open_fpgastudio.Base.Tests.{if◌then◌else◌, ◌==◌, ==_iff}

-- The keys' equality, `SameValueZero` in JavaScript.
pub record Key (K : Type 0) : Type 0 where
  pub beq : K → K → Bool
  pub beq_iff : (a b : K) → (beq a b ≡ true) ↔ (a ≡ b)

same_list : {A : Type 0} → (A → A → Bool) → List A → List A → Bool
same_list eq [] [] = true
same_list eq (x ∷ xs) (y ∷ ys) = if eq x y then same_list eq xs ys else false
same_list eq _ _ = false

same_list-eq :
    {A : Type 0} (eq : A → A → Bool) (law : (a b : A) → (eq a b ≡ true) ↔ (a ≡ b))
    → (xs ys : List A) → same_list eq xs ys ≡ true
    → xs ≡ ys
unfolding same_list
same_list-eq eq law [] [] h = refl
same_list-eq eq law [] (y ∷ ys) h = cc
same_list-eq eq law (x ∷ xs) [] h = cc
same_list-eq eq law (x ∷ xs) (y ∷ ys) h = ground (arith, law x y, same_list-eq eq law xs ys)

same_list_refl :
    {A : Type 0} (eq : A → A → Bool) (law : (a b : A) → (eq a b ≡ true) ↔ (a ≡ b))
    → (xs : List A) → same_list eq xs xs ≡ true
unfolding same_list
same_list_refl eq law [] = refl
same_list_refl eq law (x ∷ xs) = ground (arith, law x x, same_list_refl eq law xs)

unfoldable pub same_text : List ℕ → List ℕ → Bool
unfolding same_list
same_text = same_list ◌==◌

pub same_text_iff : (a b : List ℕ) → (same_text a b ≡ true) ↔ (a ≡ b)
unfolding same_text
same_text_iff a b = (same_list-eq ◌==◌ ==_iff a b, λ e. rw (← e) (same_list_refl ◌==◌ ==_iff a))

instance abbrev pub number_key : Key ℕ
number_key = record { beq = ◌==◌; beq_iff = ==_iff }

instance abbrev pub text_key : Key (List ℕ)
text_key = record { beq = same_text; beq_iff = same_text_iff }

abbrev pub Dict : Type 0 → Type 0 → Type 0
Dict K V = List (K × V)

module _ {K V : Type 0} ⦃e : Key K⦄ where
  -- `map.get(key)`
  unfoldable pub get : K → Dict K V → Option V
  get k [] = none
  get k ((j, v) ∷ m) = if e.beq j k then some v else get k m

  -- `map.set(key, value)`
  unfoldable pub put : K → V → Dict K V → Dict K V
  put k v [] = (k, v) ∷ []
  put k v ((j, w) ∷ m) = if e.beq j k then (j, v) ∷ m else (j, w) ∷ put k v m

  -- `map.delete(key)`
  unfoldable pub delete : K → Dict K V → Dict K V
  delete k [] = []
  delete k ((j, w) ∷ m) = let rest = delete k m in if e.beq j k then rest else (j, w) ∷ rest

  -- `map.has(key)`
  unfoldable pub has : K → Dict K V → Bool
  has k [] = false
  has k ((j, v) ∷ m) = if e.beq j k then true else has k m

  pub get-put :
      (k j : K) (v : V) (m : Dict K V) → get j (put k v m) ≡ (if e.beq k j then some v else get j m)
  unfolding get put
  get-put k j v [] = refl
  get-put k j v ((i, w) ∷ m) =
      ground (arith, e.beq_iff k j, e.beq_iff i k, e.beq_iff i j, get-put k j v m)

  pub get-delete :
      (k j : K) (m : Dict K V) → get j (delete k m) ≡ (if e.beq k j then none else get j m)
  unfolding get delete
  get-delete k j [] = ground arith
  get-delete k j ((i, w) ∷ m) =
      ground (arith, e.beq_iff k j, e.beq_iff i k, e.beq_iff i j, get-delete k j m)

  pub get-put_self : (k : K) (v : V) (m : Dict K V) → get k (put k v m) ≡ some v
  get-put_self k v m = rw (get-put k k v m, (e.beq_iff k k).1 refl)

  pub get-delete_self : (k : K) (m : Dict K V) → get k (delete k m) ≡ none
  get-delete_self k m = rw (get-delete k k m, (e.beq_iff k k).1 refl)

  pub has-get : (k : K) (m : Dict K V) → get k m ≡ none → has k m ≡ false
  unfolding get has
  has-get k [] h = refl
  has-get k ((j, v) ∷ m) h = ground (arith, has-get k m)
