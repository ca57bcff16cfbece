-- ===== src/Prelude/Lists.antt =====
-- Lists measured by native numbers, and predicates on lists by recursion.
use Prim.Native.Nat.{ℕ, ◌≤◌, zero, suc, ◌+◌, ◌-◌}
use mathlib.Core.Path.{◌≡◌, refl, sym, ◌∙◌}
use mathlib.Core.Bool.{Bool, true, false}
use mathlib.Core.List.{List, Sublistᴰ, [], ◌∷◌, ◌++◌}
use mathlib.Core.Option.{Option, none, some}
use native.Mathlib.Omega.{arith}

add_zero : (j : ℕ) → j + 0 ≡ j
add_zero j = omega arith

add_suc : (j k : ℕ) → j + suc k ≡ suc (j + k)
add_suc j k = omega arith

module _ {ℓ} {A : Type ℓ} where
  abbrev pub length : List A → ℕ
  length [] = 0
  length (x ∷ xs) = suc (length xs)

  abbrev pub drop : ℕ → List A → List A
  drop zero xs = xs
  drop (suc n) [] = []
  drop (suc n) (x ∷ xs) = drop n xs

  -- `back()` of a container; `none` where it is empty.
  abbrev pub back : List A → Option A
  back [] = none
  back (x ∷ []) = some x
  back (x ∷ y ∷ ys) = back (y ∷ ys)

  -- `front()` of a container; `none` where it is empty.
  abbrev pub front : List A → Option A
  front [] = none
  front (x ∷ xs) = some x

  abbrev pub is_empty : List A → Bool
  is_empty [] = true
  is_empty (x ∷ xs) = false

  pub length-append : (xs ys : List A) → length (xs ++ ys) ≡ length xs + length ys
  length-append [] ys = omega arith
  length-append (x ∷ xs) ys = omega (arith, length-append xs ys)

  pub length-drop : (n : ℕ) (xs : List A) → length (drop n xs) ≡ length xs - n
  length-drop zero xs = omega arith
  length-drop (suc n) [] = omega arith
  length-drop (suc n) (x ∷ xs) = omega (arith, length-drop n xs)

  pub drop-append : (k : ℕ) (xs ys : List A) → k ≤ length xs → drop k (xs ++ ys) ≡ drop k xs ++ ys
  drop-append zero xs ys h = refl
  drop-append (suc k) [] ys h = absurd (omega arith)
  drop-append (suc k) (x ∷ xs) ys h = drop-append k xs ys (omega arith)

  pub drop-nil : (k : ℕ) → ◌≡◌ {A = List A} (drop k []) []
  drop-nil zero = refl
  drop-nil (suc k) = refl

  pub drop-drop : (j k : ℕ) (xs : List A) → drop j (drop k xs) ≡ drop (j + k) xs
  drop-drop j zero xs = rw (add_zero j) refl
  drop-drop j (suc k) [] = drop-nil j ∙ sym (drop-nil (j + suc k))
  drop-drop j (suc k) (x ∷ xs) = rw (add_suc j k) (drop-drop j k xs)

  pub back-append : (xs : List A) (x : A) → back (xs ++ x ∷ []) ≡ some x
  back-append [] x = refl
  back-append (y ∷ []) x = refl
  back-append (y ∷ z ∷ zs) x = back-append (z ∷ zs) x

  -- Every item of a list has a property.
  abbrev pub All {κ} : (A → Type κ) → List A → Type κ
  All P [] = Unit
  All P (x ∷ xs) = P x × All P xs

-- Every two items of a list, in their order, are related.
abbrev pub AllPairs {ℓ κ} : {A : Type ℓ} → (A → A → Type κ) → List A → Type κ
AllPairs R [] = Unit
AllPairs R (x ∷ xs) = All (R x) xs × AllPairs R xs

module _ {ℓ κ} {A : Type ℓ} (P : A → Type κ) where
  pub All-append : (xs ys : List A) → All P xs → All P ys → All P (xs ++ ys)
  All-append [] ys hx hy = hy
  All-append (x ∷ xs) ys hx hy = (hx.0, All-append xs ys hx.1 hy)

  pub All-Sublist : {xs ys : List A} → Sublistᴰ xs ys → All P ys → All P xs
  All-Sublist Sublistᴰ.slnil h = tt
  All-Sublist (Sublistᴰ.cons s) h = All-Sublist s h.1
  All-Sublist (Sublistᴰ.cons-cons e s) h = (rw e h.0, All-Sublist s h.1)

  pub All-imp {μ} : (Q : A → Type μ) → ((a : A) → P a → Q a) → (xs : List A) → All P xs → All Q xs
  All-imp Q f [] h = tt
  All-imp Q f (x ∷ xs) h = (f x h.0, All-imp Q f xs h.1)

module _ {ℓ κ} {A : Type ℓ} (R : A → A → Type κ) where
  pub AllPairs-Sublist : {xs ys : List A} → Sublistᴰ xs ys → AllPairs R ys → AllPairs R xs
  AllPairs-Sublist Sublistᴰ.slnil h = tt
  AllPairs-Sublist (Sublistᴰ.cons s) h = AllPairs-Sublist s h.1
  AllPairs-Sublist (Sublistᴰ.cons-cons {b = b} e s) h =
      (rw e (All-Sublist (R b) s h.0), AllPairs-Sublist s h.1)

  pub AllPairs-append_one :
      (xs : List A) (x : A) → AllPairs R xs → All (λ a. R a x) xs → AllPairs R (xs ++ x ∷ [])
  AllPairs-append_one [] x h k = (tt, tt)
  AllPairs-append_one (y ∷ ys) x h k =
      (All-append (R y) ys (x ∷ []) h.0 (k.0, tt), AllPairs-append_one ys x h.1 k.1)

  pub AllPairs-imp {μ} :
      (T : A → A → Type μ)
      → ((a b : A) → R a b → T a b)
      → (xs : List A) → AllPairs R xs
      → AllPairs T xs
  AllPairs-imp T f [] h = tt
  AllPairs-imp T f (x ∷ xs) h = (All-imp (R x) (T x) (f x) xs h.0, AllPairs-imp T f xs h.1)

pub length-Sublist-le {ℓ} : {A : Type ℓ} {xs ys : List A} → Sublistᴰ xs ys → length xs ≤ length ys
length-Sublist-le Sublistᴰ.slnil = omega arith
length-Sublist-le (Sublistᴰ.cons s) = omega (arith, length-Sublist-le s)
length-Sublist-le (Sublistᴰ.cons-cons e s) = omega (arith, length-Sublist-le s)
