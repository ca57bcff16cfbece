-- ===== src/Ring/Valid.antt =====
-- The well-formedness of a ring buffer (src/ring_buffer.cpp), and what the searches of `Push` and
-- `Delete` do to a buffer of distinct or ascending ids.
use mathlib.Core.List.Sublistᴰ
use qds_data_interface.Prelude.{
  ℕ, ◌≤◌, Bool, true, false, ◌&&◌, Option, none, some, List, [], ◌∷◌, ◌++◌, ◌≡◌, refl, sym, ◌∙◌,
  length, Bool-cases, inl, inr, arith, All, AllPairs, AllPairs-append_one, AllPairs-imp, All-imp,
  Sublistᴰ,
}
use qds_data_interface.Prelude.Int.{
  ℤ, ◌<ℤ◌, ltb_ℤ, ◌==ℤ◌, ==ℤ_iff, leb_ℤ-false, ltb_ℤ-true, <ℤ-ne, <ℤ_trans,
}
use qds_data_interface.Types.{BufferEntry}
use qds_data_interface.Ring.{
  prepend, OnDeleteCallback, RingBuffer, is_mode_0, notify, replace, delete_from, last_id_ge,
}

abbrev pub Ascending : List BufferEntry → Type 0
Ascending = AllPairs (λ a b. a.id <ℤ b.id)

abbrev pub Distinct : List BufferEntry → Type 0
Distinct = AllPairs (λ a b. (a.id ==ℤ b.id) ≡ false)

-- Every entry has another id.
abbrev pub Lacks : ℤ → List BufferEntry → Type 0
Lacks id = All (λ a. (a.id ==ℤ id) ≡ false)

-- No more entries than the buffer's size, no id twice, and in counter mode 0 ascending ids.
pub record IsValid (r : RingBuffer) : Type 0 where
  pub bounded : length r.buffer ≤ r.max_size
  pub distinct : Distinct r.buffer
  pub ascending : is_mode_0 r ≡ true → Ascending r.buffer

pub last_id_bound :
    (id : ℤ) (es : List BufferEntry)
    → Ascending es
    → last_id_ge id es ≡ false
    → All (λ a. a.id <ℤ id) es
unfolding last_id_ge
last_id_bound id [] s h = tt
last_id_bound id (e ∷ []) s h = (leb_ℤ-false id e.id h, tt)
last_id_bound id (e ∷ f ∷ es) s h =
    let below = last_id_bound id (f ∷ es) s.1 h in (<ℤ_trans e.id f.id id s.0.0 below.0, below)

pub last_id-Lacks :
    (id : ℤ) (es : List BufferEntry) → Ascending es → last_id_ge id es ≡ false → Lacks id es
last_id-Lacks id es s h = All-imp _ _ (λ a. <ℤ-ne a.id id) es (last_id_bound id es s h)

pub Ascending-Distinct : (es : List BufferEntry) → Ascending es → Distinct es
Ascending-Distinct = AllPairs-imp _ _ (λ a b. <ℤ-ne a.id b.id)

-- Counter mode 0: a new entry behind a smaller last id keeps the ids ascending.
pub append-Ascending :
    (es : List BufferEntry) (e : BufferEntry)
    → Ascending es
    → last_id_ge e.id es ≡ false
    → Ascending (es ++ e ∷ [])
append-Ascending es e s h = AllPairs-append_one _ es e s (last_id_bound e.id es s h)

pub append-Distinct :
    (es : List BufferEntry) (e : BufferEntry)
    → Distinct es
    → Lacks e.id es
    → Distinct (es ++ e ∷ [])
append-Distinct es e = AllPairs-append_one _ es e

==ℤ-trans : (a b c : ℤ) → (a ==ℤ c) ≡ true → (b ==ℤ a) ≡ (b ==ℤ c)
==ℤ-trans a b c h = rw ((==ℤ_iff a c).0 h)

==ℤ_comm : (a b : ℤ) → (a ==ℤ b) ≡ (b ==ℤ a)
unfolding ◌==ℤ◌
==ℤ_comm a b = ground arith

-- If one entry has the id, then the others of a buffer of distinct ids lack it.
pub others-Lacks :
    (id : ℤ) (e : BufferEntry) (es : List BufferEntry)
    → (e.id ==ℤ id) ≡ true
    → All (λ b. (e.id ==ℤ b.id) ≡ false) es
    → Lacks id es
others-Lacks id e es h =
    All-imp _ _ (λ b k. sym (==ℤ-trans e.id b.id id h) ∙ ==ℤ_comm b.id e.id ∙ k) es

-- A property of the buffer that a search hands back, if it does.
abbrev pub OnSome {ℓ} :
    {S : Type 0} → (List BufferEntry → Type ℓ) → Option (List BufferEntry × S) → Type ℓ
OnSome P none = Unit
OnSome P (some (es, s)) = P es

module _ {S : Type 0} (time : ℕ → ℕ) (callback : Option (OnDeleteCallback S)) (id : ℤ) where
  -- What is left is a part of the buffer, and lacks the id.
  abbrev pub Replaced : List BufferEntry → List BufferEntry → Type 0
  Replaced es r = Sublistᴰ r es × Lacks id r

  prepend-Replaced :
      (e : BufferEntry) (es : List BufferEntry) (o : Option (List BufferEntry × S))
      → (e.id ==ℤ id) ≡ false
      → OnSome (Replaced es) o
      → OnSome (Replaced (e ∷ es)) (prepend e o)
  prepend-Replaced e es none m h = tt
  prepend-Replaced e es (some (r, s)) m h = (Sublistᴰ.cons-cons refl h.0, (m, h.1))

  module _ (e : BufferEntry) (es : List BufferEntry) (s : S) where
    pub replace_locked :
        (e.id ==ℤ id) ≡ true → e.locked ≡ true → replace time callback id (e ∷ es) s ≡ none
    unfolding replace
    replace_locked h l = ground arith

    pub replace_unlocked :
        (e.id ==ℤ id) ≡ true
        → e.locked ≡ false
        → replace time callback id (e ∷ es) s ≡ some (es, notify time callback e s)
    unfolding replace
    replace_unlocked h u = ground arith

    pub replace_miss :
        (e.id ==ℤ id) ≡ false
        → replace time callback id (e ∷ es) s ≡ prepend e (replace time callback id es s)
    unfolding replace
    replace_miss m = ground arith

  pub replace-Replaced :
      (es : List BufferEntry) (s : S)
      → Distinct es
      → OnSome (Replaced es) (replace time callback id es s)
  replace-Replaced [] s d = unfold replace in (Sublistᴰ.slnil, tt)
  replace-Replaced (e ∷ es) s d = elim (Bool-cases (e.id ==ℤ id)) [
    | inl hit ↦ elim (Bool-cases e.locked) [
      | inl l ↦ rw (replace_locked e es s hit l) tt
      | inr u ↦
          rw (replace_unlocked e es s hit u)
            (Sublistᴰ.cons (Sublistᴰ.refl es), others-Lacks id e es hit d.0)
    ]
    | inr miss ↦
        rw (replace_miss e es s miss) (prepend-Replaced e es _ miss (replace-Replaced es s d.1))
  ]

  -- An id that no entry has replaces nothing.
  pub replace-none :
      (es : List BufferEntry) (s : S) → Lacks id es → replace time callback id es s ≡ some (es, s)
  unfolding replace
  replace-none [] s h = refl
  replace-none (e ∷ es) s h = ground (arith, replace-none es s h.1)

  -- What `Delete` leaves is a part of the buffer; it lacks the id.
  pub delete_from-Sublist :
      (sorted : Bool) (es : List BufferEntry) (s : S)
      → Sublistᴰ (delete_from time callback sorted id es s).0 es
  unfolding delete_from
  delete_from-Sublist sorted [] s = Sublistᴰ.slnil
  delete_from-Sublist sorted (e ∷ es) s = elim (Bool-cases (e.id ==ℤ id)) [
    | inl hit ↦ simp hit (Sublistᴰ.cons (Sublistᴰ.refl es))
    | inr miss ↦ elim (Bool-cases (sorted && ltb_ℤ id e.id)) [
      | inl stop ↦ simp (miss, stop) (Sublistᴰ.refl (e ∷ es))
      | inr go ↦ simp (miss, go) (Sublistᴰ.cons-cons refl (delete_from-Sublist sorted es s))
    ]
  ]

  above-Lacks :
      (e : BufferEntry) (es : List BufferEntry)
      → ltb_ℤ id e.id ≡ true
      → All (λ b. e.id <ℤ b.id) es
      → Lacks id es
  above-Lacks e es h =
      All-imp _ _
        (λ b k. ==ℤ_comm b.id id ∙ <ℤ-ne id b.id (<ℤ_trans id e.id b.id (ltb_ℤ-true id e.id h) k))
        es

  -- In a buffer of distinct ids the plain search removes the id.
  pub delete_from-Lacks :
      (es : List BufferEntry) (s : S)
      → Distinct es
      → Lacks id (delete_from time callback false id es s).0
  unfolding delete_from
  delete_from-Lacks [] s d = tt
  delete_from-Lacks (e ∷ es) s d = elim (Bool-cases (e.id ==ℤ id)) [
    | inl hit ↦ simp hit (others-Lacks id e es hit d.0)
    | inr miss ↦ simp miss (refl, delete_from-Lacks es s d.1)
  ]

  delete_from-absent :
      (es : List BufferEntry) (s : S)
      → Lacks id es
      → delete_from time callback false id es s ≡ (es, s)
  unfolding delete_from
  delete_from-absent [] s h = refl
  delete_from-absent (e ∷ es) s h = ground (arith, delete_from-absent es s h.1)

  -- On ascending ids, the search that stops at the first greater id does what the plain search does.
  pub delete_from_sorted :
      (es : List BufferEntry) (s : S)
      → Ascending es
      → delete_from time callback true id es s ≡ delete_from time callback false id es s
  unfolding delete_from
  delete_from_sorted [] s h = refl
  delete_from_sorted (e ∷ es) s h =
      ground (arith, delete_from_sorted es s h.1, above-Lacks e es, delete_from-absent es s)
