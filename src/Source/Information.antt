-- ===== src/Source/Information.antt =====
-- The bounded lists of deletion and reset information, src/data_source_internal.cpp.
use qds_data_interface.Prelude.{
  ℕ, zero, suc, ◌+◌, ◌-◌, ◌≤◌, ◌<◌, List, [], ◌∷◌, ◌++◌, ◌≡◌, inl, inr, refl, sym, ◌∙◌, ap, arith,
  length, length-append, length-drop, drop, drop-append, drop-nil, leb, ltb, Bool-cases,
}
use qds_data_interface.Types.{BufferEntry, DeletionInformation, InformationList}
use qds_data_interface.Source.{
  Mapping, no_information, pop_front, drop_oldest, emplace_back, note_deletion,
}

module _ {A : Type 0} where
  pop_front-drop : (k : ℕ) (xs : List A) → pop_front (drop k xs) ≡ drop (suc k) xs
  pop_front-drop zero [] = refl
  pop_front-drop zero (x ∷ xs) = refl
  pop_front-drop (suc k) [] = refl
  pop_front-drop (suc k) (x ∷ xs) = pop_front-drop k xs

  -- The list holds the last `size` of the items, and the flag says whether there were more.
  pub record Recent (size : ℕ) (items : List A) (l : InformationList A) : Type 0 where
    pub latest : l.list ≡ drop (length items - size) items
    pub exceeded : l.exceeded_max_entries ≡ ltb size (length items)

  pub Recent-none : (size : ℕ) → Recent size [] no_information
  Recent-none size = record { latest = sym (drop-nil (0 - size)); exceeded = ground arith }

  -- The list is never longer than its size.
  length-Recent-le :
      (size : ℕ) (items : List A) (l : InformationList A)
      → Recent size items l
      → length l.list ≤ size
  length-Recent-le size items l r =
      rw r.latest (omega (arith, length-drop (length items - size) items))

  -- Where it is not too long, nothing is dropped.
  pub drop_oldest_within :
      (size : ℕ) (items : List A) (l : InformationList A)
      → Recent size items l
      → drop_oldest size l ≡ l
  unfolding drop_oldest
  drop_oldest_within size items l r = ground (arith, length-Recent-le size items l r)

  -- One more item.
  pub add-Recent :
      (size : ℕ) (items : List A) (l : InformationList A) (a : A)
      → Recent size items l
      → Recent size (items ++ a ∷ []) (drop_oldest size (emplace_back a l))
  unfolding drop_oldest emplace_back
  add-Recent size items l a r = elim (Bool-cases (leb size (length items))) [
    | inl full ↦ record {
      latest = ground (arith, shifted, lengths, total);
      exceeded = ground (arith, lengths, total);
    }
    | inr free ↦ record {
      latest = ground (arith, same (ground arith), lengths, total, r.latest);
      exceeded = ground (arith, lengths, total, r.exceeded);
    }
  ]
    where
      past : ℕ
      past = length items - size

      total : length (items ++ a ∷ []) ≡ length items + 1
      total = length-append items (a ∷ [])

      lengths : length (l.list ++ a ∷ []) ≡ length items - past + 1
      lengths =
          length-append l.list (a ∷ [])
          ∙ ap (λ n. n + 1) (ap length r.latest ∙ length-drop past items)

      shifted :
          size ≤ length items
          → pop_front (l.list ++ a ∷ []) ≡ drop (length (items ++ a ∷ []) - size) (items ++ a ∷ [])
      shifted h =
          let one_more : suc past ≡ length (items ++ a ∷ []) - size = omega (arith, total) in
          let enough : past ≤ length items = omega arith in
          ap (λ xs. pop_front (xs ++ a ∷ [])) r.latest
          ∙ ap pop_front (sym (drop-append past items (a ∷ []) enough))
          ∙ pop_front-drop past (items ++ a ∷ [])
          ∙ ap (λ n. drop n (items ++ a ∷ [])) one_more

      same :
          length items < size
          → l.list ++ a ∷ [] ≡ drop (length (items ++ a ∷ []) - size) (items ++ a ∷ [])
      same h =
          let none_past : past ≡ 0 = omega arith in
          let none_now : 0 ≡ length (items ++ a ∷ []) - size = omega (arith, total) in
          ap (λ xs. xs ++ a ∷ []) (r.latest ∙ ap (λ n. drop n items) none_past)
          ∙ ap (λ n. drop n (items ++ a ∷ [])) none_now

-- The notes of a list of deletions, each with the time that the callback is given.
unfoldable pub note_all : {C : Type 0} → ℕ → List (BufferEntry × ℕ) → Mapping C → Mapping C
note_all size [] m = m
note_all size ((e, t) ∷ es) m = note_all size es (note_deletion size e t m)

abbrev pub information : BufferEntry × ℕ → DeletionInformation
information (e, t) = record { deletion_time_ms = t; data_set_time_ms = e.timestamp_ms }
