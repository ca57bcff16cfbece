-- ===== src/Validator/Objects.antt =====
-- A parse as a whole, src/parsing/data_validator.cpp and src/parsing/json_parser.hpp: the objects
-- that are opened and closed, and the measurements that are complete.
use qds_data_interface.Prelude.{
  ℕ, suc, ◌+◌, ◌≤◌, Bool, true, false, not, some, List, [], ◌∷◌, ◌++◌, ◌≡◌, ◌⊎◌, inl, inr, refl, ap,
  arith, back, All, Bool-cases, Option-cases,
}
use qds_data_interface.Prelude.Str.{Str}
use qds_data_interface.Exception.{Result, ok, thrown}
use qds_data_interface.Measurement.{Measurement}
use qds_data_interface.Validator.{
  ParserEvent, ParsingState, Verdict, moved_to_front, current, handle_object_begin, handle_key,
  back_to_front, without_back, update_back, find_key, validation,
}
use qds_data_interface.Validator.Values.{handle_value, run_validator, store_value}
use qds_data_interface.Validator.Complete.{
  IsComplete, is_complete, is_complete-IsComplete, IsComplete-is_complete, ended,
}

abbrev count_if : Bool → ℕ
count_if true = 1
count_if false = 0

-- How many measurements are not complete.
unfoldable pub incomplete : List Measurement → ℕ
incomplete [] = 0
incomplete (d ∷ ds) = count_if (not (is_complete d)) + incomplete ds

pub incomplete-zero : (ds : List Measurement) → incomplete ds ≡ 0 → All IsComplete ds
unfolding incomplete
incomplete-zero [] h = tt
incomplete-zero (d ∷ ds) h = elim (Bool-cases (is_complete d)) [
  | inl c ↦ (is_complete-IsComplete d c, incomplete-zero ds (ground arith))
  | inr c ↦ ground arith
]

incomplete-append :
    (ds : List Measurement) (d : Measurement)
    → incomplete (ds ++ d ∷ []) ≡ incomplete ds + count_if (not (is_complete d))
unfolding incomplete
incomplete-append [] d = omega arith
incomplete-append (e ∷ ds) d = omega (arith, incomplete-append ds d)

pub without_back-append :
    (ds : List Measurement) (d : Measurement) → without_back (ds ++ d ∷ []) ≡ ds
unfolding without_back
without_back-append [] d = refl
without_back-append (e ∷ []) d = refl
without_back-append (e ∷ f ∷ ds) d = ap (◌∷◌ e) (without_back-append (f ∷ ds) d)

without_back-update_back :
    (f : Measurement → Measurement) (ds : List Measurement)
    → without_back (update_back f ds) ≡ without_back ds
unfolding without_back update_back
without_back-update_back f [] = refl
without_back-update_back f (e ∷ []) = refl
without_back-update_back f (e ∷ g ∷ []) = refl
without_back-update_back f (e ∷ g ∷ h ∷ ds) = ap (◌∷◌ e) (without_back-update_back f (g ∷ h ∷ ds))

incomplete-back :
    (ds : List Measurement) (d : Measurement)
    → back ds ≡ some d
    → incomplete ds ≡ incomplete (without_back ds) + count_if (not (is_complete d))
unfolding without_back incomplete
incomplete-back [] d h = cc
incomplete-back (e ∷ []) d h = ground arith
incomplete-back (e ∷ f ∷ ds) d h = omega (arith, incomplete-back (f ∷ ds) d h)

incomplete-back_to_front :
    (ds : List Measurement) (d : Measurement)
    → back ds ≡ some d
    → incomplete (back_to_front ds) ≡ incomplete ds
unfolding back_to_front incomplete
incomplete-back_to_front ds d h = rw (h, back_to_front) (omega (arith, incomplete-back ds d h))

-- After `opened` begins and `closed` ends of objects: no more measurements are incomplete than
-- objects are open, the last measurement not counted while its object is open.
pub record Counted (opened closed : ℕ) (st : ParsingState) : Type 0 where
  pub ordered : closed ≤ opened
  pub between : st.current_element_completed ≡ true → incomplete st.measurements + closed ≤ opened
  pub within :
      st.current_element_completed ≡ false
      → (st.measurements ≡ []) ⊎ (incomplete (without_back st.measurements) + suc closed ≤ opened)

current_lem :
    (st : ParsingState) (d : Measurement)
    → current st ≡ some d
    → (st.current_element_completed ≡ false) × (back st.measurements ≡ some d)
unfolding current
current_lem st d h = ground arith

-- `without_back` leaves out at most one.
pub incomplete-le-without_back :
    (ds : List Measurement) → incomplete ds ≤ incomplete (without_back ds) + 1
unfolding incomplete without_back
incomplete-le-without_back [] = omega arith
incomplete-le-without_back (d ∷ []) = ground arith
incomplete-le-without_back (d ∷ e ∷ ds) = omega (arith, incomplete-le-without_back (e ∷ ds))

pub begin-Counted :
    (o c : ℕ) (st : ParsingState) → Counted o c st → Counted (suc o) c (handle_object_begin st).1
unfolding handle_object_begin
begin-Counted o c st k = record {
  ordered = omega (arith, k.ordered);
  between = λ h. cc;
  within = λ _. inr (
      rw without_back-append (elim (Bool-cases st.current_element_completed) [
        | inl t ↦ omega (arith, k.between t)
        | inr f ↦ elim (k.within f) [
          | inl e ↦ rw e (unfold incomplete in omega (arith, k.ordered))
          | inr l ↦ omega (arith, incomplete-le-without_back st.measurements)
        ]
      ]));
}

ended_completed : (v : Verdict) (st : ParsingState) → (ended v st).current_element_completed ≡ true
ended_completed moved_to_front st = refl
ended_completed v st = refl

incomplete-ended :
    (v : Verdict) (st : ParsingState) (d : Measurement)
    → back st.measurements ≡ some d
    → incomplete (ended v st).measurements ≡ incomplete st.measurements
incomplete-ended moved_to_front st d h = incomplete-back_to_front st.measurements d h
incomplete-ended v st d h = refl

pub ended-Counted :
    (o c : ℕ) (st : ParsingState) (d : Measurement) (v : Verdict)
    → Counted o c st
    → current st ≡ some d
    → IsComplete d
    → Counted o (suc c) (ended v st)
ended-Counted o c st d v k h w =
    let (open_now, last) = current_lem st d h in
    let room : incomplete (without_back st.measurements) + suc c ≤ o = elim (k.within open_now) [
      | inl e ↦ nothing_open last e
      | inr l ↦ l
    ] in
    record {
      ordered = omega arith;
      between = λ _. omega (
        arith,
        incomplete-ended v st d last,
        incomplete-back st.measurements d last,
        complete_counts d w,
      );
      within = λ z. cc (z, ended_completed v st);
    }
  where
    nothing_open :
        back st.measurements ≡ some d
        → st.measurements ≡ []
        → incomplete (without_back st.measurements) + suc c ≤ o
    nothing_open p e = cc (ap back e, p)

    complete_counts : (d : Measurement) → IsComplete d → count_if (not (is_complete d)) ≡ 0
    complete_counts d w = rw (IsComplete-is_complete d w)

-- An event between the begin and the end of an object changes the last measurement alone.
pub key-Counted :
    (o c : ℕ) (s : Str) (st : ParsingState) → Counted o c st → Counted o c (handle_key s st).1
unfolding handle_key
key-Counted o c s st k = elim (Option-cases (current st)) [
  | inl e ↦ rw (e, handle_key) k
  | inr (d, e) ↦ elim (Option-cases (find_key s validation)) [
    | inl f ↦ rw (e, f, handle_key) k
    | inr (key, f) ↦
        rw (e, f, handle_key)
          (record { ordered = k.ordered; between = k.between; within = k.within })
  ]
]

stored-Counted :
    (o c : ℕ) (r : Result Measurement) (st : ParsingState)
    → Counted o c st
    → st.current_element_completed ≡ false
    → Counted o c (store_value r st).1
unfolding store_value
stored-Counted o c (thrown e) st k h = k
stored-Counted o c (ok d) st k h = record {
  ordered = k.ordered;
  between = λ z. cc (z, h);
  within = λ z. elim (k.within z) [
    | inl e ↦ inl (rw e (unfold update_back in refl))
    | inr l ↦ inr (rw without_back-update_back l)
  ];
}

pub value-Counted :
    (o c : ℕ) (event : ParserEvent) (st : ParsingState)
    → Counted o c st
    → Counted o c (handle_value event st).1
unfolding handle_value
value-Counted o c event st k = elim (Option-cases (current st)) [
  | inl e ↦ rw (e, handle_value) k
  | inr (d, e) ↦ elim (Bool-cases st.has_key) [
    | inl y ↦
        rw (e, handle_value)
          (simp y
            (stored-Counted o c (run_validator st.validator event d) st k (current_lem st d e).0))
    | inr n ↦ rw (e, handle_value) (simp n k)
  ]
]
