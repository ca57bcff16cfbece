-- ===== src/Source/Tests/Copied.antt =====
-- A data set that is written as JSON and added again, include/measurement.hpp and
-- src/data_source_internal.cpp, at an example.
use qds_data_interface.Prelude.{
  none, List, [], ◌∷◌, ◌++◌, map, length, ◌≡◌, ◌≢◌, refl, inl, arith, All, false,
}
use qds_data_interface.Prelude.Int.{pos, ◌==ℤ◌}
use qds_data_interface.Prelude.Str.{Str, str}
use qds_data_interface.Measurement.{Measurement, foreign_key, text}
use qds_data_interface.Measurement.Json.{JsonObject, measurement_object, to_json}
use qds_data_interface.Parser.{BasicParser}
use qds_data_interface.Parser.Reading.{array_calls}
use qds_data_interface.Parser.RoundTrip.{IsTextual, arranged}
use qds_data_interface.Ring
use qds_data_interface.Ring.{is_mode_0, last_id_ge}
use qds_data_interface.Ring.Window
use qds_data_interface.Ring.Window.{DataSet, content, recent}
use qds_data_interface.Source.Window.{as_stored, IsReadable, adds, adds-recent}
use qds_data_interface.Source.{is_ref, new}
use qds_data_interface.Source.Operations.{add}
use qds_data_interface.Source.Copied.{Accepts, AllPlain, Stores, add-to_json}
use qds_data_interface.Source.Tests.{table, table_laws, disk, clock, config, empty_source}

abbrev part : Measurement
part = record { name = str "Part"; type = foreign_key; unit = str "id"; value = text (str "A7") }

-- Some text.
abbrev serialize : List JsonObject → Str
serialize os = str "[...]"

-- A parser that takes every text for the document of this measurement.
abbrev reader : BasicParser
reader = record {
  calls = λ json. array_calls (map measurement_object (part ∷ []));
  ending = λ json n. (length json, none);
  extra_data = str "extra data";
}

part-named : part.name ≢ []
unfolding str
part-named h = cc h

part-IsTextual : All IsTextual (part ∷ [])
part-IsTextual = ((record { named = part-named; fits = tt }, (str "A7", refl)), tt)

part-AllPlain : AllPlain (part ∷ [])
unfolding is_ref
part-AllPlain = (refl, tt)

in_mode_0 : ¬ (is_mode_0 empty_source.world.ring ≡ false)
unfolding new Ring.new ◌==ℤ◌
in_mode_0 m = cc m

empty-Accepts : Accepts (pos 7) empty_source.world.ring
unfolding new Ring.new last_id_ge
empty-Accepts = record {
  valid = record { bounded = omega arith; distinct = tt; ascending = λ m. tt };
  room = inl (omega arith);
  greater = λ m. refl;
  unlocked = λ m. absurd (in_mode_0 m);
}

add-to_json_example :
    Stores table table_laws disk clock config
      (pos 7)
      (arranged [] (part ∷ []))
      (add table disk clock config reader (pos 7) (to_json serialize (part ∷ [])) empty_source)
add-to_json_example =
    add-to_json table table_laws disk clock config (pos 7) serialize reader (part ∷ []) empty_source
      part-IsTextual part-AllPlain refl refl empty-Accepts

abbrev three : List DataSet
three = (pos 7, part ∷ []) ∷ (pos 8, part ∷ []) ∷ (pos 9, part ∷ []) ∷ []

part-IsReadable : IsReadable reader serialize (part ∷ [])
part-IsReadable = record {
  textual = part-IsTextual;
  plain = part-AllPlain;
  calls = refl;
  whole = refl;
}

three-Accepts : Window.Accepts (map as_stored three) empty_source.world.ring
unfolding new Ring.new ◌==ℤ◌
three-Accepts = record {
  allowed = refl;
  positive = omega arith;
  bounded = omega arith;
  unlocked = tt;
  follows = (
    ((refl, λ m. omega arith), ((refl, λ m. omega arith), tt)),
    (((refl, λ m. omega arith), tt), (tt, tt)),
  );
}

adds-recent_example :
    map content (adds reader serialize table disk clock config three empty_source).world.ring.buffer
    ≡ recent empty_source.world.ring.max_size
        (map content empty_source.world.ring.buffer ++ map as_stored three)
adds-recent_example =
    adds-recent reader serialize table disk clock config three empty_source
      (part-IsReadable, (part-IsReadable, (part-IsReadable, tt))) three-Accepts
