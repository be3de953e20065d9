-- ===== src/Tests/Formats.antt =====
-- The plain format of src/event.rs at a concrete event.
use mathlib.Core.List.Permᴰ
use freeswitch_esl_rs.Prelude.{none, some, [], ◌∷◌, ◌≡◌, refl, arith, Bytes, codes}
use freeswitch_esl_rs.Event.Types.{background_job}
use freeswitch_esl_rs.Event.{EslEvent, to_plain_format}
use freeswitch_esl_rs.Event.Sorted.{to_plain_format-Permᴰ}

-- A percent coding that leaves every byte.
abbrev encode : Bytes → Bytes
encode s = s

abbrev walked : EslEvent
walked = record {
  event_type = some background_job;
  headers =
      (codes "Job", codes "7") ∷ (codes "Core", codes "x") ∷ (codes "Event-Name", codes "E") ∷ [];
  body = some (codes "ok");
}

abbrev walked_otherwise : EslEvent
walked_otherwise = record {
  event_type = none;
  headers =
      (codes "Core", codes "x") ∷ (codes "Job", codes "7") ∷ (codes "Event-Name", codes "E") ∷ [];
  body = some (codes "ok");
}

to_plain_format-Permᴰ_example :
    to_plain_format encode walked ≡ to_plain_format encode walked_otherwise
to_plain_format-Permᴰ_example =
    to_plain_format-Permᴰ encode walked walked_otherwise (Permᴰ.swap refl refl)
      ((ground arith, (ground arith, tt)), ((ground arith, tt), (tt, tt))) refl

test_to_plain_format :
    to_plain_format encode walked ≡ codes "Event-Name: E\nCore: x\nJob: 7\nContent-Length: 2\n\nok"
unfolding to_plain_format
test_to_plain_format = refl
