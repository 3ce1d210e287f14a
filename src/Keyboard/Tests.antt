-- ===== src/Keyboard/Tests.antt =====
-- Keys typed into a buffer whose indices are about to wrap around.
use serix.Base.{◌≡◌, refl, List, [], ◌∷◌, arith, replicate}
use serix.Keyboard.{RingBuffer}
use serix.Keyboard.Refine.{
  IsValid, contents, Event, scanned, asked, answers, spec_answers, answers_refine,
}

abbrev near_end : RingBuffer
near_end = record { bytes = replicate 128 0; head = 127; tail = 127 }

near_end-IsValid : IsValid near_end
near_end-IsValid = record { storage = refl; write_index = omega arith; read_index = omega arith }

-- q, the release of q, w, then three requests
abbrev typed : List Event
typed = scanned 16 ∷ scanned 144 ∷ scanned 17 ∷ asked ∷ asked ∷ asked ∷ []

answers_refine_example : answers near_end typed ≡ spec_answers (contents near_end) typed
answers_refine_example = answers_refine typed near_end near_end-IsValid
