-- ===== src/Types/Examples.antt =====
-- Payloads at concrete contents.
use emq.Base.{◌≡◌, some, [], ◌∷◌}
use emq.Types.Payload.{of_pointer, of_vector, size, to_vector, to_vector-of_pointer}

to_vector-of_pointer_example :
    (to_vector (of_pointer (some (1 ∷ 2 ∷ []))) ≡ 1 ∷ 2 ∷ [])
    × (to_vector (of_vector (1 ∷ 2 ∷ [])) ≡ 1 ∷ 2 ∷ [])
    × (size (of_pointer (some (1 ∷ 2 ∷ []))) ≡ 2)
    × (size (of_vector (1 ∷ 2 ∷ [])) ≡ 2)
to_vector-of_pointer_example = to_vector-of_pointer (1 ∷ 2 ∷ [])
