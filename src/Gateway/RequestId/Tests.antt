-- ===== src/Gateway/RequestId/Tests.antt =====
-- Eight bytes and their id.
use voxplatform.Prelude.{ℕ, ◌≡◌, refl, List, [], ◌∷◌}
use voxplatform.Gateway.RequestId.{generate_request_id}

abbrev random : List ℕ
random = 0 ∷ 1 ∷ 16 ∷ 171 ∷ 205 ∷ 239 ∷ 254 ∷ 255 ∷ []

generated_run : generate_request_id random ≡ "000110abcdeffeff"
unfolding generate_request_id
generated_run = refl
