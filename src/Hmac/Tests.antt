-- ===== src/Hmac/Tests.antt =====
-- A run of the HMAC with a hash that pads.
use tinydtls.Base.{concat, Bytes, [], replicate, take, ◌++◌, ◌∷◌, ◌≡◌}
use tinydtls.Hmac.Laws.{hmac, update_all, finalize-update-init}
use tinydtls.Hmac.{init, finalize}

abbrev pub pad_hash : Bytes → Bytes
pad_hash m = take 32 (m ++ replicate 32 0)

finalize-update-init_example :
    finalize pad_hash (update_all (init pad_hash (1 ∷ 2 ∷ [])) ((3 ∷ []) ∷ (4 ∷ 5 ∷ []) ∷ []))
    ≡ hmac pad_hash (1 ∷ 2 ∷ []) (concat ((3 ∷ []) ∷ (4 ∷ 5 ∷ []) ∷ []))
finalize-update-init_example =
    finalize-update-init pad_hash (1 ∷ 2 ∷ []) ((3 ∷ []) ∷ (4 ∷ 5 ∷ []) ∷ [])
