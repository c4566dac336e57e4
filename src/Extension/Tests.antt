-- ===== src/Extension/Tests.antt =====
-- A run of the loop over one extension, the list of curves.
use tinydtls.Extension.{Seen, extension_loop}
use tinydtls.Base.{Bytes, [], arith, false, true, ◌∷◌, ◌≡◌}
use tinydtls.Extension.Laws.{extension_loop-rounds}

abbrev curves : Bytes
curves = 0 ∷ 10 ∷ 0 ∷ 4 ∷ 0 ∷ 2 ∷ 0 ∷ 23 ∷ []

abbrev nothing : Seen
nothing = record {
  elliptic_curve = false;
  client_cert_type = false;
  server_cert_type = false;
  ec_point_formats = false;
}

extension_loop-rounds_example :
    extension_loop 9 true curves 8 nothing ≡ extension_loop 20 true curves 8 nothing
extension_loop-rounds_example =
    extension_loop-rounds 9 20 true curves 8 nothing (omega arith) (omega arith)
