-- ===== src/Element/Examples.antt =====
-- Digests and splices.
use ndn_sim.Prelude.{◌≡◌, refl, [], ◌∷◌, ◌++◌, some, arith}
use ndn_sim.Element.{Digest, Splice, hex, octets, unhex, spliced}
use ndn_sim.Element.Digest.{unhex-hex}
use ndn_sim.Element.Text.{undo, spliced-undo}

abbrev eight : Digest
eight = 0 ∷ 1 ∷ 15 ∷ 16 ∷ 171 ∷ 205 ∷ 239 ∷ 255 ∷ []

abbrev digest : Digest
digest = (eight ++ eight) ++ (eight ++ eight)

spelling : hex (171 ∷ 5 ∷ []) ≡ 97 ∷ 98 ∷ 48 ∷ 53 ∷ []
unfolding hex
spelling = refl

-- A plus sign is read over: "+5" is an octet, though no digest is spelled so.
plus : octets (43 ∷ 53 ∷ []) ≡ some (5 ∷ [])
unfolding octets
plus = refl

unhex-hex_example : unhex (hex digest) ≡ some digest
unhex-hex_example = unhex-hex digest (ground arith) refl

abbrev splice : Splice
splice = record { at = 1; remove = 9; insert = 7 ∷ 8 ∷ [] }

past_the_end : spliced (1 ∷ 2 ∷ 3 ∷ []) splice ≡ 1 ∷ 7 ∷ 8 ∷ []
unfolding spliced
past_the_end = refl

spliced-undo_example :
    spliced (spliced (1 ∷ 2 ∷ 3 ∷ []) splice) (undo (1 ∷ 2 ∷ 3 ∷ []) splice) ≡ 1 ∷ 2 ∷ 3 ∷ []
unfolding spliced
spliced-undo_example = spliced-undo (1 ∷ 2 ∷ 3 ∷ []) splice (omega arith)
