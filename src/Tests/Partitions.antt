-- ===== src/Tests/Partitions.antt =====
-- Packing and ordering of three chunks, of weights 3, 4 and 2.
use gleanflow.Prelude.{ℕ, ◌≡◌, refl, List, [], ◌∷◌, map}
use gleanflow.Float.{nat_float}
use gleanflow.Partition.{
  Chunk, pack, pack_loop, place, take_in, flush, packed, nonempty, insert_heavy, heaviest_first,
}
use gleanflow.Partition.Pack.{IsPacking, pack-IsPacking}

abbrev three : List (Chunk ℕ)
three =
    record { id = "a"; params = []; weight = 3 }
    ∷ record { id = "b"; params = []; weight = 4 }
    ∷ record { id = "c"; params = []; weight = 2 }
    ∷ []

abbrev weigh : Chunk ℕ → ℕ
weigh c = c.weight

pack-IsPacking_example : IsPacking "c" 6 three (pack three 6 "c")
pack-IsPacking_example = pack-IsPacking three 6 "c" refl

-- 3 and 4 are above 6 together, 4 and 2 are not.
pack_ids : map (λ c. c.weight) (pack three 6 "c") ≡ 3 ∷ 6 ∷ []
unfolding pack pack_loop place take_in flush packed nonempty
pack_ids = refl

heaviest : map (λ c. c.id) (heaviest_first weigh three) ≡ "b" ∷ "a" ∷ "c" ∷ []
unfolding heaviest_first insert_heavy
heaviest = refl
