-- ===== src/Parallel/Filter/Tests.antt =====
-- Numbers for packets: those from 10 on are taken, and 0 is an emptied packet.
use odp_libtrace.Prelude.{ℕ, ◌≡◌, refl, leb, List, [], ◌∷◌, ◌++◌}
use mathlib.Core.List.{Perm}
use odp_libtrace.Parallel.Filter.{Filter, filter_from, filter_packets}
use odp_libtrace.Parallel.Filter.Partition.{refused, filter_packets-Partitions}

abbrev from_ten : Filter ℕ
from_ten = record { attach = λ p. p; applies = λ p. leb 10 p; fin = λ p. 0 }

abbrev batch : List ℕ
batch = 1 ∷ 11 ∷ 2 ∷ 12 ∷ 13 ∷ []

moved : filter_packets from_ten 0 (batch ++ (4 ∷ [])) 5 ≡ (3, 11 ∷ 12 ∷ 13 ∷ 0 ∷ 0 ∷ 4 ∷ [])
unfolding filter_packets filter_from
moved = refl

filter_packets-Partitions_example :
    (left : List ℕ) × (filter_packets from_ten 0 (batch ++ (4 ∷ [])) 5
      ≡ (3, 11 ∷ 12 ∷ 13 ∷ (left ++ (4 ∷ []))))
    × Perm left (refused from_ten batch)
filter_packets-Partitions_example = filter_packets-Partitions from_ten 0 batch (4 ∷ [])
