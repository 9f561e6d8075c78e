-- ===== src/Tests/Regions.antt =====
-- The witnesses of the properties of the accesses to a region.
use tee_dist.Base.{
  ◌≢◌, [], arith, length, none, read_range, refl, some, ℕ, ◌+◌, ◌<◌, ◌∷◌, ◌≡◌, ◌≤◌, ◌⊎◌,
}
use tee_dist.Region.{Region, cas64, read_bytes, word_at, write_bytes}
use tee_dist.Region.Access.{
  Apart, IsMapped, cas64_lem, read_bytes_lem, read_bytes_wraps, swapped, write_bytes_lem,
}
use tee_dist.Tests.Toy.{toy_region, toy_region-NodeFits}

read_bytes_lem_example :
    ((1120 < 1100 + 16) × (read_bytes toy_region 1100 16 ≡ none))
    ⊎ ((1100 + 16 ≤ 1120)
        × (read_bytes toy_region 1100 16 ≡ some (read_range toy_region.memory 1100 16))
        × (length (read_range toy_region.memory 1100 16) ≡ 16))
read_bytes_lem_example = read_bytes_lem toy_region 1100 16 toy_region-NodeFits.mapped (omega arith)

write_bytes_lem_example :
    (r' : Region) × (write_bytes toy_region 96 (1 ∷ 2 ∷ []) ≡ some r')
    × IsMapped r'
    × (read_bytes r' 96 2 ≡ some (1 ∷ 2 ∷ []))
    × ((o n : ℕ) → Apart o n 96 2 → read_bytes r' o n ≡ read_bytes toy_region o n)
write_bytes_lem_example =
    write_bytes_lem toy_region 96 (1 ∷ 2 ∷ []) toy_region-NodeFits.mapped (omega arith)

cas64_lem_example :
    (r' : Region) × (cas64 toy_region 88 0 5 ≡ some (word_at 8 toy_region.memory 88, r'))
    × IsMapped r'
    × (r'.mapped_bytes ≡ 1120)
    × (word_at 8 r'.memory 88 ≡ swapped (word_at 8 toy_region.memory 88) 0 5)
    × ((o n : ℕ) → Apart o n 88 8 → read_range r'.memory o n ≡ read_range toy_region.memory o n)
cas64_lem_example =
    cas64_lem toy_region 88 0 5 toy_region-NodeFits.mapped (omega arith) refl (omega arith)

read_bytes_wraps_example : read_bytes toy_region 18446744073709551608 16 ≢ none
read_bytes_wraps_example =
    read_bytes_wraps toy_region 18446744073709551608 16 (omega arith) (omega arith) (omega arith)
      (omega arith)
