-- ===== src/Storage/Election/Sum.antt =====
-- The sum of the election values against the range of io::RandomNumberGenerator: no wrap occurs.
use blockchain_messaging_sys.Prelude.{ℕ, ◌+◌, ◌*◌, ◌^◌, ◌≤◌, ◌<◌, ◌≡◌, [], ◌∷◌, All, arith, length}
use blockchain_messaging_sys.Storage.State.{Contexts, entry}
use blockchain_messaging_sys.Storage.Election.{sign_extend, add_to_int, accumulate}
use blockchain_messaging_sys.Storage.Election.Votes.{votes, total}

-- UINT16_MAX of `std::uniform_int_distribution<std::uint64_t> generator{1, UINT16_MAX}`
abbrev pub highest_value : ℕ
highest_value = 65535

add_to_int_exact : (p v : ℕ) → p + v < 2 ^ 31 → add_to_int p v ≡ p + v
unfolding add_to_int sign_extend
add_to_int_exact p v h = ground arith

accumulate-total :
    (p now slot : ℕ) (cs : Contexts)
    → p + total (votes now slot cs) < 2 ^ 31
    → accumulate p now slot cs ≡ p + total (votes now slot cs)
unfolding accumulate
accumulate-total p now slot [] h = omega arith
accumulate-total p now slot ((a, row) ∷ cs) h =
    let v : ℕ = (entry now slot row).election_value in
    let exact : add_to_int p v ≡ p + v = add_to_int_exact p v (omega arith) in
    rw exact (omega (arith, accumulate-total (p + v) now slot cs (omega arith)))

total_bound :
    (now slot : ℕ) (cs : Contexts)
    → All (λ v. v.1 ≤ highest_value) (votes now slot cs)
    → total (votes now slot cs) ≤ length cs * highest_value
total_bound now slot [] h = omega arith
total_bound now slot ((a, row) ∷ cs) h = omega (arith, total_bound now slot cs h.1, h.0)

-- Among at most 32768 known nodes whose election values are not above the greatest number that the
-- generator draws, the `int` in which the values are summed is never too small: the result is their
-- sum, and it is below 2 ^ 31.
pub accumulate_exact :
    (now slot : ℕ) (cs : Contexts)
    → All (λ v. v.1 ≤ highest_value) (votes now slot cs)
    → length cs ≤ 32768
    → (accumulate 0 now slot cs ≡ total (votes now slot cs)) × (accumulate 0 now slot cs < 2 ^ 31)
accumulate_exact now slot cs h few =
    let bound : total (votes now slot cs) < 2 ^ 31 = omega (arith, total_bound now slot cs h) in
    let exact : accumulate 0 now slot cs ≡ total (votes now slot cs) =
      omega (arith, accumulate-total 0 now slot cs (omega (arith, bound))) in
    (exact, omega (arith, exact))
