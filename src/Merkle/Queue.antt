-- ===== src/Merkle/Queue.antt =====
-- What VerifyComputeRoot means: the known hashes stand in a queue, and each flag takes the next
-- two of them, or the next of the proof and one of them, and puts the hash of both at the end.
use chainlink_common.Base.{
  ◌+◌, ◌≡◌, ◌≤◌, refl, List, [], ◌∷◌, ◌++◌, Option, none, some, Bool, true, false, length, arith,
  length-append,
}
use chainlink_common.Merkle.Tree.{Hasher}
use chainlink_common.Merkle.Verify.{count_source_flags}

pub count_source_flags-le : (b : Bool) (fs : List Bool) → count_source_flags b fs ≤ length fs
unfolding count_source_flags
count_source_flags-le b [] = omega arith
count_source_flags-le b (f ∷ fs) = ground (arith, count_source_flags-le b fs)

module _ {H : Type 0} (hasher : Hasher H) where
  open hasher use {hash_internal}

  -- The queue and the unused part of the proof behind all flags.
  unfoldable pub process : List Bool → List H → List H → Option (List H × List H)
  process [] q ps = some (q, ps)
  process (true ∷ fs) [] ps = none
  process (true ∷ fs) (a ∷ []) ps = none
  process (true ∷ fs) (a ∷ b ∷ q) ps = process fs (q ++ hash_internal a b ∷ []) ps
  process (false ∷ fs) [] ps = none
  process (false ∷ fs) (b ∷ q) [] = none
  process (false ∷ fs) (b ∷ q) (p ∷ ps) = process fs (q ++ hash_internal p b ∷ []) ps

  -- With as many flags as there are hashes to compute, and as many of the proof's as it has
  -- hashes, the queue never runs dry and one hash is left.
  pub process_total :
      (fs : List Bool) (q ps : List H)
      → count_source_flags false fs ≡ length ps
      → length fs + 1 ≡ length q + length ps
      → (r : H) × (process fs q ps ≡ some (r ∷ [], []))
  unfolding process count_source_flags
  process_total [] [] ps c n = absurd (omega arith)
  process_total [] (a ∷ []) [] c n = (a, refl)
  process_total [] (a ∷ b ∷ q) [] c n = absurd (omega arith)
  process_total [] (a ∷ q) (p ∷ ps) c n = absurd (omega arith)
  process_total (true ∷ fs) [] ps c n = absurd (omega (arith, count_source_flags-le false fs))
  process_total (true ∷ fs) (a ∷ []) ps c n = absurd (omega (arith, count_source_flags-le false fs))
  process_total (true ∷ fs) (a ∷ b ∷ q) ps c n =
      process_total fs (q ++ hash_internal a b ∷ []) ps c
        (omega (arith, length-append q (hash_internal a b ∷ [])))
  process_total (false ∷ fs) [] ps c n = absurd (omega (arith, count_source_flags-le false fs))
  process_total (false ∷ fs) (b ∷ q) [] c n = absurd (omega arith)
  process_total (false ∷ fs) (b ∷ q) (p ∷ ps) c n =
      process_total fs (q ++ hash_internal p b ∷ []) ps (omega arith)
        (omega (arith, length-append q (hash_internal p b ∷ [])))
