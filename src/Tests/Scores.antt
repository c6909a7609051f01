-- ===== src/Tests/Scores.antt =====
-- The theorem on peer scores, applied to one peer.
use amunchain.Base.{ℕ, ◌-◌, ◌*◌, ◌/◌, ◌≡◌, refl, [], ◌∷◌, arith}
use amunchain.Order.{nat_ord, bytes_ord}
use amunchain.BtreeMap.{get}
use amunchain.Ints.{pos, negsuc, ◌+ℤ◌, ◌-ℤ◌, ◌*ℤ◌, max_ℤ}
use amunchain.PeerScore.{PeerScore, default_params, observe_good, observe_bad, score_of, bounded}
use amunchain.PeerScore.Exact.{state_of, toward_zero, observe_exact}
use amunchain.Keystore.RateLimiter.{second}

abbrev scores : PeerScore
scores = record {
  params = default_params;
  peers = (1 ∷ [], record { score = negsuc 9; last = 0 }) ∷ [];
}

-- Three minutes later.
abbrev later : ℕ
later = 180 * second

observe_exact_example :
    let old = state_of (1 ∷ []) later scores in
    let rest = toward_zero (1 * ((later - old.last) / second / 60)) old.score in
    let times = max_ℤ (pos 2) (pos 1) in
    (score_of (1 ∷ []) (observe_good (1 ∷ []) later (pos 2) scores).1
      ≡ bounded (rest +ℤ pos 1 *ℤ times))
    × (score_of (1 ∷ []) (observe_bad (1 ∷ []) later (pos 2) scores).1
        ≡ bounded (rest -ℤ pos 5 *ℤ times))
unfolding get
observe_exact_example =
    observe_exact (1 ∷ []) later (pos 2) scores 1 refl (omega arith, omega arith) (omega arith)
