-- ===== src/PeerScore/Streak.antt =====
-- src/networking/peer_score.rs: a peer that keeps misbehaving.
use Prim.Native.Nat.{min}
use amunchain.Base.{
  ℕ, zero, suc, ◌+◌, ◌-◌, ◌*◌, ◌/◌, ◌≤◌, ◌≡◌, ◌∙◌, refl, sym, ap, Bytes, true, none, if◌then◌else◌,
  arith, leb,
}
use amunchain.Order.{bytes_ord}
use amunchain.BtreeMap.{get, get-insert_self}
use amunchain.Ints.{
  ℤ, pos, diff, ◌-ℤ◌, ◌*ℤ◌, ◌≤ℤ◌, leb_ℤ, ltb_ℤ, max_ℤ, saturate, wrap_i32, wrap_i32_same,
}
use amunchain.Keystore.RateLimiter.{second}
use amunchain.PeerScore.{
  PeerScore, PeerState, ScoreParams, throttle, ban, decay_inner, decision_from_score, bounded,
  observe_bad, score_of, put_peer,
}
use amunchain.PeerScore.Exact.{state_of, IsBounded, bounded-saturate_sub, score_of-put_peer}

-- `n` bad observations of a peer at one time.
unfoldable pub bads : Bytes → ℕ → ℤ → ℕ → PeerScore → PeerScore
unfolding observe_bad
bads peer now weight zero s = s
bads peer now weight (suc n) s = (observe_bad peer now weight (bads peer now weight n s)).1

-- The score after losses of `total` from zero.
abbrev fallen : ℕ → ℤ
fallen total = diff 0 (min 1000 total)

decay_inner-now :
    (params : ScoreParams) (now : ℕ) (x : ℤ)
    → decay_inner params now (record { score = x; last = now }) ≡ record { score = x; last = now }
unfolding decay_inner
decay_inner-now params now x = let none' : (now - now) / second / 60 ≡ 0 = omega arith in rw (none')

one_more : (total b : ℕ) → bounded (fallen total -ℤ pos b) ≡ fallen (b + total)
unfolding ◌-ℤ◌
one_more total b = ground arith

once : (b : ℕ) (weight : ℤ) → weight ≤ℤ pos 1 → pos b *ℤ max_ℤ weight (pos 1) ≡ pos b
unfolding ◌*ℤ◌
once b weight h = let one : max_ℤ weight (pos 1) ≡ pos 1 = ground arith in rw (one) (ground arith)

threshold_i32 : (t : ℕ) → t ≤ 1000 → wrap_i32 (pos 0 -ℤ pos t) ≡ diff 0 t
unfolding ◌-ℤ◌
threshold_i32 t h = wrap_i32_same (pos 0 -ℤ pos t) (ground arith) (ground arith) ∙ ground arith

decision_fallen :
    (params : ScoreParams) (t total : ℕ)
    → params.ban_threshold ≡ pos t
    → t ≤ 1000
    → 1 ≤ total
    → decision_from_score params (fallen total) ≡ (if leb t total then ban else throttle)
unfolding decision_from_score
decision_fallen params t total e small some' =
    let limit : wrap_i32 (pos 0 -ℤ params.ban_threshold) ≡ diff 0 t =
      rw (e) (threshold_i32 t small) in
    let same : leb_ℤ (fallen total) (diff 0 t) ≡ leb t total = ground arith in
    let low : ltb_ℤ (fallen total) (pos 0) ≡ true = ground arith in
    rw (decision_from_score, limit, same, low)

fallen-IsBounded : (total : ℕ) → IsBounded (fallen total)
fallen-IsBounded total = ground arith

product_suc : (n b : ℕ) → suc n * b ≡ b + n * b
product_suc n b = omega arith

state_of-put_peer :
    (peer : Bytes) (now : ℕ) (st : PeerState) (s : PeerScore)
    → state_of peer now (put_peer peer st s) ≡ st
state_of-put_peer peer now st s = rw (get-insert_self peer st s.peers)

-- One loss of `b` from a state of now.
lose :
    (params : ScoreParams) (now : ℕ) (weight : ℤ) (st : PeerState) (total b : ℕ)
    → params.bad_inc ≡ pos b
    → weight ≤ℤ pos 1
    → st ≡ record { score = fallen total; last = now }
    → let st' = decay_inner params now st in
      record st' {
        score = bounded (saturate (st'.score -ℤ saturate (params.bad_inc *ℤ max_ℤ weight (pos 1))));
      }
      ≡ record { score = fallen (b + total); last = now }
lose params now weight st total b costs light h =
    let after : PeerState = record { score = fallen total; last = now } in
    let still : decay_inner params now st ≡ after =
      ap (λ x. decay_inner params now x) h ∙ decay_inner-now params now (fallen total) in
    let loss : params.bad_inc *ℤ max_ℤ weight (pos 1) ≡ pos b = rw (costs) (once b weight light) in
    let score : bounded (saturate (fallen total -ℤ saturate (pos b))) ≡ fallen (b + total) =
      bounded-saturate_sub (fallen total) (pos b) (fallen-IsBounded total) ∙ one_more total b in
    rw (still, loss, score)

module _ (peer : Bytes) (now : ℕ) (weight : ℤ) (s : PeerScore) (b t : ℕ) where
  -- After `n` observations, the peer's state and the parameters.
  abbrev Streak : ℕ → Type 0
  Streak n =
      let s' = bads peer now weight n s in
      (state_of peer now s' ≡ record { score = fallen (n * b); last = now })
      × (s'.params ≡ s.params)

  bads-Streak :
      s.params.bad_inc ≡ pos b → weight ≤ℤ pos 1 → get peer s.peers ≡ none → (n : ℕ) → Streak n
  unfolding bads observe_bad
  bads-Streak costs light unknown zero =
      let none' : fallen (0 * b) ≡ pos 0 = ground arith in (rw (unknown, none'), refl)
  bads-Streak costs light unknown (suc n) =
      let s1 = bads peer now weight n s in
      let (old, par) = bads-Streak costs light unknown n in
      (
        state_of-put_peer peer now _ s1
            ∙ (lose s1.params now weight (state_of peer now s1) (n * b) b
                  (ap (λ p. p.bad_inc) par ∙ costs) light old
                ∙ ap (λ x. record { score = fallen x; last = now }) (sym (product_suc n b))),
        par,
      )

  -- A peer without a score that is observed to be bad any number of times at one moment, with
  -- weights of at most one, loses b for each of them down to -1000; an observation throttles the
  -- peer while the losses are below the threshold and bans it from then on, if b is at least 1 and
  -- the threshold at most 1000.
  pub bad_streak :
      (n : ℕ)
      → s.params.bad_inc ≡ pos b
      → s.params.ban_threshold ≡ pos t
      → 1 ≤ b
      → t ≤ 1000
      → weight ≤ℤ pos 1
      → get peer s.peers ≡ none
      → let (decision, s') = observe_bad peer now weight (bads peer now weight n s) in
        (score_of peer s' ≡ diff 0 (min 1000 (suc n * b)))
        × (decision ≡ (if leb t (suc n * b) then ban else throttle))
  unfolding observe_bad
  bad_streak n costs limit some' small light unknown =
      let s1 = bads peer now weight n s in
      let (old, par) = bads-Streak costs light unknown n in
      let lost =
        lose s1.params now weight (state_of peer now s1) (n * b) b (ap (λ p. p.bad_inc) par ∙ costs)
          light old in
      let score = ap (λ st. st.score) lost ∙ ap (λ x. fallen x) (sym (product_suc n b)) in
      (
        score_of-put_peer peer _ s1 ∙ score,
        ap (λ x. decision_from_score s1.params x) score
            ∙ decision_fallen s1.params t (suc n * b) (ap (λ p. p.ban_threshold) par ∙ limit) small
                (omega (arith, product_suc n b)),
      )
