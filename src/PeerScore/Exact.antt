-- ===== src/PeerScore/Exact.antt =====
-- src/networking/peer_score.rs: scores without the detour through machine integers.
use amunchain.Base.{
  ℕ, ◌-◌, ◌*◌, ◌/◌, ◌%◌, ◌^◌, ◌<◌, ◌≡◌, ◌∙◌, sym, ap, Bytes, true, if◌then◌else◌, arith, ltb,
  Bool-cases, inl, inr,
}
use amunchain.Order.{bytes_ord}
use amunchain.BtreeMap.{get_or, get-insert_self}
use amunchain.Ints.{
  ℤ, pos, negsuc, ◌+ℤ◌, ◌-ℤ◌, ◌*ℤ◌, ◌≤ℤ◌, leb_ℤ, ltb_ℤ, max_ℤ, min_ℤ, saturate, to_i32, wrap_i32,
  wrap_i32_same,
}
use amunchain.Keystore.RateLimiter.{second}
use amunchain.PeerScore.{
  PeerScore, PeerState, ScoreParams, minutes_since, decayed, decay_inner, bounded, observe_good,
  observe_bad, score_of, fresh_state, put_peer,
}

-- An integer brought nearer to zero by `d`, but not past it.
abbrev pub toward_zero : ℕ → ℤ → ℤ
toward_zero d (pos n) = pos (n - d)
toward_zero d (negsuc n) = if ltb n d then pos 0 else negsuc (n - d)

-- A score in the range that every observation leaves.
abbrev pub IsBounded : ℤ → Type 0
IsBounded x = (negsuc 999 ≤ℤ x) × (x ≤ℤ pos 1000)

bounded-saturate_add :
    (x y : ℤ) → IsBounded x → bounded (saturate (x +ℤ saturate y)) ≡ bounded (x +ℤ y)
unfolding ◌+ℤ◌
bounded-saturate_add x y h = ground arith

pub bounded-saturate_sub :
    (x y : ℤ) → IsBounded x → bounded (saturate (x -ℤ saturate y)) ≡ bounded (x -ℤ y)
unfolding ◌-ℤ◌
bounded-saturate_sub x y h = ground arith

mul_pos : (k m : ℕ) → pos k *ℤ pos m ≡ pos (k * m)
unfolding ◌*ℤ◌
mul_pos k m = ground arith

-- The two branches of the decay, for a loss `d` that is not negative.
decay_above :
    (x : ℤ) (d : ℕ)
    → IsBounded x
    → ltb_ℤ (pos 0) x ≡ true
    → max_ℤ (wrap_i32 (x -ℤ saturate (pos d))) (pos 0) ≡ toward_zero d x
unfolding ◌-ℤ◌
decay_above (pos n) d h l =
    let in_range = wrap_i32_same (pos n -ℤ saturate (pos d)) (ground arith) (ground arith) in
    rw (in_range) (ground arith)
decay_above (negsuc n) d h l = absurd (ground arith)

decay_below :
    (x : ℤ) (d : ℕ)
    → IsBounded x
    → ltb_ℤ x (pos 0) ≡ true
    → min_ℤ (wrap_i32 (x +ℤ saturate (pos d))) (pos 0) ≡ toward_zero d x
unfolding ◌+ℤ◌
decay_below (pos n) d h l = absurd (ground arith)
decay_below (negsuc n) d h l =
    let in_range = wrap_i32_same (negsuc n +ℤ saturate (pos d)) (ground arith) (ground arith) in
    rw (in_range) (ground arith)

pub toward_zero-0 : (x : ℤ) → toward_zero 0 x ≡ x
toward_zero-0 (pos n) = ground arith
toward_zero-0 (negsuc n) = ground arith

to_i32_small : (m : ℕ) → m < 2 ^ 31 → to_i32 m ≡ pos m
to_i32_small m h =
    let e : m % 2 ^ 32 ≡ m = omega arith in
    let small : ltb m (2 ^ 31) ≡ true = ground arith in rw (e, small)

toward_zero-IsBounded : (d : ℕ) (x : ℤ) → IsBounded x → IsBounded (toward_zero d x)
toward_zero-IsBounded d (pos n) h = ground arith
toward_zero-IsBounded d (negsuc n) h = ground arith

decayed-toward_zero : (d : ℕ) (x : ℤ) → IsBounded x → decayed (saturate (pos d)) x ≡ toward_zero d x
unfolding decayed
decayed-toward_zero d x h = elim (Bool-cases (ltb_ℤ (pos 0) x)) [
  | inl up ↦ rw (decayed, up) (decay_above x d h up)
  | inr up ↦ elim (Bool-cases (ltb_ℤ x (pos 0))) [
    | inl down ↦ rw (decayed, up, down) (decay_below x d h down)
    | inr down ↦
        let zero' : x ≡ pos 0 = ground arith in
        rw (decayed, up, down) (zero' ∙ (ground arith ∙ ap (toward_zero d) (sym zero')))
  ]
]

not_later : (m : ℕ) (x : ℤ) → x ≡ pos m → leb_ℤ x (pos 0) ≡ true → m ≡ 0
not_later m (pos n) e h = let same : n ≡ m = cc e in ground arith
not_later m (negsuc n) e h = absurd (cc e)

module _ (params : ScoreParams) (k : ℕ) (decays : params.decay_per_min ≡ pos k) where
  pub decay_inner-score :
      (now : ℕ) (st : PeerState)
      → IsBounded st.score
      → (now - st.last) / second / 60 < 2 ^ 31
      → (decay_inner params now st).score
        ≡ toward_zero (k * ((now - st.last) / second / 60)) st.score
  unfolding decay_inner
  decay_inner-score now st h early =
      let m = (now - st.last) / second / 60 in
      let mins : minutes_since st.last now ≡ pos m = to_i32_small m early in
      let loss : params.decay_per_min *ℤ minutes_since st.last now ≡ pos (k * m) =
        rw (decays, mins) (mul_pos k m) in
      elim (Bool-cases (leb_ℤ (minutes_since st.last now) (pos 0))) [
        | inl e ↦
            let still : k * m ≡ 0 =
              ap (λ x. k * x) (not_later m (minutes_since st.last now) mins e) ∙ omega arith in
            rw (decay_inner, e, still) (sym (toward_zero-0 st.score))
        | inr e ↦ rw (decay_inner, e, loss) (decayed-toward_zero (k * m) st.score h)
      ]

pub score_of-put_peer :
    (peer : Bytes) (st : PeerState) (s : PeerScore) → score_of peer (put_peer peer st s) ≡ st.score
unfolding score_of
score_of-put_peer peer st s = rw (score_of, get-insert_self peer st s.peers)

-- A peer's state before an observation at `now`.
abbrev pub state_of : Bytes → ℕ → PeerScore → PeerState
state_of peer now s = get_or (fresh_state now) peer s.peers

-- An observation does to a peer's score what the same arithmetic on unbounded integers does: the
-- old score, brought nearer to zero by the decay for the whole minutes that passed, plus the gain
-- or less the loss for the weight, cut to -1000 and 1000; if the decay per minute is not negative,
-- the old score is in that range and fewer than 2^31 minutes passed.
pub observe_exact :
    (peer : Bytes) (now : ℕ) (weight : ℤ) (s : PeerScore) (k : ℕ)
    → s.params.decay_per_min ≡ pos k
    → IsBounded (state_of peer now s).score
    → (now - (state_of peer now s).last) / second / 60 < 2 ^ 31
    → let old = state_of peer now s in
      let rest = toward_zero (k * ((now - old.last) / second / 60)) old.score in
      let times = max_ℤ weight (pos 1) in
      (score_of peer (observe_good peer now weight s).1
        ≡ bounded (rest +ℤ s.params.good_inc *ℤ times))
      × (score_of peer (observe_bad peer now weight s).1
          ≡ bounded (rest -ℤ s.params.bad_inc *ℤ times))
unfolding observe_good observe_bad
observe_exact peer now weight s k decays h early =
    let old = state_of peer now s in
    let d = k * ((now - old.last) / second / 60) in
    let rest = decay_inner-score s.params k decays now old h early in
    let bound = toward_zero-IsBounded d old.score h in
    let times = max_ℤ weight (pos 1) in
    (
      score_of-put_peer peer _ s
          ∙ (ap (λ x. bounded (saturate (x +ℤ saturate (s.params.good_inc *ℤ times)))) rest
              ∙ bounded-saturate_add (toward_zero d old.score) (s.params.good_inc *ℤ times) bound),
      score_of-put_peer peer _ s
          ∙ (ap (λ x. bounded (saturate (x -ℤ saturate (s.params.bad_inc *ℤ times)))) rest
              ∙ bounded-saturate_sub (toward_zero d old.score) (s.params.bad_inc *ℤ times) bound),
    )
