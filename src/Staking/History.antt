-- ===== src/Staking/History.antt =====
-- src/core/economics/staking.rs: a ledger that starts empty and goes through any sequence of calls,
-- with a tally of what came in and what went out.
use amunchain.Base.{ℕ, ◌+◌, Bytes, Result, ok, err, List, [], ◌∷◌}
use amunchain.Order.{bytes_ord, pair_ord}
use amunchain.Staking.{
  StakingLedger, bond, begin_unbond, finalize_unbond, slash_validator, distribute_rewards,
}

-- The calls that the ledger answers.
pub data Call : Type 0 where
  bond_call : (delegator validator : Bytes) (amount : ℕ) → Call
  unbond_call : (delegator validator : Bytes) (amount now_unix : ℕ) → Call
  finalize_call : (delegator validator : Bytes) (now_unix : ℕ) → Call
  slash_call : (validator : Bytes) (fraction_bps : ℕ) → Call
  reward_call : (validator : Bytes) (total_reward : ℕ) → Call

-- The ledger, with the sums of the bonds that were accepted, of the rewards that were handed in, of
-- what was paid back and of what was slashed.
pub record Account : Type 0 where
  pub ledger : StakingLedger
  pub deposited : ℕ
  pub rewarded : ℕ
  pub paid : ℕ
  pub slashed : ℕ

abbrev pub opening : Account
opening = record {
  ledger = record { validators = []; delegations = []; unbonding = [] };
  deposited = 0;
  rewarded = 0;
  paid = 0;
  slashed = 0;
}

-- What a call brings in, what it pays out and what it slashes.
abbrev pub accepted {ℓ κ} : {E : Type ℓ} {A : Type κ} → ℕ → Result E A → ℕ
accepted amount (ok _) = amount
accepted amount (err _) = 0

abbrev pub released {ℓ} : {E : Type ℓ} → Result E ℕ → ℕ
released (ok amount) = amount
released (err _) = 0

unfoldable pub serve : Call → Account → Account
serve (bond_call d v amount) a =
    let (r, l) = bond d v amount a.ledger in
    record a { ledger = l; deposited = a.deposited + accepted amount r }
serve (unbond_call d v amount now) a = record a {
  ledger = (begin_unbond d v amount now a.ledger).1;
}
serve (finalize_call d v now) a =
    let (r, l) = finalize_unbond d v now a.ledger in
    record a { ledger = l; paid = a.paid + released r }
serve (slash_call v bps) a =
    let (total, l) = slash_validator v bps a.ledger in
    record a { ledger = l; slashed = a.slashed + total }
serve (reward_call v reward) a = record a {
  ledger = distribute_rewards v reward a.ledger;
  rewarded = a.rewarded + reward;
}

unfoldable pub serve_all : List Call → Account → Account
unfolding serve
serve_all [] a = a
serve_all (c ∷ cs) a = serve_all cs (serve c a)
