-- ===== src/Scheduler/Decision/Choice.antt =====
-- src/scheduler/src/decision.rs, `pick_strategy`: the choice in terms of the two costs, and the
-- degenerate inputs.
use spanker.Common.{
  ℕ, ◌≤◌, ◌<◌, ◌≡◌, refl, ◌⊎◌, inl, inr, ◌∙◌, ltb→ge, true, false, ltb, ◌==◌, if◌then◌else◌,
  Bool-cases, eq_false, word_max, arith,
}
use spanker.Float64.{F64, finite, infinity, div, le, of_u64}
use spanker.Float64.Numbers.{
  IsNumber, le_total, of_u64-IsNumber, add-IsNumber, div-IsNumber, of_u64_pos, infinity-add,
  add-infinity, infinity-div,
}
use spanker.Scheduler.Decision.{
  TileShape, tensor_parallel, model_parallel, weight_bytes, activation_bytes, seconds, tp_cost,
  mp_cost, pick_strategy,
}

abbrev pub weight_seconds : TileShape → ℕ → F64
weight_seconds tile local_ddr_bw = seconds (weight_bytes tile) local_ddr_bw

abbrev pub activation_seconds : TileShape → ℕ → F64
activation_seconds tile intercard_bw = seconds (activation_bytes tile) intercard_bw

seconds-IsNumber : (bytes bw : ℕ) → bw ≤ word_max → IsNumber (seconds bytes bw)
unfolding seconds le
seconds-IsNumber bytes bw h = elim (Bool-cases (bw == 0)) [
  | inl zero_bw ↦ rw zero_bw refl
  | inr some_bw ↦
      let (u, p, e) = of_u64_pos bw (ground arith) h in
      rw some_bw (rw e (div-IsNumber (of_u64 bytes) u (of_u64-IsNumber bytes) p))
]

seconds_none : (bytes bw : ℕ) → bw ≡ 0 → seconds bytes bw ≡ infinity
unfolding seconds
seconds_none bytes bw e = rw e refl

module _ (n : ℕ) (p : 0 < n) (h : n ≤ word_max) (weight activation : F64) (hw : IsNumber weight)
    (ha : IsNumber activation) where
  tp_cost-IsNumber : IsNumber (tp_cost weight activation n)
  unfolding tp_cost
  tp_cost-IsNumber =
      let (u, pos, e) = of_u64_pos n p h in
      add-IsNumber (div weight (of_u64 n)) activation (rw e (div-IsNumber weight u hw pos)) ha

  mp_cost-IsNumber : IsNumber (mp_cost weight activation n)
  unfolding mp_cost
  mp_cost-IsNumber =
      let (u, pos, e) = of_u64_pos n p h in
      add-IsNumber weight (div activation (of_u64 n)) hw (rw e (div-IsNumber activation u ha pos))

-- Where the weight or the activation seconds are infinite, so are both costs.
infinite_weight :
    (n : ℕ) (activation : F64)
    → 0 < n
    → n ≤ word_max
    → IsNumber activation
    → le (tp_cost infinity activation n) (mp_cost infinity activation n) ≡ true
unfolding tp_cost mp_cost le
infinite_weight n activation p h ha =
    let (u, pos, e) = of_u64_pos n p h in
    rw
      (
        e,
        infinity-div u,
        infinity-add activation ha,
        infinity-add (div activation (finite u)) (div-IsNumber activation u ha pos),
      )
      refl

infinite_activation :
    (n : ℕ) (weight : F64)
    → 0 < n
    → n ≤ word_max
    → IsNumber weight
    → le (tp_cost weight infinity n) (mp_cost weight infinity n) ≡ true
unfolding tp_cost mp_cost le
infinite_activation n weight p h hw =
    let (u, pos, e) = of_u64_pos n p h in
    rw
      (
        e,
        infinity-div u,
        add-infinity weight hw,
        add-infinity (div weight (finite u)) (div-IsNumber weight u hw pos),
      )
      refl

module _ (tile : TileShape) (n_sails local_ddr_bw intercard_bw : ℕ) where
  -- The costs that `pick_strategy` compares.
  abbrev pub tile_tp_cost : F64
  tile_tp_cost =
      tp_cost (weight_seconds tile local_ddr_bw) (activation_seconds tile intercard_bw) n_sails

  abbrev pub tile_mp_cost : F64
  tile_mp_cost =
      mp_cost (weight_seconds tile local_ddr_bw) (activation_seconds tile intercard_bw) n_sails

  pick_strategy_few :
      n_sails ≤ 1 → pick_strategy tile n_sails local_ddr_bw intercard_bw ≡ tensor_parallel
  unfolding pick_strategy
  pick_strategy_few h = ground arith

  pub pick_strategy_many :
      2 ≤ n_sails
      → pick_strategy tile n_sails local_ddr_bw intercard_bw
        ≡ (if le tile_tp_cost tile_mp_cost then tensor_parallel else model_parallel)
  unfolding pick_strategy
  pick_strategy_many h =
      let many : ltb n_sails 1 ≡ false = ground arith in
      rw (many, pick_strategy, eq_false n_sails 1 (omega arith)) refl

  -- The three ways to choose, each with its condition.
  abbrev pub ChoiceOutcome : Type 0
  ChoiceOutcome =
      ((n_sails ≤ 1) × (pick_strategy tile n_sails local_ddr_bw intercard_bw ≡ tensor_parallel))
      ⊎ ((2 ≤ n_sails)
          × (le tile_tp_cost tile_mp_cost ≡ true)
          × (pick_strategy tile n_sails local_ddr_bw intercard_bw ≡ tensor_parallel))
      ⊎ ((2 ≤ n_sails)
          × (le tile_mp_cost tile_tp_cost ≡ true)
          × (le tile_tp_cost tile_mp_cost ≡ false)
          × (pick_strategy tile n_sails local_ddr_bw intercard_bw ≡ model_parallel))

  module _ (h : n_sails ≤ word_max) (hd : local_ddr_bw ≤ word_max)
      (hc : intercard_bw ≤ word_max) where
    costs_total :
        2 ≤ n_sails → (le tile_tp_cost tile_mp_cost ≡ true) ⊎ (le tile_mp_cost tile_tp_cost ≡ true)
    costs_total p =
        let w = weight_seconds tile local_ddr_bw in
        let a = activation_seconds tile intercard_bw in
        let hw = seconds-IsNumber (weight_bytes tile) local_ddr_bw hd in
        let ha = seconds-IsNumber (activation_bytes tile) intercard_bw hc in
        let pos : 0 < n_sails = omega arith in
        le_total tile_tp_cost tile_mp_cost (tp_cost-IsNumber n_sails pos h w a hw ha)
          (mp_cost-IsNumber n_sails pos h w a hw ha)

    -- For `u64` arguments the costs are always ordered, so the choice is never for want of an order:
    -- a single sail, or none, is tensor-parallel; otherwise tensor-parallel is chosen where its cost
    -- is at most the other one, and model-parallel where its cost is at most the other one and the
    -- converse does not hold.
    pub pick_strategy-cases : ChoiceOutcome
    pick_strategy-cases = elim (Bool-cases (ltb n_sails 2)) [
      | inl few ↦ inl (ground arith, pick_strategy_few (ground arith))
      | inr many ↦
          let p = ltb→ge n_sails 2 many in
          elim (Bool-cases (le tile_tp_cost tile_mp_cost)) [
            | inl tp ↦ inr (inl (p, tp, pick_strategy_many p ∙ rw tp refl))
            | inr mp ↦
                let total = costs_total p in
                inr (inr (p, ground arith, mp, pick_strategy_many p ∙ rw mp refl))
          ]
    ]

  -- Where either bandwidth is zero, every tile is tensor-parallel on any number of sails: both costs
  -- are infinite.
  pub pick_strategy_zero_bandwidth :
      n_sails ≤ word_max
      → local_ddr_bw ≤ word_max
      → intercard_bw ≤ word_max
      → (local_ddr_bw ≡ 0) ⊎ (intercard_bw ≡ 0)
      → pick_strategy tile n_sails local_ddr_bw intercard_bw ≡ tensor_parallel
  pick_strategy_zero_bandwidth h hd hc z = elim (Bool-cases (ltb n_sails 2)) [
    | inl few ↦ pick_strategy_few (ground arith)
    | inr many ↦
        let p = ltb→ge n_sails 2 many in
        let pos : 0 < n_sails = omega arith in
        elim z [
          | inl no_ddr ↦
              pick_strategy_many p
              ∙ rw
                  (
                    seconds_none (weight_bytes tile) local_ddr_bw no_ddr,
                    infinite_weight n_sails (activation_seconds tile intercard_bw) pos h
                        (seconds-IsNumber (activation_bytes tile) intercard_bw hc),
                  )
                  refl
          | inr no_link ↦
              pick_strategy_many p
              ∙ rw
                  (
                    seconds_none (activation_bytes tile) intercard_bw no_link,
                    infinite_activation n_sails (weight_seconds tile local_ddr_bw) pos h
                        (seconds-IsNumber (weight_bytes tile) local_ddr_bw hd),
                  )
                  refl
        ]
  ]
