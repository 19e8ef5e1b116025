-- ===== src/Governance/Settings/Updates.antt =====
-- The updates of the four parameter sets against their tables.
use volnix_protocol.Base.{
  ℕ, ◌≡◌, inl, inr, refl, ap, true, some, Text, codes, text_eq, text_lt, ℤ, ok, arith,
  Outcome-cases, Option-cases, Bool-cases, text_eq_iff,
}
use volnix_protocol.Strconv.{parse_uint, max_uint64}
use volnix_protocol.KvStore.{KvStore, text_key}
use volnix_protocol.KvStore
use volnix_protocol.Host.{Host}
use volnix_protocol.Lizenz
use volnix_protocol.Anteil
use volnix_protocol.Consensus
use volnix_protocol.Governance.Types.{Params, ParameterChange}
use volnix_protocol.Governance.Applier.{
  updated_lizenz, updated_anteil, updated_consensus, updated_governance, max_uint32,
  check_unit_interval,
}
use volnix_protocol.Governance.Settings.{
  Value, words, number, span, Updated, as_words, as_number, as_span, lizenz_table, anteil_table,
  consensus_table, governance_table,
}

-- One entry of each kind is replaced by what the text stands for.
module _ {h : Host} {name t : Text} {old new : KvStore Text Value} (lit : Text)
    (named : text_eq name lit ≡ true) where
  set_words :
      {s : Text}
      → KvStore.get lit old ≡ some (words s)
      → new ≡ KvStore.set lit (words t) old
      → Updated h name t old new
  set_words found replaced = rw ((text_eq_iff name lit).0 named) (record {
    before = _;
    found = found;
    value = words t;
    read = as_words;
    alike = refl;
    replaced = replaced;
  })

  set_number :
      {m : ℕ} (top n : ℕ)
      → parse_uint top t ≡ ok n
      → KvStore.get lit old ≡ some (number m)
      → new ≡ KvStore.set lit (number n) old
      → Updated h name t old new
  set_number top n read found replaced = rw ((text_eq_iff name lit).0 named) (record {
    before = _;
    found = found;
    value = number n;
    read = as_number top n read;
    alike = refl;
    replaced = replaced;
  })

  set_span :
      {f : ℤ} (d : ℤ)
      → h.parse_duration t ≡ some d
      → KvStore.get lit old ≡ some (span f)
      → new ≡ KvStore.set lit (span d) old
      → Updated h name t old new
  set_span d read found replaced = rw ((text_eq_iff name lit).0 named) (record {
    before = _;
    found = found;
    value = span d;
    read = as_span d read;
    alike = refl;
    replaced = replaced;
  })

module _ (h : Host) (c : ParameterChange) where
  pub updated_governance-Updated :
      (p q : Params)
      → updated_governance h c p ≡ ok q
      → Updated h c.parameter c.new_value (governance_table p) (governance_table q)
  unfolding updated_governance check_unit_interval KvStore.get KvStore.set text_eq text_lt
  updated_governance-Updated p q r =
      elim (Bool-cases (text_eq c.parameter (codes "voting_period"))) [
        | inl a ↦ elim (Option-cases (h.parse_duration c.new_value)) [
          | inl bad ↦ absurd (ground arith)
          | inr (d, read) ↦
              let same : q ≡ record p { voting_period = d } = ground arith in
              set_span (codes "voting_period") a d read refl (ap governance_table same)
        ]
        | inr a6 ↦ elim (Bool-cases (text_eq c.parameter (codes "timelock_period"))) [
          | inl a ↦ elim (Option-cases (h.parse_duration c.new_value)) [
            | inl bad ↦ absurd (ground arith)
            | inr (d, read) ↦
                let same : q ≡ record p { timelock_period = d } = ground arith in
                set_span (codes "timelock_period") a d read refl (ap governance_table same)
          ]
          | inr a12 ↦ elim (Bool-cases (text_eq c.parameter (codes "min_deposit"))) [
            | inl a ↦
                let same : q ≡ record p { min_deposit = c.new_value } = ground arith in
                set_words (codes "min_deposit") a refl (ap governance_table same)
            | inr a18 ↦ elim (Bool-cases (text_eq c.parameter (codes "quorum"))) [
              | inl a ↦
                  let same : q ≡ record p { quorum = c.new_value } = ground arith in
                  set_words (codes "quorum") a refl (ap governance_table same)
              | inr a24 ↦ elim (Bool-cases (text_eq c.parameter (codes "threshold"))) [
                | inl a ↦
                    let same : q ≡ record p { threshold = c.new_value } = ground arith in
                    set_words (codes "threshold") a refl (ap governance_table same)
                | inr a30 ↦ absurd (ground arith)
              ]
            ]
          ]
        ]
      ]

  pub updated_lizenz-Updated :
      (p q : Lizenz.Params.Params)
      → updated_lizenz h c p ≡ ok q
      → Updated h c.parameter c.new_value (lizenz_table p) (lizenz_table q)
  unfolding updated_lizenz check_unit_interval KvStore.get KvStore.set text_eq text_lt
  updated_lizenz-Updated p q r =
      elim (Bool-cases (text_eq c.parameter (codes "activity_coefficient"))) [
        | inl a ↦
            let same : q ≡ record p { activity_coefficient = c.new_value } = ground arith in
            set_words (codes "activity_coefficient") a refl (ap lizenz_table same)
        | inr a6 ↦ elim (Bool-cases (text_eq c.parameter (codes "min_lzn_amount"))) [
          | inl a ↦
              let same : q ≡ record p { min_lzn_amount = c.new_value } = ground arith in
              set_words (codes "min_lzn_amount") a refl (ap lizenz_table same)
          | inr a12 ↦ elim (Bool-cases (text_eq c.parameter (codes "max_lzn_amount"))) [
            | inl a ↦
                let same : q ≡ record p { max_lzn_amount = c.new_value } = ground arith in
                set_words (codes "max_lzn_amount") a refl (ap lizenz_table same)
            | inr a18 ↦ elim (Bool-cases (text_eq c.parameter (codes "inactivity_period"))) [
              | inl a ↦ elim (Option-cases (h.parse_duration c.new_value)) [
                | inl bad ↦ absurd (ground arith)
                | inr (d, read) ↦
                    let same : q ≡ record p { inactivity_period = d } = ground arith in
                    set_span (codes "inactivity_period") a d read refl (ap lizenz_table same)
              ]
              | inr a24 ↦ elim (Bool-cases (text_eq c.parameter (codes "deactivation_period"))) [
                | inl a ↦ elim (Option-cases (h.parse_duration c.new_value)) [
                  | inl bad ↦ absurd (ground arith)
                  | inr (d, read) ↦
                      let same : q ≡ record p { deactivation_period = d } = ground arith in
                      set_span (codes "deactivation_period") a d read refl (ap lizenz_table same)
                ]
                | inr a30 ↦ absurd (ground arith)
              ]
            ]
          ]
        ]
      ]

  pub updated_anteil-Updated :
      (p q : Anteil.Params.Params)
      → updated_anteil h c p ≡ ok q
      → Updated h c.parameter c.new_value (anteil_table p) (anteil_table q)
  unfolding updated_anteil check_unit_interval KvStore.get KvStore.set text_eq text_lt
  updated_anteil-Updated p q r = elim (Bool-cases (text_eq c.parameter (codes "min_ant_amount"))) [
    | inl a ↦
        let same : q ≡ record p { min_ant_amount = c.new_value } = ground arith in
        set_words (codes "min_ant_amount") a refl (ap anteil_table same)
    | inr a6 ↦ elim (Bool-cases (text_eq c.parameter (codes "max_ant_amount"))) [
      | inl a ↦
          let same : q ≡ record p { max_ant_amount = c.new_value } = ground arith in
          set_words (codes "max_ant_amount") a refl (ap anteil_table same)
      | inr a12 ↦ elim (Bool-cases (text_eq c.parameter (codes "trading_fee_rate"))) [
        | inl a ↦
            let same : q ≡ record p { trading_fee_rate = c.new_value } = ground arith in
            set_words (codes "trading_fee_rate") a refl (ap anteil_table same)
        | inr a18 ↦ elim (Bool-cases (text_eq c.parameter (codes "max_open_orders"))) [
          | inl a ↦ elim (Outcome-cases (parse_uint max_uint32 c.new_value)) [
            | inr (x, bad) ↦ absurd (ground arith)
            | inl (m, read) ↦
                let same : q ≡ record p { max_open_orders = m } = ground arith in
                set_number (codes "max_open_orders") a max_uint32 m read refl (ap anteil_table same)
          ]
          | inr a24 ↦ absurd (ground arith)
        ]
      ]
    ]
  ]

  pub updated_consensus-Updated :
      (p q : Consensus.Params.Params)
      → updated_consensus h c p ≡ ok q
      → Updated h c.parameter c.new_value (consensus_table p) (consensus_table q)
  unfolding updated_consensus check_unit_interval KvStore.get KvStore.set text_eq text_lt
  updated_consensus-Updated p q r =
      elim (Bool-cases (text_eq c.parameter (codes "base_block_time"))) [
        | inl a ↦
            let same : q ≡ record p { base_block_time = c.new_value } = ground arith in
            set_words (codes "base_block_time") a refl (ap consensus_table same)
        | inr a6 ↦ elim (Bool-cases (text_eq c.parameter (codes "high_activity_threshold"))) [
          | inl a ↦ elim (Outcome-cases (parse_uint max_uint64 c.new_value)) [
            | inr (x, bad) ↦ absurd (ground arith)
            | inl (m, read) ↦
                let same : q ≡ record p { high_activity_threshold = m } = ground arith in
                set_number (codes "high_activity_threshold") a max_uint64 m read refl
                  (ap consensus_table same)
          ]
          | inr a12 ↦ elim (Bool-cases (text_eq c.parameter (codes "low_activity_threshold"))) [
            | inl a ↦ elim (Outcome-cases (parse_uint max_uint64 c.new_value)) [
              | inr (x, bad) ↦ absurd (ground arith)
              | inl (m, read) ↦
                  let same : q ≡ record p { low_activity_threshold = m } = ground arith in
                  set_number (codes "low_activity_threshold") a max_uint64 m read refl
                    (ap consensus_table same)
            ]
            | inr a18 ↦ absurd (ground arith)
          ]
        ]
      ]
