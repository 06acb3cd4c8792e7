-- ===== src/Contracts/Parse/Accepted.antt =====
-- What `contract_from_dict` of inkfoot/contracts/schema.py guarantees of a contract that it accepts.
use ink_foot.Float.{Float}
use ink_foot.Prelude.{str_eq, false, String, ℕ, ◌<◌, ◌≡◌, true, Option, none, some, [], ◌∷◌, arith}
use ink_foot.Prelude.Lists.{All}
use ink_foot.Prelude.Dict.{Dict, insert}
use ink_foot.Value.{Value, null, dict, Fields, end, field, Key, get}
use ink_foot.Contracts.Result.{ok, OnOk, OnOk-ok, OnOk-err, OnOk-bind, OnOk-require}
use ink_foot.Contracts.Schema.{BudgetClause, OutcomeClause, Override, Contract}
use ink_foot.Contracts.Parse.FieldChecks.{
  pos_or, rate_or, opt_pos_int, opt_rate, in_unit, or_default,
}
use ink_foot.Contracts.Parse.LadderOrder.{IsLadder, parse_degrade-IsLadder}
use ink_foot.Contracts.Parse.{
  parse_budget, parse_outcome, parse_override, override_loop, parse_overrides, wants_switch,
  validate_cross_field, contract_from_dict,
}

-- The predicate holds of the value, if there is one.
abbrev pub Whenever : {A : Type 0} → (A → Type 0) → Option A → Type 0
Whenever P none = Unit
Whenever P (some a) = P a

abbrev pub Positive : Option ℕ → Type 0
Positive = Whenever (λ n. 0 < n)

module _ (f : Float) where
  open f use {F}

  abbrev pub UnitRate : Option F → Type 0
  UnitRate = Whenever (λ x. in_unit f x ≡ true)

  pub record IsBudget (b : BudgetClause F) : Type 0 where
    pub nanodollars : Positive b.max_nanodollars
    pub calls : Positive b.max_llm_calls
    pub hit_rate : UnitRate b.cache_hit_rate_min

  pub record IsOutcome (o : OutcomeClause F) : Type 0 where
    pub rate : UnitRate o.required_success_rate
    pub window : 0 < o.measure_window_runs

  pub record IsOverride (o : Override F) : Type 0 where
    pub budget : Whenever IsBudget o.budget
    pub outcome : Whenever IsOutcome o.outcome

  pub record IsAccepted (c : Contract F) : Type 0 where
    pub ladder : IsLadder c.degrade
    pub cheap :
        wants_switch f c.degrade ≡ true
        → (m : String) × (c.cheap_model ≡ some m) × (str_eq m "" ≡ false)
    pub budget : Whenever IsBudget c.budget
    pub outcome : Whenever IsOutcome c.outcome
    pub overrides : All (λ (e : String × Override F). IsOverride e.1) c.overrides

  pos_or-Positive : (key : String) (v : Value F) → OnOk Positive (pos_or key v)
  pos_or-Positive key v = record { at = λ o h. pos_or_lem key v o h }
    where
      pos_or_lem : (key : String) (v : Value F) (o : Option ℕ) → pos_or key v ≡ ok o → Positive o
      pos_or_lem key v none h = tt
      pos_or_lem key v (some n) h = ground arith

  rate_or-UnitRate : (key : String) (v : Value F) → OnOk UnitRate (rate_or f key v)
  rate_or-UnitRate key v = record { at = λ o h. rate_or_lem key v o h }
    where
      rate_or_lem :
          (key : String) (v : Value F) (o : Option F) → rate_or f key v ≡ ok o → UnitRate o
      rate_or_lem key v none h = tt
      rate_or_lem key v (some x) h = ground arith

  opt_pos_int-Positive : (key : String) (raw : Fields F) → OnOk Positive (opt_pos_int key raw)
  unfolding opt_pos_int
  opt_pos_int-Positive key raw = pos_or-Positive key (get key raw)

  opt_rate-UnitRate : (key : String) (raw : Fields F) → OnOk UnitRate (opt_rate f key raw)
  unfolding opt_rate
  opt_rate-UnitRate key raw = rate_or-UnitRate key (get key raw)

  parse_budget-IsBudget : (v : Value F) → OnOk (Whenever IsBudget) (parse_budget f v)
  unfolding parse_budget
  parse_budget-IsBudget (dict raw) = OnOk-bind _ _ λ _ _. OnOk-bind _ _ λ n hn.
      OnOk-bind _ _ λ c hc. OnOk-bind _ _ λ t _. OnOk-bind _ _ λ r hr. OnOk-bind _ _ λ d _.
        OnOk-ok _ (record {
          nanodollars = (opt_pos_int-Positive "max_nanodollars" raw).at n hn;
          calls = (opt_pos_int-Positive "max_llm_calls" raw).at c hc;
          hit_rate = (opt_rate-UnitRate "cache_hit_rate_min" raw).at r hr;
        })
  parse_budget-IsBudget null = OnOk-ok none tt
  parse_budget-IsBudget _ = OnOk-err _

  window_pos : (o : Option ℕ) → Positive o → 0 < or_default o 100
  window_pos none h = omega arith
  window_pos (some n) h = h

  parse_outcome-IsOutcome : (v : Value F) → OnOk (Whenever IsOutcome) (parse_outcome f v)
  unfolding parse_outcome
  parse_outcome-IsOutcome (dict raw) = OnOk-bind _ _ λ _ _. OnOk-bind _ _ λ w hw.
      OnOk-bind _ _ λ r hr. OnOk-ok _ (record {
        rate = (opt_rate-UnitRate "required_success_rate" raw).at r hr;
        window = window_pos w ((opt_pos_int-Positive "measure_window_runs" raw).at w hw);
      })
  parse_outcome-IsOutcome null = OnOk-ok none tt
  parse_outcome-IsOutcome _ = OnOk-err _

  parse_override-IsOverride : (v : Value F) → OnOk IsOverride (parse_override f v)
  unfolding parse_override
  parse_override-IsOverride (dict body) = OnOk-bind _ _ λ _ _. OnOk-bind _ _ λ b hb.
      OnOk-bind _ _ λ o ho. OnOk-ok _ (record {
        budget = (parse_budget-IsBudget (get "budget" body)).at b hb;
        outcome = (parse_outcome-IsOutcome (get "outcome" body)).at o ho;
      })
  parse_override-IsOverride null = OnOk-err _
  parse_override-IsOverride _ = OnOk-err _

  AllOverrides : Dict (Override F) → Type 0
  AllOverrides = All (λ (e : String × Override F). IsOverride e.1)

  insert-AllOverrides :
      (k : String) (o : Override F) (d : Dict (Override F))
      → IsOverride o
      → AllOverrides d
      → AllOverrides (insert k o d)
  unfolding insert AllOverrides
  insert-AllOverrides k o [] h a = (h, tt)
  insert-AllOverrides k o ((j, p) ∷ d) h a = ground (arith, insert-AllOverrides k o d h a.1)

  override_loop-All :
      (raw : Fields F) (out : Dict (Override F))
      → AllOverrides out
      → OnOk AllOverrides (override_loop f raw out)
  unfolding override_loop
  override_loop-All end out a = OnOk-ok out a
  override_loop-All (field Key.other body rest) out a = OnOk-err _
  override_loop-All (field (Key.name tier) body rest) out a =
      let later = override_loop-All rest in
      OnOk-require _ _ _ λ _. OnOk-bind _ _ λ o ho.
        later (insert tier o out)
          (insert-AllOverrides tier o out ((parse_override-IsOverride body).at o ho) a)

  parse_overrides-All : (v : Value F) → OnOk AllOverrides (parse_overrides f v)
  unfolding parse_overrides AllOverrides
  parse_overrides-All (dict raw) = override_loop-All raw [] tt
  parse_overrides-All null = OnOk-ok [] tt
  parse_overrides-All _ = OnOk-err _

  validate_cross_field_lem :
      (c : Contract F) (u : Unit {0})
      → validate_cross_field f c ≡ ok u
      → wants_switch f c.degrade ≡ true
      → (m : String) × (c.cheap_model ≡ some m) × (str_eq m "" ≡ false)
  unfolding validate_cross_field
  validate_cross_field_lem c u h w = ground arith

  contract_from_dict-OnOk : (v : Value F) → OnOk IsAccepted (contract_from_dict f v)
  unfolding contract_from_dict AllOverrides
  contract_from_dict-OnOk (dict raw) = OnOk-bind _ _ λ _ _. OnOk-bind _ _ λ version _.
      OnOk-bind _ _ λ task _. OnOk-bind _ _ λ cheap _. OnOk-bind _ _ λ b hb. OnOk-bind _ _ λ o ho.
        OnOk-bind _ _ λ d hd. OnOk-bind _ _ λ v hv. OnOk-bind _ _ λ u hu. OnOk-ok _ (record {
          ladder = parse_degrade-IsLadder (get "degrade" raw) d hd;
          cheap =
              validate_cross_field_lem
                (record {
                  schema_version = version;
                  task = task;
                  budget = b;
                  outcome = o;
                  degrade = d;
                  cheap_model = cheap;
                  overrides = v;
                })
                u hu;
          budget = (parse_budget-IsBudget (get "budget" raw)).at b hb;
          outcome = (parse_outcome-IsOutcome (get "outcome" raw)).at o ho;
          overrides = (parse_overrides-All (get "overrides" raw)).at v hv;
        })
  contract_from_dict-OnOk null = OnOk-err _
  contract_from_dict-OnOk _ = OnOk-err _

  pub contract_from_dict-IsAccepted :
      (v : Value F) (c : Contract F) → contract_from_dict f v ≡ ok c → IsAccepted c
  contract_from_dict-IsAccepted v = (contract_from_dict-OnOk v).at
