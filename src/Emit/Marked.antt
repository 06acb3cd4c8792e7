-- ===== src/Emit/Marked.antt =====
-- What inkfoot/shims/_emit.py adds to a translated call: flags, and the fold of a summariser's own calls.
use ink_foot.Prelude.Int.{ℤ, ◌+ℤ◌, ◌-ℤ◌, ◌*ℤ◌, clamp, +ℤ_zero, zero_+ℤ}
use ink_foot.Prelude.{
  ℕ, String, ◌≡◌, refl, sym, ap, ◌∙◌, true, false, Option, none, some, List, [], ◌∷◌, ◌++◌, arith,
  inl, inr, Bool-cases, if◌then◌else◌, str_eq, eq_iff,
}
use ink_foot.Prelude.Lists.{elem, count, count-append}
use ink_foot.Ledger.{CausalTokenLedger, input_total, output_total}
use ink_foot.Pricing.Table.{PriceRow}
use ink_foot.Pricing.{lookup_row, estimate_nanodollars, fresh_input, priced}
use ink_foot.Normalise.{NeutralCall}
use ink_foot.Emit.{merge_flags, fold_ledger}
use ink_foot.Emit.Calls.{Emission, marked}

elem-append_one :
    (k flag : String) (flags : List String)
    → elem k (flags ++ flag ∷ []) ≡ (if elem k flags then true else str_eq flag k)
elem-append_one k flag [] = ground arith
elem-append_one k flag (j ∷ flags) = ground (arith, elem-append_one k flag flags)

count_absent : (k : String) (flags : List String) → elem k flags ≡ false → count k flags ≡ 0
count_absent k [] h = refl
count_absent k (j ∷ flags) h = ground (arith, count_absent k flags)

-- What is held of a flag whose place in a list is known.
abbrev pub merged_count : String → List String → List String → ℕ
merged_count k flags extra = if elem k flags then count k flags else if elem k extra then 1 else 0

step_there :
    (k flag : String) (flags extra : List String)
    → elem flag flags ≡ true
    → merged_count k flags extra ≡ merged_count k flags (flag ∷ extra)
step_there k flag flags extra there = elim (Bool-cases (str_eq flag k)) [
  | inl same ↦ ground (arith, there, (eq_iff flag k).0 same)
  | inr other ↦ rw other refl
]

step_absent :
    (k flag : String) (flags extra : List String)
    → elem flag flags ≡ false
    → merged_count k (flags ++ flag ∷ []) extra ≡ merged_count k flags (flag ∷ extra)
step_absent k flag flags extra absent = elim (Bool-cases (str_eq flag k)) [
  | inl same ↦
      let gone : elem k flags ≡ false =
        ap (λ j. elem j flags) (sym ((eq_iff flag k).0 same)) ∙ absent in
      rw
        (
          elem-append_one k flag flags,
          count-append k flags (flag ∷ []),
          same,
          gone,
          count_absent k flags gone,
        )
        refl
  | inr other ↦ elim (Bool-cases (elem k flags)) [
    | inl held ↦
        rw (elem-append_one k flag flags, count-append k flags (flag ∷ []), other, held)
          (omega arith)
    | inr free ↦ rw (elem-append_one k flag flags, other, free) refl
  ]
]

-- Each flag of the call stays as often as it was there, and each flag of `extra` that was not there comes
-- once.
pub count-merge_flags :
    (k : String) (flags extra : List String)
    → count k (merge_flags flags extra) ≡ merged_count k flags extra
unfolding merge_flags
count-merge_flags k flags [] = ground (arith, count_absent k flags)
count-merge_flags k flags (flag ∷ extra) = elim (Bool-cases (elem flag flags)) [
  | inl there ↦ rw there (count-merge_flags k flags extra ∙ step_there k flag flags extra there)
  | inr absent ↦
      rw absent
        (count-merge_flags k (flags ++ flag ∷ []) extra ∙ step_absent k flag flags extra absent)
]

input_total-fold_ledger : (l : CausalTokenLedger) → input_total (fold_ledger l) ≡ input_total l
unfolding fold_ledger
input_total-fold_ledger l = simp (zero_+ℤ, +ℤ_zero)

priced-fold_ledger :
    (row : PriceRow) (l : CausalTokenLedger) → priced row (fold_ledger l) ≡ priced row l
unfolding priced fresh_input fold_ledger
priced-fold_ledger row l =
    ap
      (λ i.
        clamp (i -ℤ l.cache_read_tokens -ℤ l.cache_creation_tokens) *ℤ row.input
        +ℤ l.cache_read_tokens *ℤ row.cache_read
        +ℤ l.cache_creation_tokens *ℤ row.cache_write
        +ℤ l.output_tokens *ℤ row.output)
      (input_total-fold_ledger l)

estimate-fold_ledger :
    (l : CausalTokenLedger) (provider model : String)
    → estimate_nanodollars provider model (fold_ledger l) ≡ estimate_nanodollars provider model l
unfolding estimate_nanodollars
estimate-fold_ledger l provider model = charged (lookup_row provider model)
  where
    charged :
        (o : Option PriceRow)
        → Path
            (Option ℤ)
            (elim o [ none ↦ none | some row ↦ some (priced row (fold_ledger l)) ])
            (elim o [ none ↦ none | some row ↦ some (priced row l) ])
    charged none = refl
    charged (some row) = ap some (priced-fold_ledger row l)

fold_ledger-SamePrice :
    (l : CausalTokenLedger) (provider model : String)
    → (input_total (fold_ledger l) ≡ input_total l)
      × (output_total (fold_ledger l) ≡ output_total l)
      × (estimate_nanodollars provider model (fold_ledger l)
          ≡ estimate_nanodollars provider model l)
unfolding fold_ledger output_total
fold_ledger-SamePrice l provider model =
    (input_total-fold_ledger l, refl, estimate-fold_ledger l provider model)

-- The marks change no total and no price: the input and the output of the call's ledger, and what any model
-- of any provider would charge for it, are those of the translated call.
pub marked-SamePrice :
    {F : Type 0} (e : Emission F) (call : NeutralCall F) (provider model : String)
    → (input_total (marked e call).ledger ≡ input_total call.ledger)
      × (output_total (marked e call).ledger ≡ output_total call.ledger)
      × (estimate_nanodollars provider model (marked e call).ledger
          ≡ estimate_nanodollars provider model call.ledger)
marked-SamePrice e call provider model = elim (Bool-cases e.ctx.is_helper) [
  | inl helper ↦ rw helper (fold_ledger-SamePrice call.ledger provider model)
  | inr own ↦ rw own (refl, refl, refl)
]
