-- ===== src/Lifecycle/Dedup/Window.antt =====
-- How long the sets of inkfoot/_run_lifecycle.py remember.
use ink_foot.Prelude.{
  ℕ, suc, ◌+◌, ◌≤◌, ◌<◌, String, ◌≡◌, refl, sym, ap, ◌∙◌, inl, inr, true, false, List, [], ◌∷◌,
  ◌++◌, arith, eq_iff, eq_refl, ltb, str_eq, if◌then◌else◌, Bool-cases,
}
use mathlib.Core.List.{append_assoc}
use ink_foot.Prelude.Lists.{length, length-append}
use ink_foot.Prelude.Dict.{Dict, lookup, lookup-insert}
use ink_foot.Lifecycle.Dedup.{
  holds, without, move_to_end, trim, see_response, responses_per_run, record_emitted_response_id,
  or_empty,
}

-- The key is in the list with at most `n` younger ones.
record Recent {A : Type 0} (k : A) (n : ℕ) (seen : List A) : Type 0 where
  before : List A
  after : List A
  split : seen ≡ before ++ k ∷ after
  short : length after ≤ n

module _ {A : Type 0} where
  trim-short : (cap : ℕ) (xs : List A) → length xs ≤ cap → trim cap xs ≡ xs
  unfolding trim
  trim-short cap [] h = refl
  trim-short cap (x ∷ xs) h = ground arith

  length-trim : (cap : ℕ) (xs : List A) → length (trim cap xs) ≤ cap
  unfolding trim
  length-trim cap [] = omega arith
  length-trim cap (x ∷ xs) = ground (arith, length-trim cap xs)

  -- Trimming at the front keeps what is young enough.
  trim-Recent :
      {k : A} {n : ℕ} (cap : ℕ) (before after : List A)
      → length after ≤ n
      → n < cap
      → Recent k n (trim cap (before ++ k ∷ after))
  unfolding trim
  trim-Recent {k} {n} cap [] after short room = record {
    before = [];
    after = after;
    split = trim-short cap (k ∷ after) (omega arith);
    short = short;
  }
  trim-Recent {k} {n} cap (x ∷ before) after short room =
      elim (Bool-cases (ltb cap (length (x ∷ before ++ k ∷ after)))) [
        | inl over ↦ rw over (trim-Recent cap before after short room)
        | inr within ↦
            rw within (record { before = x ∷ before; after = after; split = refl; short = short })
      ]

without_middle :
    (k : String) (xs : List String) (id : String) (ys : List String)
    → str_eq id k ≡ false
    → without str_eq k (xs ++ id ∷ ys) ≡ without str_eq k xs ++ id ∷ without str_eq k ys
without_middle k [] id ys other = rw other refl
without_middle k (x ∷ xs) id ys other = ground (arith, without_middle k xs id ys other)

length-without : (k : String) (xs : List String) → length (without str_eq k xs) ≤ length xs
length-without k [] = omega arith
length-without k (x ∷ xs) = ground (arith, length-without k xs)

holds-append_self : (k : String) (xs ys : List String) → holds str_eq k (xs ++ k ∷ ys) ≡ true
holds-append_self k [] ys = ground (arith, eq_refl k)
holds-append_self k (x ∷ xs) ys = ground (arith, holds-append_self k xs ys)

see_response-Recent : (id : String) (seen : List String) → Recent id 0 (see_response id seen).1
unfolding see_response
see_response-Recent id seen = elim (Bool-cases (holds str_eq id seen)) [
  | inl again ↦
      rw again
        (record { before = without str_eq id seen; after = []; split = refl; short = omega arith })
  | inr new ↦ rw new (trim-Recent responses_per_run seen [] (omega arith) (omega arith))
]

move_to_end-Recent :
    (id k : String) (n : ℕ) (before after : List String)
    → length after ≤ n
    → Recent id (suc n) (move_to_end str_eq k (before ++ id ∷ after))
move_to_end-Recent id k n before after short = elim (Bool-cases (str_eq id k)) [
  | inl same ↦ record {
    before = without str_eq k (before ++ id ∷ after);
    after = [];
    split = rw ((eq_iff id k).0 same) refl;
    short = omega arith;
  }
  | inr other ↦ record {
    before = without str_eq k before;
    after = without str_eq k after ++ k ∷ [];
    split =
        ap (λ l. l ++ k ∷ []) (without_middle k before id after other)
        ∙ append_assoc (without str_eq k before) (id ∷ without str_eq k after) (k ∷ []);
    short = omega (arith, length-append (without str_eq k after) (k ∷ []), length-without k after);
  }
]

-- Another sighting makes a key older by one at most.
see_response-older :
    (id k : String) (n : ℕ) (seen : List String)
    → Recent id n seen
    → suc n < responses_per_run
    → Recent id (suc n) (see_response k seen).1
unfolding see_response
see_response-older id k n seen r room = elim (Bool-cases (holds str_eq k seen)) [
  | inl again ↦ rw (again, r.split) (move_to_end-Recent id k n r.before r.after r.short)
  | inr new ↦
      rw (new, r.split, append_assoc r.before (id ∷ r.after) (k ∷ []))
        (trim-Recent responses_per_run r.before (r.after ++ k ∷ [])
          (omega (arith, length-append r.after (k ∷ []), r.short)) room)
]

Recent-holds :
    (id : String) (n : ℕ) (seen : List String) → Recent id n seen → holds str_eq id seen ≡ true
Recent-holds id n seen r = rw r.split (holds-append_self id r.before r.after)

-- Sightings of responses, each with its run.
abbrev pub record_all : List (String × String) → Dict (List String) → Dict (List String)
record_all [] sets = sets
record_all ((run_id, id) ∷ sightings) sets =
    record_all sightings (record_emitted_response_id run_id id sets).1

-- How many of them are of a run.
abbrev pub sightings_of : String → List (String × String) → ℕ
sightings_of run_id [] = 0
sightings_of run_id ((r, id) ∷ sightings) =
    (if str_eq r run_id then 1 else 0) + sightings_of run_id sightings

abbrev seen_in : String → Dict (List String) → List String
seen_in run_id sets = or_empty (lookup run_id sets)

seen_in-record_other :
    (run_id r id : String) (sets : Dict (List String))
    → str_eq r run_id ≡ false
    → seen_in run_id (record_emitted_response_id r id sets).1 ≡ seen_in run_id sets
unfolding record_emitted_response_id
seen_in-record_other run_id r id sets other = rw (lookup-insert, other) refl

seen_in-record_own :
    (run_id id : String) (sets : Dict (List String))
    → seen_in run_id (record_emitted_response_id run_id id sets).1
      ≡ (see_response id (seen_in run_id sets)).1
unfolding record_emitted_response_id
seen_in-record_own run_id id sets = rw (lookup-insert, eq_refl) refl

add_zero : (n : ℕ) → n + 0 ≡ n
add_zero n = omega arith

zero_add : (n : ℕ) → 0 + n ≡ n
zero_add n = omega arith

add_suc : (n m : ℕ) → suc n + m ≡ n + (1 + m)
add_suc n m = omega arith

record_all-Recent :
    (run_id id : String) (sightings : List (String × String)) (n : ℕ) (sets : Dict (List String))
    → Recent id n (seen_in run_id sets)
    → n + sightings_of run_id sightings < responses_per_run
    → Recent id (n + sightings_of run_id sightings) (seen_in run_id (record_all sightings sets))
record_all-Recent run_id id [] n sets r room = rw (add_zero n) r
record_all-Recent run_id id ((other, k) ∷ sightings) n sets r room =
    elim (Bool-cases (str_eq other run_id)) [
      | inl own ↦
          rw (own, sym (add_suc n (sightings_of run_id sightings)))
            (record_all-Recent run_id id sightings (suc n)
              (record_emitted_response_id other k sets).1
              (rw ((eq_iff other run_id).0 own, seen_in-record_own run_id k sets)
                (see_response-older id k n (seen_in run_id sets) r (omega (arith, rw own at room))))
              (omega (arith, rw own at room)))
      | inr free ↦
          rw (free, zero_add (sightings_of run_id sightings))
            (record_all-Recent run_id id sightings n (record_emitted_response_id other k sets).1
              (rw (seen_in-record_other run_id other k sets free) r)
              (omega (arith, rw free at room)))
    ]

-- A response id that was recorded for a run is recognised when it comes again, as long as fewer than
-- 1000 ids of the run were recorded in between, whatever the other runs record.
pub record-repeated :
    (run_id id : String) (sightings : List (String × String)) (sets : Dict (List String))
    → sightings_of run_id sightings < responses_per_run
    → (record_emitted_response_id run_id id
        (record_all sightings (record_emitted_response_id run_id id sets).1)).0
      ≡ false
unfolding record_emitted_response_id see_response
record-repeated run_id id sightings sets room =
    skipped (record_all sightings (record_emitted_response_id run_id id sets).1) (
      Recent-holds id _ _ (
        record_all-Recent run_id id sightings 0 (record_emitted_response_id run_id id sets).1
          (rw (seen_in-record_own run_id id sets) (see_response-Recent id (seen_in run_id sets)))
          (omega (arith, room))))
  where
    skipped :
        (later : Dict (List String))
        → holds str_eq id (seen_in run_id later) ≡ true
        → (record_emitted_response_id run_id id later).0 ≡ false
    skipped later h = rw (h, record_emitted_response_id, see_response) refl
