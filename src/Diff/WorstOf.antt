-- ===== src/Diff/WorstOf.antt =====
-- `_worst` of inkfoot/diff/compare.py against the worst of several verdicts.
use ink_foot.Prelude.{◌≤◌, ◌≡◌, refl, sym, ap, ◌∙◌, List, [], ◌∷◌, ◌++◌, arith}
use ink_foot.Diff.{Verdict, ok, warn, fail, rank, worst}

-- The worst of several verdicts: `fail` if one of them is, or else `warn` if one of them is.
unfoldable pub worst_of : List Verdict → Verdict
worst_of [] = ok
worst_of (ok ∷ vs) = worst_of vs
worst_of (fail ∷ vs) = fail
worst_of (warn ∷ vs) = elim (worst_of vs) [ ok ↦ warn | warn ↦ warn | fail ↦ fail ]

warn_or : (w : Verdict) → elim w [ ok ↦ warn | warn ↦ warn | fail ↦ fail ] ≡ worst warn w
unfolding worst
warn_or ok = refl
warn_or warn = refl
warn_or fail = refl

ok_or : (w : Verdict) → w ≡ worst ok w
unfolding worst
ok_or ok = refl
ok_or warn = refl
ok_or fail = refl

fail_or : (w : Verdict) → fail ≡ worst fail w
unfolding worst
fail_or ok = refl
fail_or warn = refl
fail_or fail = refl

worst_of_lem : (v : Verdict) (vs : List Verdict) → worst_of (v ∷ vs) ≡ worst v (worst_of vs)
unfolding worst_of
worst_of_lem ok vs = ok_or (worst_of vs)
worst_of_lem warn vs = warn_or (worst_of vs)
worst_of_lem fail vs = fail_or (worst_of vs)

pub worst_assoc : (a b c : Verdict) → worst (worst a b) c ≡ worst a (worst b c)
unfolding worst
worst_assoc a b c = ground arith

pub worst_ok : (a : Verdict) → worst a ok ≡ a
unfolding worst
worst_ok a = ground arith

pub worst_mono :
    (a a' b b' : Verdict)
    → rank a ≤ rank a'
    → rank b ≤ rank b'
    → rank (worst a b) ≤ rank (worst a' b')
unfolding worst
worst_mono a a' b b' h k = ground arith

pub worst_of-append :
    (vs : List Verdict) (v : Verdict) → worst_of (vs ++ v ∷ []) ≡ worst (worst_of vs) v
unfolding worst_of
worst_of-append [] v = worst_of_lem v [] ∙ worst_ok v ∙ ok_or v
worst_of-append (w ∷ vs) v =
    worst_of_lem w (vs ++ v ∷ [])
    ∙ ap (worst w) (worst_of-append vs v)
    ∙ sym (worst_assoc w (worst_of vs) v)
    ∙ ap (λ u. worst u v) (sym (worst_of_lem w vs))
