-- ===== src/Diff/Extend.antt =====
-- A diff extended by a list of changes, each pushed by its class.
use pacific_coast.Base.{
  sym, keep-append, Bool, true, false, List, [], ◌∷◌, ◌++◌, ◌≡◌, refl, append-nil, append_assoc,
  keep, arith, ap, ◌∙◌,
}
use pacific_coast.Diff.Change.{
  ChangeClass, additive, backfill_required, breaking, Change, Diff, push,
}

unfoldable pub extend : Diff → List Change → Diff
extend d [] = d
extend d (c ∷ cs) = extend (push d c) cs

pub extend-append : (d : Diff) (xs ys : List Change) → extend d (xs ++ ys) ≡ extend (extend d xs) ys
unfolding extend
extend-append d [] ys = refl
extend-append d (c ∷ xs) ys = extend-append (push d c) xs ys

abbrev pub in_class : ChangeClass → Change → Bool
in_class additive c = elim c.class [ additive ↦ true | _ ↦ false ]
in_class backfill_required c = elim c.class [ backfill_required ↦ true | _ ↦ false ]
in_class breaking c = elim c.class [ breaking ↦ true | _ ↦ false ]

-- The list of a diff that holds the changes of a class.
abbrev pub changes_of : ChangeClass → Diff → List Change
changes_of additive d = d.additive_changes
changes_of backfill_required d = d.backfill_changes
changes_of breaking d = d.breaking_changes

changes_of-push :
    (k : ChangeClass) (d : Diff) (c : Change)
    → changes_of k (push d c) ≡ changes_of k d ++ keep (in_class k) (c ∷ [])
unfolding push
changes_of-push additive d c = ground (arith, append-nil d.additive_changes)
changes_of-push backfill_required d c = ground (arith, append-nil d.backfill_changes)
changes_of-push breaking d c = ground (arith, append-nil d.breaking_changes)

-- Each list of an extended diff holds, in order, the changes of its class.
pub changes_of-extend :
    (k : ChangeClass) (d : Diff) (cs : List Change)
    → changes_of k (extend d cs) ≡ changes_of k d ++ keep (in_class k) cs
unfolding extend
changes_of-extend k d [] = rw append-nil
changes_of-extend k d (c ∷ cs) =
    changes_of-extend k (push d c) cs
    ∙ ap (λ l. l ++ keep (in_class k) cs) (changes_of-push k d c)
    ∙ append_assoc (changes_of k d) (keep (in_class k) (c ∷ [])) (keep (in_class k) cs)
    ∙ ap (λ l. changes_of k d ++ l) (sym (keep-append (in_class k) (c ∷ []) cs))
