-- ===== src/GkiLine/Picking.antt =====
-- crates/flux-core/src/gki_line.rs: which file `pick_module_file` picks.
use mathlib.Core.Path.{subst}
use flux_rs.Base.{
  ◌≡◌, ◌≢◌, inl, inr, refl, ap, sym, ◌∙◌, Bool, true, false, Option, none, some, List, [], ◌∷◌,
  arith,
}
use flux_rs.Base.Text.{Text, text_eq, text_eq_iff}
use flux_rs.GkiLine.{GkiLine, matches_module_file, pick_from, pick_module_file}
use flux_rs.GkiLine.Scanning.{
  exact, IsPick, IsFrom, exact-matches, pick-skip, pick-exact, pick-keep, not_exact,
  pick_from-IsFrom,
}

-- With the fallback `c`, the loop's pick is a pick of `c` and the other names.
found :
    (line : GkiLine) (c : Text) (names : List Text) (n : Text)
    → matches_module_file line c ≡ true
    → c ≢ exact line
    → IsFrom line c names n
    → IsPick line (c ∷ names) (some n)
found line c names n h ne (inl (e, held)) =
    (inr held, ap (matches_module_file line) e ∙ exact-matches line, inl e)
found line c names n h ne (inr (inl e, all, bound)) =
    (inl e, ap (matches_module_file line) e ∙ h, inr ((λ _. (ne, bound)), all))
found line c names n h ne (inr (inr (held, k), all, bound)) =
    (inr held, k, inr ((λ _. (ne, bound)), all))

unmatched :
    (line : GkiLine) (m : Text) (names : List Text) (o : Option Text)
    → matches_module_file line m ≡ false
    → IsPick line names o
    → IsPick line (m ∷ names) o
unmatched line m names none h all = (h, all)
unmatched line m names (some n) h (held, k, inl e) = (inr held, k, inl e)
unmatched line m names (some n) h (held, k, inr all) = (inr held, k, inr ((λ l. ground arith), all))

none-IsPick : (line : GkiLine) (names : List Text) → IsPick line names (pick_from line none names)
none-IsPick line [] = tt
none-IsPick line (m ∷ names) =
    by (none-IsPick line names) (matches_module_file line m) (text_eq m (exact line)) refl refl
  where
    by :
        IsPick line names (pick_from line none names)
        → (matched same : Bool) → matches_module_file line m ≡ matched
        → text_eq m (exact line) ≡ same
        → IsPick line (m ∷ names) (pick_from line none (m ∷ names))
    by rest false same h k =
        subst (IsPick line (m ∷ names)) (sym (pick-skip line none m names h))
          (unmatched line m names (pick_from line none names) h rest)
    by rest true true h k =
        subst (IsPick line (m ∷ names)) (sym (pick-exact line none m names h k))
          (inl refl, h, inl ((text_eq_iff m (exact line)).0 k))
    by rest true false h k =
        let (n, e, from) = pick_from-IsFrom line m names in
        subst (IsPick line (m ∷ names)) (sym (pick-keep line none m names h k ∙ e))
          (found line m names n h (not_exact line m k) from)

-- The file that is picked is one of those given and matches; it is the one without a build where that is
-- given, and else the first of the matching ones in the order of texts. None is picked only where none
-- matches.
pub pick_module_file-IsPick :
    (line : GkiLine) (names : List Text) → IsPick line names (pick_module_file line names)
unfolding pick_module_file
pick_module_file-IsPick line names = none-IsPick line names
