-- ===== src/GkiLine/Scanning.antt =====
-- crates/flux-core/src/gki_line.rs: the loop of `pick_module_file` with the fallback it has found.
use flux_rs.Base.{
  ◌≡◌, ◌≢◌, ◌⊎◌, inl, inr, refl, ap, ◌∙◌, Bool, true, false, Option, none, some, List, [], ◌∷◌,
  ◌++◌, All, arith,
}
use flux_rs.Base.Text.{Text, text_eq, text_eq_iff}
use flux_rs.Collections.TextOrd.{text_compare-eq, text_compare-reverse, text_compare_trans}
use flux_rs.GkiLine.{
  GkiLine, extension, module_stem, matches_module_file, text_lt, better, pick_from,
}
use flux_rs.GkiLine.Affixes.{strip_prefix-append}

-- The name without a build.
abbrev pub exact : GkiLine → Text
exact line = module_stem line ++ extension

abbrev pub Holds : Text → List Text → Type 0
Holds n [] = true ≡ false
Holds n (m ∷ names) = (n ≡ m) ⊎ Holds n names

-- A file that matches is not the one without a build and does not come before `n`.
abbrev pub IsNoBetter : GkiLine → Text → Text → Type 0
IsNoBetter line n m = matches_module_file line m ≡ true → (m ≢ exact line) × (text_lt m n ≡ false)

abbrev pub IsPick : GkiLine → List Text → Option Text → Type 0
IsPick line names none = All (λ m. matches_module_file line m ≡ false) names
IsPick line names (some n) =
    Holds n names
    × (matches_module_file line n ≡ true)
    × ((n ≡ exact line) ⊎ All (IsNoBetter line n) names)

text_lt_irrefl : (s : Text) → text_lt s s ≡ false
text_lt_irrefl s = ground (arith, text_compare-eq s s)

text_lt_asym : (s t : Text) → text_lt s t ≡ true → text_lt t s ≡ false
text_lt_asym s t h = ground (arith, text_compare-reverse s t)

-- What does not come before `c` does not come before what `c` does not come before.
text_lt_between : (m c n : Text) → text_lt c n ≡ false → text_lt m c ≡ false → text_lt m n ≡ false
text_lt_between m c n h k =
    ground (arith, text_compare-eq m c, text_compare-reverse m c, text_compare_trans c m n)

pub exact-matches : (line : GkiLine) → matches_module_file line (exact line) ≡ true
unfolding matches_module_file
exact-matches line = rw (strip_prefix-append (module_stem line) extension) refl

pub pick-skip :
    (line : GkiLine) (o : Option Text) (m : Text) (names : List Text)
    → matches_module_file line m ≡ false
    → pick_from line o (m ∷ names) ≡ pick_from line o names
pick-skip line o m names h = rw h refl

pub pick-exact :
    (line : GkiLine) (o : Option Text) (m : Text) (names : List Text)
    → matches_module_file line m ≡ true
    → text_eq m (exact line) ≡ true
    → pick_from line o (m ∷ names) ≡ some m
pick-exact line o m names h k = rw (h, k) refl

pub pick-keep :
    (line : GkiLine) (o : Option Text) (m : Text) (names : List Text)
    → matches_module_file line m ≡ true
    → text_eq m (exact line) ≡ false
    → pick_from line o (m ∷ names) ≡ pick_from line (better o m) names
pick-keep line o m names h k = rw (h, k) refl

-- What the loop picks once it has the fallback `c`.
abbrev pub IsFrom : GkiLine → Text → List Text → Text → Type 0
IsFrom line c names n =
    ((n ≡ exact line) × Holds n names)
    ⊎ (((n ≡ c) ⊎ (Holds n names × (matches_module_file line n ≡ true)))
        × All (IsNoBetter line n) names
        × (text_lt c n ≡ false))

pub not_exact : (line : GkiLine) (m : Text) → text_eq m (exact line) ≡ false → m ≢ exact line
not_exact line m h = ground (arith, text_eq_iff m (exact line))

abbrev IsKept : GkiLine → Text → List Text → Text → Type 0
IsKept line c names n = (n ≡ c) ⊎ (Holds n names × (matches_module_file line n ≡ true))

later :
    (line : GkiLine) (c m : Text) (names : List Text) (n : Text)
    → IsKept line c names n
    → IsKept line c (m ∷ names) n
later line c m names n (inl e) = inl e
later line c m names n (inr (h, k)) = inr (inr h, k)

replaced :
    (line : GkiLine) (c m : Text) (names : List Text) (n : Text)
    → matches_module_file line m ≡ true
    → IsKept line m names n
    → IsKept line c (m ∷ names) n
replaced line c m names n k (inl e) = inr (inl e, ap (matches_module_file line) e ∙ k)
replaced line c m names n k (inr (h, l)) = inr (inr h, l)

skipped-IsFrom :
    (line : GkiLine) (c m : Text) (names : List Text) (n : Text)
    → matches_module_file line m ≡ false
    → IsFrom line c names n
    → IsFrom line c (m ∷ names) n
skipped-IsFrom line c m names n h (inl (e, held)) = inl (e, inr held)
skipped-IsFrom line c m names n h (inr (kept, all, bound)) =
    inr (later line c m names n kept, ((λ k. ground arith), all), bound)

replaced-IsFrom :
    (line : GkiLine) (c m : Text) (names : List Text) (n : Text)
    → matches_module_file line m ≡ true
    → m ≢ exact line
    → text_lt m c ≡ true
    → IsFrom line m names n
    → IsFrom line c (m ∷ names) n
replaced-IsFrom line c m names n h ne l (inl (e, held)) = inl (e, inr held)
replaced-IsFrom line c m names n h ne l (inr (kept, all, bound)) = inr (
  replaced line c m names n h kept,
  ((λ _. (ne, bound)), all),
  text_lt_between c m n bound (text_lt_asym m c l),
)

kept-IsFrom :
    (line : GkiLine) (c m : Text) (names : List Text) (n : Text)
    → m ≢ exact line
    → text_lt m c ≡ false
    → IsFrom line c names n
    → IsFrom line c (m ∷ names) n
kept-IsFrom line c m names n ne l (inl (e, held)) = inl (e, inr held)
kept-IsFrom line c m names n ne l (inr (kept, all, bound)) =
    inr (later line c m names n kept, ((λ _. (ne, text_lt_between m c n bound l)), all), bound)

better-lt : (c m : Text) → text_lt m c ≡ true → better (some c) m ≡ some m
better-lt c m h = rw h refl

better-ge : (c m : Text) → text_lt m c ≡ false → better (some c) m ≡ some c
better-ge c m h = rw h refl

pub pick_from-IsFrom :
    (line : GkiLine) (c : Text) (names : List Text)
    → (n : Text) × (pick_from line (some c) names ≡ some n) × IsFrom line c names n
pick_from-IsFrom line c [] = (c, refl, inr (inl refl, tt, text_lt_irrefl c))
pick_from-IsFrom line c (m ∷ names) =
    by (λ d. pick_from-IsFrom line d names) (matches_module_file line m) (text_eq m (exact line))
      (text_lt m c) refl refl refl
  where
    by :
        ((d : Text) → (n : Text) × (pick_from line (some d) names ≡ some n) × IsFrom line d names n)
        → (matched same before : Bool) → matches_module_file line m ≡ matched
        → text_eq m (exact line) ≡ same
        → text_lt m c ≡ before
        → (n : Text) × (pick_from line (some c) (m ∷ names) ≡ some n) × IsFrom line c (m ∷ names) n
    by rest false same before h k l =
        let (n, e, from) = rest c in
        (n, pick-skip line (some c) m names h ∙ e, skipped-IsFrom line c m names n h from)
    by rest true true before h k l =
        (m, pick-exact line (some c) m names h k, inl ((text_eq_iff m (exact line)).0 k, inl refl))
    by rest true false true h k l =
        let (n, e, from) = rest m in
        (
          n,
          pick-keep line (some c) m names h k
              ∙ (ap (λ o. pick_from line o names) (better-lt c m l) ∙ e),
          replaced-IsFrom line c m names n h (not_exact line m k) l from,
        )
    by rest true false false h k l =
        let (n, e, from) = rest c in
        (
          n,
          pick-keep line (some c) m names h k
              ∙ (ap (λ o. pick_from line o names) (better-ge c m l) ∙ e),
          kept-IsFrom line c m names n (not_exact line m k) l from,
        )
