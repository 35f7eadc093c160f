-- ===== src/Netlink/Fuel.antt =====
-- The steps that the parsers share in the proofs that their fuel is enough.
use flux_rs.Base.{◌≡◌, ◌≢◌, refl, Bool, true, false, if◌then◌else◌, arith}
use flux_rs.Netlink.{Error, Result, ok, err, stuck, ◌⟫◌}

pub bind_ok : {A B : Type 0} (r : Result A) (f : A → B) → r ≢ stuck → (r ⟫ λ a. ok (f a)) ≢ stuck
bind_ok (ok a) f h e = ground arith
bind_ok (err x) f h e = ground arith
bind_ok stuck f h e = h refl

-- A round ends with a known result, or goes on.
pub later_or_known :
    {A : Type 0} (invalid short whole : Bool) (x y : Error) (a : A) (r : Result A)
    → (invalid ≡ false → r ≢ stuck)
    → (if invalid then err x else if short then (if whole then ok a else err y) else r) ≢ stuck
later_or_known true short whole x y a r h e = ground arith
later_or_known false true true x y a r h e = ground arith
later_or_known false true false x y a r h e = ground arith
later_or_known false false whole x y a r h e = h refl e
