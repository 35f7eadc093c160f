-- ===== src/Policy/LongestPrefix.antt =====
-- `lpm_v4` and `lpm_v6` find the longest matching prefix.
use Prim.Native.Nat.{bit_and}
use flux_rs.Base.{
  ==_iff, ℕ, suc, ◌≤◌, ◌<◌, ◌≡◌, ◌↔◌, ◌⊎◌, inl, inr, refl, ◌∙◌, ap, true, ◌&&◌, Option, none, some,
  [], ◌∷◌, if◌then◌else◌, Option-cases, arith,
}
use flux_rs.Collections.BTreeMap.{BTreeMap, get, contains_key, is_some, IsSorted}
use flux_rs.Collections.BTreeMap.Laws.{get-IsAbove}
use flux_rs.Cidr.{Cidr}
use flux_rs.Policy.Epoch.{
  BypassTag, cidr_ord, prefix_in, lpm_loop, is_longer, lpm, tag_of, epoch_mask,
}

abbrev score : Option (ℕ × BypassTag) → ℕ
score none = 0
score (some (len, tag)) = suc len

abbrev Map : Type 0
Map = BTreeMap Cidr BypassTag

-- A lookup below the head of an ordered map.
get_tail :
    (c k : Cidr) (t : BypassTag) (m : Map)
    → IsSorted ((k, t) ∷ m)
    → contains_key c m ≡ true
    → get c ((k, t) ∷ m) ≡ get c m
unfolding get
get_tail c k t m s h = ground (arith, cidr_ord.cmp_eq c k, get-IsAbove k m s.0)

get_head : (k : Cidr) (t : BypassTag) (m : Map) → get k ((k, t) ∷ m) ≡ some t
unfolding get
get_head k t m = ground (arith, cidr_ord.cmp_eq k k)

-- A key of the map is the head's or is found below it.
key_cases :
    (c k : Cidr) (t : BypassTag) (m : Map)
    → contains_key c ((k, t) ∷ m) ≡ true
    → (c ≡ k) ⊎ (contains_key c m ≡ true)
unfolding get
key_cases c k t m h = ground (arith, cidr_ord.cmp_eq c k)

module _ (w addr : ℕ) where
  -- The loop's result `r` from `best`: no match beats it, and it is `best` or a matching entry.
  record LoopResult (m : Map) (best r : Option (ℕ × BypassTag)) : Type 0 where
    bounded :
        (c : Cidr) → contains_key c m ≡ true → prefix_in w c addr ≡ true → c.prefix_len < score r
    keeps : score best ≤ score r
    origin :
        (r ≡ best)
        ⊎ ((c : Cidr) × (tag : BypassTag) × (get c m ≡ some tag)
            × (prefix_in w c addr ≡ true)
            × (r ≡ some (c.prefix_len, tag)))

  abbrev next_best : Cidr → BypassTag → Option (ℕ × BypassTag) → Option (ℕ × BypassTag)
  next_best k t best =
      if prefix_in w k addr && is_longer k.prefix_len best then some (k.prefix_len, t) else best

  next_best_keeps :
      (k : Cidr) (t : BypassTag) (best : Option (ℕ × BypassTag))
      → score best ≤ score (next_best k t best)
  next_best_keeps k t best = ground arith

  next_best_bounds :
      (k : Cidr) (t : BypassTag) (best : Option (ℕ × BypassTag))
      → prefix_in w k addr ≡ true
      → k.prefix_len < score (next_best k t best)
  next_best_bounds k t best h = ground arith

  next_best_origin :
      (k : Cidr) (t : BypassTag) (best : Option (ℕ × BypassTag))
      → (next_best k t best ≡ best)
        ⊎ ((prefix_in w k addr ≡ true) × (next_best k t best ≡ some (k.prefix_len, t)))
  next_best_origin k t best = ground arith

  loop_lem :
      (m : Map) (best : Option (ℕ × BypassTag))
      → IsSorted m
      → LoopResult m best (lpm_loop w addr m best)
  unfolding lpm_loop
  loop_lem [] best s = record {
    bounded = λ c h. unfold get in cc;
    keeps = omega arith;
    origin = inl refl;
  }
  loop_lem ((k, t) ∷ m) best s =
      let best' = next_best k t best in
      let ih = loop_lem m best' s.1 in
      record {
        bounded = λ c h p. elim (key_cases c k t m h) [
          | inl same ↦ omega (
            arith,
            ap (λ (x : Cidr). x.prefix_len) same,
            next_best_bounds k t best (rw same at p),
            ih.keeps,
          )
          | inr below ↦ ih.bounded c below p
        ];
        keeps = omega (arith, next_best_keeps k t best, ih.keeps);
        origin = elim ih.origin [
          | inl kept ↦ elim (next_best_origin k t best) [
            | inl same ↦ inl (kept ∙ same)
            | inr (p, e) ↦ inr (k, t, get_head k t m, p, kept ∙ e)
          ]
          | inr (c, tag, g, p, e) ↦ inr (c, tag, get_tail c k t m s (ap is_some g) ∙ g, p, e)
        ];
      }

-- `c` matches the address, and no key of the map that matches it is longer.
pub record IsLongest (w addr : ℕ) (m : BTreeMap Cidr BypassTag) (c : Cidr) : Type 0 where
  pub matches : prefix_in w c addr ≡ true
  pub longest :
      (k : Cidr) → contains_key k m ≡ true → prefix_in w k addr ≡ true → k.prefix_len ≤ c.prefix_len

some_of_tag :
    (r : Option (ℕ × BypassTag)) (tag : BypassTag)
    → tag_of r ≡ some tag
    → (len : ℕ) × (r ≡ some (len, tag))
some_of_tag none tag h = cc
some_of_tag (some (len, t)) tag h = (len, cc)

-- Two longest matches of one address are the same prefix: the mask of its length selects it.
IsLongest-unique :
    (w addr : ℕ) (m : BTreeMap Cidr BypassTag) (c d : Cidr)
    → contains_key c m ≡ true
    → contains_key d m ≡ true
    → IsLongest w addr m c
    → IsLongest w addr m d
    → c ≡ d
unfolding prefix_in
IsLongest-unique w addr m c d hc hd lc ld =
    let same : c.prefix_len ≡ d.prefix_len =
      omega (arith, lc.longest d hd ld.matches, ld.longest c hc lc.matches) in
    let c_addr = (==_iff (bit_and addr (epoch_mask w c.prefix_len)) c.addr).0 lc.matches in
    let d_addr = (==_iff (bit_and addr (epoch_mask w d.prefix_len)) d.addr).0 ld.matches in
    ground (arith, same, c_addr, d_addr)

-- On an ordered map the match answers `tag` exactly when a key that holds `tag` matches the address
-- and is the longest to do so.
pub lpm-IsLongest :
    (w addr : ℕ) (m : BTreeMap Cidr BypassTag) (tag : BypassTag)
    → IsSorted m
    → (lpm w m addr ≡ some tag) ↔ ((c : Cidr) × (get c m ≡ some tag) × IsLongest w addr m c)
lpm-IsLongest w addr m tag s = (to, from)
  where
    result : LoopResult w addr m none (lpm_loop w addr m none)
    result = loop_lem w addr m none s

    found :
        (len : ℕ) (t : BypassTag)
        → lpm_loop w addr m none ≡ some (len, t)
        → (c : Cidr) × (get c m ≡ some t) × IsLongest w addr m c
    found len t e = elim result.origin [
      | inl missed ↦ cc (missed, e)
      | inr (c, u, g, p, r) ↦ (
        c,
        cc (g, r, e),
        record { matches = p; longest = λ k h q. omega (arith, rw r at (result.bounded k h q)) },
      )
    ]

    to : lpm w m addr ≡ some tag → (c : Cidr) × (get c m ≡ some tag) × IsLongest w addr m c
    to h =
        let (len, e) = some_of_tag (lpm_loop w addr m none) tag (unfold lpm in h) in found len tag e

    from : ((c : Cidr) × (get c m ≡ some tag) × IsLongest w addr m c) → lpm w m addr ≡ some tag
    from (c, g, l) = elim (Option-cases (lpm_loop w addr m none)) [
      | inl missed ↦
          absurd (omega (arith, rw missed at (result.bounded c (ap is_some g) l.matches)))
      | inr ((len, t), e) ↦
          let (d, h, k) = found len t e in
          let same = IsLongest-unique w addr m d c (ap is_some h) (ap is_some g) k l in
          unfold lpm in rw e (cc (rw same at h, g))
    ]
