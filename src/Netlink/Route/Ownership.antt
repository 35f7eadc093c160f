-- ===== src/Netlink/Route/Ownership.antt =====
-- crates/fluxd/src/netlink/route.rs: a filter is taken for an own one only where its whole message is
-- understood.
use flux_rs.Base.{
  ℕ, Bool, true, false, not, ◌&&◌, ◌||◌, ◌==◌, leb, List, [], ◌∷◌, ◌≡◌, refl, sym, ap, ◌∙◌, arith,
  All,
}
use flux_rs.Netlink.{Result, ok, err, stuck, ◌⟫◌}
use flux_rs.Netlink.Bytes.{drop}
use flux_rs.Netlink.Attrs.{Attr, attrs, read_u32, read_cstr}
use flux_rs.Netlink.Datagram.{read_struct}
use flux_rs.Netlink.Route.{contains, for_each}
use flux_rs.Netlink.Route.Links.{positive_index}
use flux_rs.Netlink.Route.Filters.{
  TcMsg, tc_msg_of, FilterParts, no_filter_parts, repeated, option_attr, is_diagnostic, filter_attr,
  Filter, filter_of, parse_filter, FilterIdentity, matches,
}

-- What `?` gives back.
⟫-eq-ok :
    {A B : Type 0} (m : Result A) (f : A → Result B) {b : B}
    → (m ⟫ f) ≡ ok b
    → (a : A) × (m ≡ ok a) × (f a ≡ ok b)
⟫-eq-ok stuck f h = cc
⟫-eq-ok (err e) f h = cc
⟫-eq-ok (ok a) f h = (a, refl, h)

-- No attribute was unknown and none came again.
abbrev clean : FilterParts → Bool
clean f = not f.unknown_attrs && not f.duplicate_attrs

-- The kinds differ from one another and from those seen before.
abbrev pub AreDistinct : List ℕ → List Attr → Type 0
AreDistinct seen [] = Unit {0}
AreDistinct seen (a ∷ more) = (contains a.kind seen ≡ false) × AreDistinct (a.kind ∷ seen) more

-- TCA_BPF_NAME, FLAGS, FLAGS_GEN, TAG and ID.
abbrev pub is_option : ℕ → Bool
is_option kind = leb 7 kind && leb kind 11

abbrev pub IsOption : Attr → Type 0
IsOption a = is_option a.kind ≡ true

-- The options of an attribute are distinct and known.
abbrev pub HasOptions : List ℕ → Type 0
HasOptions payload =
    (options : List Attr) × (attrs payload ≡ ok options)
    × AreDistinct [] options
    × All IsOption options

-- An attribute of a known kind, whose options are in order where it carries any.
abbrev pub IsFilterAttr : Attr → Type 0
IsFilterAttr a =
    (((a.kind == 1) || (a.kind == 2) || (a.kind == 11) || is_diagnostic a.kind) ≡ true)
    × (a.kind ≡ 2 → HasOptions a.payload)

-- Where each step shows that its attribute is new and known, so does the loop of all of them.
for_each-clean :
    {S : Type 0} (step : Bool → Attr → S → Result S) (sound : S → Bool) (Known : Attr → Type 0)
    → ((again : Bool) (a : Attr) (s t : S)
        → step again a s ≡ ok t
        → sound t ≡ true
        → (again ≡ false) × Known a × (sound s ≡ true))
    → (seen : List ℕ) (l : List Attr) (s t : S) → for_each step seen l s ≡ ok t
    → sound t ≡ true
    → AreDistinct seen l × All Known l × (sound s ≡ true)
for_each-clean step sound Known one seen [] s t h c = (tt, tt, cc)
for_each-clean step sound Known one seen (a ∷ more) s t h c =
    let (s', e, rest) =
      ⟫-eq-ok (step (contains a.kind seen) a s) (λ s'. for_each step (a.kind ∷ seen) more s') h in
    let (distinct, known, sound') =
      for_each-clean step sound Known one (a.kind ∷ seen) more s' t rest c in
    let (new, k, sound_s) = one (contains a.kind seen) a s s' e sound' in
    ((new, distinct), (k, known), sound_s)

option_by :
    (is_utf8 : List ℕ → Bool) (again : Bool) (a : Attr) (f g : FilterParts) (n : Result ℕ)
    → read_u32 a ≡ n
    → (s : Result (List ℕ)) → read_cstr is_utf8 a ≡ s
    → option_attr is_utf8 again a f ≡ ok g
    → clean g ≡ true
    → (again ≡ false) × (is_option a.kind ≡ true) × (clean f ≡ true)
option_by is_utf8 again a f g (ok n) en (ok s) es h c = (ground arith, ground arith, ground arith)
option_by is_utf8 again a f g (ok n) en (err e) es h c = (ground arith, ground arith, ground arith)
option_by is_utf8 again a f g (ok n) en stuck es h c = (ground arith, ground arith, ground arith)
option_by is_utf8 again a f g (err e) en (ok s) es h c = (ground arith, ground arith, ground arith)
option_by is_utf8 again a f g (err e) en (err e') es h c =
    (ground arith, ground arith, ground arith)
option_by is_utf8 again a f g (err e) en stuck es h c = (ground arith, ground arith, ground arith)
option_by is_utf8 again a f g stuck en (ok s) es h c = (ground arith, ground arith, ground arith)
option_by is_utf8 again a f g stuck en (err e) es h c = (ground arith, ground arith, ground arith)
option_by is_utf8 again a f g stuck en stuck es h c = (ground arith, ground arith, ground arith)

option_attr-IsOption :
    (is_utf8 : List ℕ → Bool) (again : Bool) (a : Attr) (f g : FilterParts)
    → option_attr is_utf8 again a f ≡ ok g
    → clean g ≡ true
    → (again ≡ false) × IsOption a × (clean f ≡ true)
option_attr-IsOption is_utf8 again a f g h c =
    option_by is_utf8 again a f g (read_u32 a) refl (read_cstr is_utf8 a) refl h c

options_read :
    (is_utf8 : List ℕ → Bool) (payload : List ℕ) (f g : FilterParts)
    → (attrs payload ⟫ (λ options. for_each (option_attr is_utf8) [] options f)) ≡ ok g
    → clean g ≡ true
    → HasOptions payload × (clean f ≡ true)
options_read is_utf8 payload f g h c =
    let (options, e, loop) =
      ⟫-eq-ok (attrs payload) (λ options. for_each (option_attr is_utf8) [] options f) h in
    let (distinct, known, sound) =
      for_each-clean (option_attr is_utf8) clean IsOption (option_attr-IsOption is_utf8) [] options
        f g loop c in
    ((options, e, distinct, known), sound)

-- The attributes other than the options.
filter_by :
    (is_utf8 : List ℕ → Bool) (again : Bool) (a : Attr) (f g : FilterParts) (n : Result ℕ)
    → read_u32 a ≡ n
    → (s : Result (List ℕ)) → read_cstr is_utf8 a ≡ s
    → filter_attr is_utf8 again a f ≡ ok g
    → clean g ≡ true
    → (a.kind == 2) ≡ false
    → (again ≡ false)
      × (((a.kind == 1) || (a.kind == 11) || is_diagnostic a.kind) ≡ true)
      × (clean f ≡ true)
filter_by is_utf8 again a f g (ok n) en (ok s) es h c k = (ground arith, ground arith, ground arith)
filter_by is_utf8 again a f g (ok n) en (err e) es h c k =
    (ground arith, ground arith, ground arith)
filter_by is_utf8 again a f g (ok n) en stuck es h c k = (ground arith, ground arith, ground arith)
filter_by is_utf8 again a f g (err e) en (ok s) es h c k =
    (ground arith, ground arith, ground arith)
filter_by is_utf8 again a f g (err e) en (err e') es h c k =
    (ground arith, ground arith, ground arith)
filter_by is_utf8 again a f g (err e) en stuck es h c k = (ground arith, ground arith, ground arith)
filter_by is_utf8 again a f g stuck en (ok s) es h c k = (ground arith, ground arith, ground arith)
filter_by is_utf8 again a f g stuck en (err e) es h c k = (ground arith, ground arith, ground arith)
filter_by is_utf8 again a f g stuck en stuck es h c k = (ground arith, ground arith, ground arith)

filter_options :
    (is_utf8 : List ℕ → Bool) (again : Bool) (a : Attr) (f g : FilterParts)
    → filter_attr is_utf8 again a f ≡ ok g
    → (a.kind == 2) ≡ true
    → (attrs a.payload ⟫ (λ options. for_each (option_attr is_utf8) [] options (repeated again f)))
      ≡ ok g
filter_options is_utf8 again a f g h k = ground arith

not_repeated : (again : Bool) (f : FilterParts) → clean (repeated again f) ≡ true → again ≡ false
not_repeated again f c = ground arith

first_clean : (again : Bool) (f : FilterParts) → clean (repeated again f) ≡ true → clean f ≡ true
first_clean again f c = ground arith

filter_attr-IsFilterAttr :
    (is_utf8 : List ℕ → Bool) (again : Bool) (a : Attr) (f g : FilterParts) (has_options : Bool)
    → (a.kind == 2) ≡ has_options
    → filter_attr is_utf8 again a f ≡ ok g
    → clean g ≡ true
    → (again ≡ false) × IsFilterAttr a × (clean f ≡ true)
filter_attr-IsFilterAttr is_utf8 again a f g true k h c =
    let (options, sound) =
      options_read is_utf8 a.payload (repeated again f) g (filter_options is_utf8 again a f g h k)
        c in
    (not_repeated again f sound, (ground arith, λ _. options), first_clean again f sound)
filter_attr-IsFilterAttr is_utf8 again a f g false k h c =
    let (new, known, sound) =
      filter_by is_utf8 again a f g (read_u32 a) refl (read_cstr is_utf8 a) refl h c k in
    (new, (ground arith, λ two. ground arith), sound)

same_parts :
    (header : TcMsg) (parts : FilterParts) (index : Result ℕ) (f : Filter)
    → (index ⟫ λ ifindex. ok (filter_of header parts ifindex)) ≡ ok f
    → f.parts ≡ parts
same_parts header parts (ok ifindex) f h = cc
same_parts header parts (err e) f h = cc
same_parts header parts stuck f h = cc

filter_parts :
    (is_utf8 : List ℕ → Bool) (payload : List ℕ) (f : Filter)
    → parse_filter is_utf8 payload ≡ ok f
    → clean f.parts ≡ true
    → (more : List Attr) × (attrs (drop 20 payload) ≡ ok more)
      × AreDistinct [] more
      × All IsFilterAttr more
unfolding parse_filter
filter_parts is_utf8 payload f h c =
    let read = filter_attr is_utf8 in
    let (header, _, all) =
      ⟫-eq-ok (read_struct (tc_msg_of payload))
        (λ header. attrs (drop 20 payload) ⟫ λ more.
          for_each read [] more no_filter_parts ⟫ λ parts.
          positive_index header.ifindex ⟫ λ ifindex. ok (filter_of header parts ifindex))
        h in
    let (more, e, loop) =
      ⟫-eq-ok (attrs (drop 20 payload))
        (λ more. for_each read [] more no_filter_parts ⟫ λ parts.
          positive_index header.ifindex ⟫ λ ifindex. ok (filter_of header parts ifindex))
        all in
    let (parts, looped, last) =
      ⟫-eq-ok (for_each read [] more no_filter_parts)
        (λ parts. positive_index header.ifindex ⟫ λ ifindex. ok (filter_of header parts ifindex))
        loop in
    let same = same_parts header parts (positive_index header.ifindex) f last in
    let (distinct, known, _) =
      for_each-clean read clean IsFilterAttr
        (λ again a g g'. filter_attr-IsFilterAttr is_utf8 again a g g' (a.kind == 2) refl) [] more
        no_filter_parts parts looped (sym (ap clean same) ∙ c) in
    (more, e, distinct, known)

matches-clean : (id : FilterIdentity) (f : Filter) → matches id f ≡ true → clean f.parts ≡ true
unfolding matches
matches-clean id f h = ground arith

-- A filter that is read from a dump and taken for an own one has a message in which every attribute is
-- known and none comes twice, and where it has options, in these too.
pub parse_filter-matches :
    (is_utf8 : List ℕ → Bool) (payload : List ℕ) (f : Filter) (id : FilterIdentity)
    → parse_filter is_utf8 payload ≡ ok f
    → matches id f ≡ true
    → (more : List Attr) × (attrs (drop 20 payload) ≡ ok more)
      × AreDistinct [] more
      × All IsFilterAttr more
parse_filter-matches is_utf8 payload f id h owned =
    filter_parts is_utf8 payload f h (matches-clean id f owned)
