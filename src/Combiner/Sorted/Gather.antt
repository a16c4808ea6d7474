-- ===== src/Combiner/Sorted/Gather.antt =====
-- lib/combiner_sorted.c: the vectors that hold results, and what gathers them in the first.
use odp_libtrace.Prelude.{
  ◌+◌, ◌^◌, ◌≤◌, ◌≡◌, refl, ap, ap₂, sym, ◌∙◌, arith, List, [], ◌∷◌, ◌++◌, map, Option, some,
  length, length-append, length-take, length-map,
}
use mathlib.Core.List.{append_assoc, append-nil, map-append}
use odp_libtrace.DataStruct.Vector.{Vector, append}
use odp_libtrace.DataStruct.Vector.Lists.{contents, IsValid, append_lem}
use odp_libtrace.Combiner.{Result}
use odp_libtrace.Combiner.Order.{flatten}
use odp_libtrace.Combiner.Sorted.{gather}

-- A valid vector whose elements in use are these results, all of them written.
pub record Holds (v : Vector Result) (rs : List Result) : Type 0 where
  pub valid : IsValid v
  pub held : contents v ≡ map some rs

abbrev pub AllHold : List (Vector Result) → List (List Result) → Type 0
AllHold [] [] = Unit {0}
AllHold [] (rs ∷ rss) = ⊥
AllHold (v ∷ vs) [] = ⊥
AllHold (v ∷ vs) (rs ∷ rss) = Holds v rs × AllHold vs rss

-- Valid vectors without elements.
abbrev pub AllEmpty : List (Vector Result) → Type 0
AllEmpty [] = Unit {0}
AllEmpty (v ∷ vs) = Holds v [] × AllEmpty vs

pub Holds-size : (v : Vector Result) (rs : List Result) → Holds v rs → v.size ≡ length rs
unfolding contents
Holds-size v rs h = omega (
  arith,
  length-take v.size v.elements,
  length-map rs some,
  ap length h.held,
  h.valid.fits,
  h.valid.allocated,
)

pub record Gathered (rs : List Result) (out : Option (Vector Result × List (Vector Result)))
    : Type 0 where
  pub first : Vector Result
  pub others : List (Vector Result)
  pub returns : out ≡ some (first, others)
  pub holds : Holds first rs
  pub empty : AllEmpty others

gather-nil : (v : Vector Result) → gather v [] ≡ some (v, [])
unfolding gather
gather-nil v = refl

gather-cons :
    (v q : Vector Result) (qs : List (Vector Result)) (v' q' w : Vector Result)
    (qs' : List (Vector Result))
    → append v q ≡ some (v', q')
    → gather v' qs ≡ some (w, qs')
    → gather v (q ∷ qs) ≡ some (w, q' ∷ qs')
unfolding gather
gather-cons v q qs v' q' w qs' e f = ground (arith, e, f)

-- Gathering ends, moves the results of every queue behind those of the queues before it, and leaves
-- the others empty.
pub gather-Gathered :
    (v : Vector Result) (rs : List Result) (qs : List (Vector Result)) (rss : List (List Result))
    → Holds v rs
    → AllHold qs rss
    → length (rs ++ flatten rss) ≤ 2 ^ 63
    → Gathered (rs ++ flatten rss) (gather v qs)
gather-Gathered v rs [] [] h hs short = record {
  first = v;
  others = [];
  returns = gather-nil v;
  holds = record { valid = h.valid; held = h.held ∙ ap (map some) (sym (append-nil rs)) };
  empty = tt;
}
gather-Gathered v rs [] (xs ∷ xss) h hs short = absurd hs
gather-Gathered v rs (q ∷ qs) [] h hs short = absurd hs
gather-Gathered v rs (q ∷ qs) (xs ∷ xss) h (hq, hs) short =
    let behind = append_assoc rs xs (flatten xss) in
    let fits : v.size + q.size ≤ 2 ^ 63 = omega (
      arith,
      Holds-size v rs h,
      Holds-size q xs hq,
      length-append rs (xs ++ flatten xss),
      length-append xs (flatten xss),
      short,
    ) in
    let (v', q', e, moved, emptied, okv, okq) = append_lem v q h.valid hq.valid fits in
    let held : Holds v' (rs ++ xs) = record {
      valid = okv;
      held = moved ∙ ap₂ (λ a b. a ++ b) h.held hq.held ∙ sym (map-append some rs xs);
    } in
    let rest = gather-Gathered v' (rs ++ xs) qs xss held hs (rw behind short) in
    record {
      first = rest.first;
      others = q' ∷ rest.others;
      returns = gather-cons v q qs v' q' rest.first rest.others e rest.returns;
      holds = rw behind at rest.holds;
      empty = (record { valid = okq; held = emptied }, rest.empty);
    }
