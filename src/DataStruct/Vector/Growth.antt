-- ===== src/DataStruct/Vector/Growth.antt =====
-- lib/data-struct/vector.c, libtrace_vector_append: the loop that doubles max_size.
use odp_libtrace.Prelude.{
  ℕ, zero, suc, ◌+◌, ◌*◌, ◌^◌, ◌≤◌, ◌<◌, ◌≡◌, ap, sym, ◌∙◌, arith, Option, some, dec_lt,
}
use native.Mathlib.Nat.{pow-succ', mul_assoc}
use odp_libtrace.DataStruct.Vector.{grow}

-- The loop leaves room for what is added, and no word wraps round.
pub record Grown (max_size size more : ℕ) (out : Option ℕ) : Type 0 where
  pub grown : ℕ
  pub returns : out ≡ some grown
  pub room : size + more ≤ grown
  pub larger : max_size ≤ grown
  pub word : grown < 2 ^ 64

grow-stop :
    (rounds max_size size more : ℕ)
    → size + more ≤ max_size
    → max_size < 2 ^ 64
    → grow (suc rounds) max_size size more ≡ some max_size
unfolding grow
grow-stop rounds max_size size more h g = ground arith

grow-double :
    (rounds max_size size more : ℕ)
    → size ≤ max_size
    → max_size < size + more
    → size + more ≤ 2 ^ 63
    → grow (suc rounds) max_size size more ≡ grow rounds (max_size * 2) size more
unfolding grow
grow-double rounds max_size size more le h g = ground arith

stops :
    (rounds max_size size more : ℕ)
    → size + more ≤ max_size
    → max_size < 2 ^ 64
    → Grown max_size size more (grow (suc rounds) max_size size more)
stops rounds max_size size more h g = record {
  grown = max_size;
  returns = grow-stop rounds max_size size more h g;
  room = h;
  larger = omega arith;
  word = g;
}

pub grow-Grown :
    (rounds max_size size more : ℕ)
    → size ≤ max_size
    → size + more ≤ 2 ^ 63
    → max_size < 2 ^ 64
    → size + more ≤ max_size * 2 ^ rounds
    → Grown max_size size more (grow (suc rounds) max_size size more)
grow-Grown zero max_size size more le short wide enough =
    stops 0 max_size size more (omega arith) wide
grow-Grown (suc rounds) max_size size more le short wide enough =
    elim (dec_lt max_size (size + more)) [
      | yes l ↦
          let scaled =
            ap (λ k. max_size * k) (pow-succ' 2 rounds) ∙ sym (mul_assoc max_size 2 (2 ^ rounds)) in
          let g =
            grow-Grown rounds (max_size * 2) size more (omega arith) short (omega arith)
              (omega (arith, scaled)) in
          record {
            grown = g.grown;
            returns = grow-double (suc rounds) max_size size more le l short ∙ g.returns;
            room = g.room;
            larger = omega (arith, g.larger);
            word = g.word;
          }
      | no n ↦ stops (suc rounds) max_size size more (omega arith) wide
    ]
