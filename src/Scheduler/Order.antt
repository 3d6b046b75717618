-- ===== src/Scheduler/Order.antt =====
-- The order of the candidates is one, so that the sort puts a best candidate first.
use job_dock.Base.{
  ◌≡◌, true, false, arith, Text, text_ltb, text_ltb_irrefl, text_ltb_trans, text_ltb_antisym, slt,
  eq64, IsOrder,
}
use job_dock.Scheduler.Select.{Candidate}
use job_dock.Scheduler.Waiting.{candidate_less}

text_ltb_asym : (a b : Text) → text_ltb a b ≡ true → text_ltb b a ≡ false
text_ltb_asym a b h = ground (arith, text_ltb_irrefl a, text_ltb_trans a b a)

text_ltb_ge_trans :
    (a b c : Text) → text_ltb b a ≡ false → text_ltb c b ≡ false → text_ltb c a ≡ false
text_ltb_ge_trans a b c p q =
    ground (
      arith,
      text_ltb_antisym a b,
      text_ltb_antisym b c,
      text_ltb_trans c a b,
      text_ltb_trans b c a,
    )

candidate_less_asym : (a b : Candidate) → candidate_less a b ≡ true → candidate_less b a ≡ false
unfolding candidate_less slt eq64
candidate_less_asym a b h = ground (arith, text_ltb_asym a.node.id b.node.id)

candidate_less_ge_trans :
    (a b c : Candidate)
    → candidate_less b a ≡ false
    → candidate_less c b ≡ false
    → candidate_less c a ≡ false
unfolding candidate_less slt eq64
candidate_less_ge_trans a b c p q = ground (arith, text_ltb_ge_trans a.node.id b.node.id c.node.id)

pub candidate_less-IsOrder : IsOrder candidate_less
candidate_less-IsOrder = record { asym = candidate_less_asym; ge_trans = candidate_less_ge_trans }
