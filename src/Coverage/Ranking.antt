-- ===== src/Coverage/Ranking.antt =====
-- About app/backend/src/bart/coverage.ts: the order of the candidates.
use bart_share.Text.{str_lt, Str}
use bart_share.Text.Order.{str_le_total, str_le_trans, str_le_refl}
use bart_share.Coverage.{Candidate, ranks_before}
use bart_share.Prelude.{◌≡◌, true, false, arith}

str_lt_trans : (a b c : Str) → str_lt a b ≡ true → str_lt b c ≡ true → str_lt a c ≡ true
unfolding str_lt
str_lt_trans a b c h k = ground (arith, str_le_total b a, str_le_total c b, str_le_trans c a b)

pub ranks_before_trans :
    (a b c : Candidate)
    → ranks_before a b ≡ true
    → ranks_before b c ≡ true
    → ranks_before a c ≡ true
unfolding ranks_before
ranks_before_trans a b c h k = ground (arith, str_lt_trans a.id b.id c.id)

str_lt_irrefl : (a : Str) → str_lt a a ≡ false
unfolding str_lt
str_lt_irrefl a = rw (str_le_refl a)

pub ranks_before_irrefl : (a : Candidate) → ranks_before a a ≡ false
unfolding ranks_before
ranks_before_irrefl a = ground (arith, str_lt_irrefl a.id)
