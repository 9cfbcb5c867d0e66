-- ===== src/Jobs/Order.antt =====
-- The orders of the SELECT statements are orders.
use stevy.Base.{◌≡◌, true, false, arith}
use stevy.Base.Sort.Order.{IsOrder}
use stevy.Base.Text.{Text, text_lt, text_lt_trans, text_lt_irrefl, text_lt_total}
use stevy.Jobs.Select.{claims_before, newer}

pub text_lt_asym : (a b : Text) → text_lt a b ≡ true → text_lt b a ≡ false
text_lt_asym a b h = ground (arith, text_lt_trans a b a h, text_lt_irrefl a)

-- text_lt is total, so "not below" is transitive.
pub text_not_lt_trans :
    (a b c : Text) → text_lt a b ≡ false → text_lt b c ≡ false → text_lt a c ≡ false
text_not_lt_trans a b c h k = ground (
  arith,
  text_lt_total a b h,
  text_lt_total b c k,
  text_lt_trans b a c,
  text_lt_trans a c b,
  text_lt_asym a c,
)

pub claims_before-IsOrder : IsOrder claims_before
unfolding claims_before
claims_before-IsOrder = record {
  asym = λ a b h. ground (arith, text_lt_asym a.id b.id);
  not_trans = λ a b c h k. ground (arith, text_not_lt_trans a.id b.id c.id);
}

pub newer-IsOrder : IsOrder newer
unfolding newer
newer-IsOrder = record {
  asym = λ a b h. text_lt_asym b.id a.id h;
  not_trans = λ a b c h k. text_not_lt_trans c.id b.id a.id k h;
}
